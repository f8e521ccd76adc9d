-- ===== src/Message/Transport.antt =====
-- What pkg/message takes from api.SendBufferPool and api.Connection, over a state `W` of both, with
-- the registered memory and the clock.
use golinker.Base.{ℕ, Option, some, List, ◌++◌, ◌≤◌, ◌≡◌, length}
use golinker.Api.{Buffer, Message}
use golinker.Errors.{Result, ok, err, panic, diverge}
use golinker.Go.State.{Call}
use golinker.Message.Wire.{unpack_batch}

-- `bytes b` is `unsafe.Slice((*byte)(buf.Addr), buf.Length)`, and `store` writes that memory.
pub record Transport (W : Type 0) : Type 0 where
  pub acquire_for_send : Call W Buffer
  pub complete_send : Option Buffer → Call W (Unit {0})
  pub send : Message → Call W (Unit {0})
  pub bytes : Buffer → W → List ℕ
  pub store : Buffer → List ℕ → W → W
  pub now : W → ℕ

abbrev pub message : Buffer → ℕ → Message
message b n = record { buffer = some b; len = n; flags = 0; imm_data = 0 }

module _ {W : Type 0} (delivered : W → List (List ℕ)) (Good : W → Type 0) where
  abbrev pub Acquires :
      (Buffer → W → Type 0) → (Buffer → W → List ℕ) → ℕ → W → Result Buffer × W → Type 0
  Acquires Held bytes size w (ok b, w') =
      (delivered w' ≡ delivered w) × (size ≤ length (bytes b w')) × Good w' × Held b w'
  Acquires Held bytes size w (err e, w') = (delivered w' ≡ delivered w) × Good w'
  Acquires Held bytes size w (panic, w') = ⊥
  Acquires Held bytes size w (diverge, w') = ⊥

  abbrev pub Sends : List (List ℕ) → W → Result (Unit {0}) × W → Type 0
  Sends msgs w (ok u, w') = (delivered w' ≡ delivered w ++ msgs) × Good w'
  Sends msgs w (err e, w') = (delivered w' ≡ delivered w) × Good w'
  Sends msgs w (panic, w') = ⊥
  Sends msgs w (diverge, w') = ⊥

-- What a write of the whole memory of a buffer does.
pub record Stored {W : Type 0} (t : Transport W) (delivered : W → List (List ℕ)) (Good : W → Type 0)
    (Held : Buffer → W → Type 0) (b : Buffer) (out : List ℕ) (w : W) : Type 0 where
  pub reads_back : t.bytes b (t.store b out w) ≡ out
  pub silent : delivered (t.store b out w) ≡ delivered w
  pub good : Good (t.store b out w)
  pub held : Held b (t.store b out w)

-- What the senders rely on in the good states: acquired buffers are held by the caller and have
-- `size` bytes, a write is read back, and a send of a held buffer that succeeds delivers, behind
-- what was delivered before, the messages that the receiver unpacks from the posted bytes.
pub record Laws {W : Type 0} (t : Transport W) (size : ℕ) (Good : W → Type 0)
    (Held : Buffer → W → Type 0) : Type 0 where
  pub delivered : W → List (List ℕ)
  pub acquires :
      (w : W) → Good w → Acquires delivered Good Held t.bytes size w (t.acquire_for_send w)
  pub stores :
      (b : Buffer) (out : List ℕ) (w : W)
      → Good w
      → Held b w
      → length out ≡ length (t.bytes b w)
      → Stored t delivered Good Held b out w
  pub sends :
      (b : Buffer) (n : ℕ) (msgs : List (List ℕ)) (w : W)
      → Good w
      → Held b w
      → n ≤ length (t.bytes b w)
      → unpack_batch (t.bytes b w) n ≡ ok msgs
      → Sends delivered Good msgs w (t.send (message b n) w)
