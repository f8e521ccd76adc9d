-- ===== src/Message/Immediate.antt =====
-- pkg/message/immediate.go.
use golinker.Base.{ℕ, ◌+◌, Option, some, List, ltb, if◌then◌else◌, length}
use golinker.Api.{Buffer}
use golinker.Errors.{buffer_too_small}
use golinker.Go.State.{Call, ◌>>=◌, ◌>>◌, fail, gets, modify, lift}
use golinker.Message.Transport.{Transport, message}
use golinker.Message.Wire.{cmd_header_size, app_header_size, pack_single}

module _ {W : Type 0} (t : Transport W) where
  -- Pack one message into an acquired buffer, and post it.
  unfoldable pub pack_and_send : Buffer → List ℕ → Call W (Unit {0})
  pack_and_send b msg = do
    dest ← gets (t.bytes b)
    now ← gets t.now
    r ← lift (pack_single now dest msg)
    modify (t.store b r.0)
    t.send (message b r.1)

  unfoldable pub reject : Buffer → Call W (Unit {0})
  reject b = do t.complete_send (some b); fail buffer_too_small

  -- Too long a message is refused before anything is written.
  unfoldable pub send_in : List ℕ → Buffer → Call W (Unit {0})
  unfolding pack_and_send reject
  send_in msg b =
      if ltb b.len (cmd_header_size + app_header_size + length msg)
      then reject b
      else pack_and_send b msg

  unfoldable pub send : List ℕ → Call W (Unit {0})
  unfolding send_in
  send msg = do b ← t.acquire_for_send; send_in msg b

  unfoldable pub on_send_complete : Option Buffer → Call W (Unit {0})
  on_send_complete b = t.complete_send b
