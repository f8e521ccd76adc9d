-- ===== src/Cq/Dispatch.antt =====
-- pkg/cq/dispatcher.go: SendCompletionHandler, which returns the buffer of a finished send. The send
-- pool behind it is a state `W` with its CompleteSend, and the optional callback a call on it.
pub mod Release
use golinker.Base.{ℕ, Option, none, some, List, [], ◌∷◌, length}
use golinker.Api.{Buffer, WorkCompletion}
use golinker.Errors.{Error, Result}
use golinker.Go.Dict.{lookup, insert, delete}
use golinker.Go.State.{Call, ◌>>=◌, ◌>>◌, return, modify, gets, on}

-- The handler beside the state that it acts on.
pub record Tracker (W : Type 0) : Type 0 where
  pub wrid_map : List (ℕ × Option Buffer)
  pub world : W

abbrev pub new_tracker : {W : Type 0} → W → Tracker W
new_tracker w = record { wrid_map = []; world = w }

-- `buf, ok := h.wridMap[wrid]`, with `ok && buf != nil` for the result `some buf`.
abbrev pub join : Option (Option Buffer) → Option Buffer
join none = none
join (some b) = b

module _ {W : Type 0} where
  unfoldable pub track_send : ℕ → Option Buffer → Tracker W → Tracker W
  track_send wrid b t = record t { wrid_map = insert wrid b t.wrid_map }

  -- The lookup, and the deletion of what was found, under the handler's lock.
  unfoldable pub untrack : ℕ → Call (Tracker W) (Option Buffer)
  untrack wrid = do
    b ← gets (λ t. join (lookup wrid t.wrid_map))
    modify (λ t. record t { wrid_map = delete wrid t.wrid_map })
    return b

  unfoldable pub in_flight : Tracker W → ℕ
  in_flight t = length t.wrid_map

module _ {W : Type 0} (complete : Option Buffer → Call W (Unit {0})) where
  abbrev pub on_world : {A : Type 0} → Call W A → Call (Tracker W) A
  on_world = on (λ t. t.world) (λ w t. record t { world = w })

  -- `h.onComplete()`
  abbrev call_back : Option (Call W (Unit {0})) → Call (Tracker W) (Unit {0})
  call_back none = return tt
  call_back (some f) = on_world f

  unfoldable pub finish : Option (Call W (Unit {0})) → Option Buffer → Call (Tracker W) (Unit {0})
  finish callback none = return tt
  finish callback (some b) = do on_world (complete (some b)); call_back callback

  unfoldable pub on_completion :
      Option (Call W (Unit {0})) → WorkCompletion → Call (Tracker W) (Unit {0})
  unfolding untrack finish
  on_completion callback wc = do b ← untrack wc.wrid; finish callback b

  -- A completion with an error releases the buffer and does not call back.
  unfoldable pub on_error : Option WorkCompletion → Error → Call (Tracker W) (Unit {0})
  unfolding untrack finish
  on_error none e = return tt
  on_error (some wc) e = do b ← untrack wc.wrid; finish none b
