-- ===== src/Cq/Poller/Lifecycle.antt =====
-- pkg/cq/poller.go in event and smart mode: Start, AddCQ, RemoveCQ and Close, the poll loop that
-- Start launches, and the waiters, as interleaved steps. One queue with a completion channel is
-- followed; a waiter is known by the file that startEventWaiter opened for it.
use golinker.Base.{
  ℕ, suc, ◌≡◌, ◌⊎◌, Bool, true, false, Option, none, some, List, [], ◌∷◌, ◌==◌, if◌then◌else◌,
}
use golinker.Go.Dict.{lookup, insert, delete}

-- The goroutine of the poll loop: not launched, launched by Start, in its loop, in `p.wg.Wait()`, or
-- ended, which closes `p.done`.
pub data Loop : Type 0 where
  absent launched looping waiting ended : Loop

-- Close: not called, at `<-p.done`, or returned.
pub data Closer : Type 0 where
  unclosed awaiting closed : Closer

-- `entry` is the queue's entry and the file in it. `watches` are the waiters and whether they are in
-- the read; `shut` are the files that were closed, `files` how many were opened.
pub record Life : Type 0 where
  pub started : Bool
  pub cancelled : Bool
  pub entry : Option (Option ℕ)
  pub files : ℕ
  pub shut : List ℕ
  pub watches : List (ℕ × Bool)
  pub loop : Loop
  pub closer : Closer

abbrev pub elem : ℕ → List ℕ → Bool
elem k [] = false
elem k (j ∷ js) = if j == k then true else elem k js

-- startEventWaiter: a new file in the entry and a new waiter.
unfoldable pub start_event_waiter : Life → Life
start_event_waiter s = record s {
  entry = some (some s.files);
  files = suc s.files;
  watches = insert s.files false s.watches;
}

unfoldable pub start : Life → Life
start s = record s { started = true; loop = launched }

-- AddCQ of a queue that is not registered.
unfoldable pub add_cq : Life → Life
unfolding start_event_waiter
add_cq s = if s.started then start_event_waiter s else record s { entry = some none }

-- The file of an entry is closed and forgotten.
unfoldable pub close_file : Option ℕ → Life → Life
close_file none s = s
close_file (some f) s = record s { shut = f ∷ s.shut }

unfoldable pub remove_cq : Option ℕ → Life → Life
unfolding close_file
remove_cq file s = record (close_file file s) { entry = none }

-- The beginning of the poll loop: a waiter for the entry that is registered.
unfoldable pub begin_loop : Option (Option ℕ) → Life → Life
unfolding start_event_waiter
begin_loop none s = record s { loop = looping }
begin_loop (some file) s = record (start_event_waiter s) { loop = looping }

unfoldable pub leave_loop : Life → Life
leave_loop s = record s { loop = waiting }

unfoldable pub end_loop : Life → Life
end_loop s = record s { loop = ended }

-- Close up to `<-p.done`; `p.cancel` is nil before Start.
unfoldable pub close_entry : Option (Option ℕ) → Life → Life
unfolding close_file
close_entry none s = s
close_entry (some file) s = record (close_file file s) { entry = some none }

unfoldable pub close : Life → Life
unfolding close_entry
close s = record (close_entry s.entry s) { cancelled = s.started; closer = awaiting }

unfoldable pub return_close : Life → Life
return_close s = record s { closer = closed }

unfoldable pub park : ℕ → Life → Life
park f s = record s { watches = insert f true s.watches }

unfoldable pub wake : ℕ → Life → Life
wake f s = record s { watches = insert f false s.watches }

unfoldable pub exit : ℕ → Life → Life
exit f s = record s { watches = delete f s.watches }

-- One step; a waiter in the read goes on when an event comes on its channel, which is the only step
-- that `Step false` does not have, or when its file is closed.
pub data Step : Bool → Life → Life → Type 0 where
  starts : {b : Bool} (s : Life) → s.started ≡ false → Step b s (start s)
  adds : {b : Bool} (s : Life) → s.entry ≡ none → Step b s (add_cq s)
  removes :
      {b : Bool} (s : Life) (file : Option ℕ) → s.entry ≡ some file → Step b s (remove_cq file s)
  begins : {b : Bool} (s : Life) → s.loop ≡ launched → Step b s (begin_loop s.entry s)
  parks : {b : Bool} (s : Life) (f : ℕ) → lookup f s.watches ≡ some false → Step b s (park f s)
  wakes : (s : Life) (f : ℕ) → lookup f s.watches ≡ some true → Step true s (wake f s)
  stops :
      {b : Bool} (s : Life) (f : ℕ)
      → lookup f s.watches ≡ some false
      → (s.cancelled ≡ true) ⊎ (elem f s.shut ≡ true)
      → Step b s (exit f s)
  unblocks :
      {b : Bool} (s : Life) (f : ℕ)
      → lookup f s.watches ≡ some true
      → elem f s.shut ≡ true
      → Step b s (exit f s)
  leaves : {b : Bool} (s : Life) → s.loop ≡ looping → s.cancelled ≡ true → Step b s (leave_loop s)
  ends : {b : Bool} (s : Life) → s.loop ≡ waiting → s.watches ≡ [] → Step b s (end_loop s)
  closes : {b : Bool} (s : Life) → s.closer ≡ unclosed → Step b s (close s)
  returns : {b : Bool} (s : Life) → s.closer ≡ awaiting → s.loop ≡ ended → Step b s (return_close s)

abbrev pub init : Life
init = record {
  started = false;
  cancelled = false;
  entry = none;
  files = 0;
  shut = [];
  watches = [];
  loop = absent;
  closer = unclosed;
}

-- From `s` in steps of `Step b`.
pub data Reach (b : Bool) (s : Life) : Life → Type 0 where
  here : Reach b s s
  later : {t u : Life} → Reach b s t → Step b t u → Reach b s u
