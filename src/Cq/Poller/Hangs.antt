-- ===== src/Cq/Poller/Hangs.antt =====
-- pkg/cq/poller.go: a Close that does not return.
use golinker.Base.{
  ℕ, ◌<◌, ◌≡◌, ◌≢◌, inl, inr, refl, sym, ap, ◌∙◌, Bool, true, false, Option, none, some, [], arith,
  ◌==◌, if◌then◌else◌, Bool-cases, not_both,
}
use golinker.Go.Dict.{lookup, insert, lookup-insert, lookup-delete_ne}
use golinker.Cq.Poller.Lifecycle.{
  looping, ended, unclosed, awaiting, Life, elem, start_event_waiter, start, add_cq, close_file,
  remove_cq, begin_loop, leave_loop, end_loop, close_entry, close, park, exit, Step, starts, adds,
  removes, begins, parks, stops, unblocks, leaves, ends, closes, returns, init, Reach, here, later,
}

-- The waiter of the first file is in its read, its file is open, and no entry has it any more.
pub record Stuck (s : Life) : Type 0 where
  pub reads : lookup 0 s.watches ≡ some true
  pub is_open : elem 0 s.shut ≡ false
  pub forgotten : s.entry ≢ some (some 0)
  pub opened : 0 < s.files
  pub unended : s.loop ≢ ended
  pub blocked : s.closer ≡ awaiting

none_true : lookup 0 [] ≡ some true → ⊥
unfolding lookup
none_true h = cc

on_off : some true ≡ some false → ⊥
on_off h = cc

apart : unclosed ≡ awaiting → ⊥
apart h = cc

-- A new waiter has another file.
waiter-Stuck : (s : Life) → Stuck s → Stuck (start_event_waiter s)
unfolding start_event_waiter
waiter-Stuck s v = record {
  reads = ground (arith, lookup-insert s.files 0 false s.watches, v.opened, v.reads);
  is_open = v.is_open;
  forgotten = λ h. ground (arith, v.opened);
  opened = omega arith;
  unended = v.unended;
  blocked = v.blocked;
}

-- A change that leaves the waiters, the files and Close alone.
moved-Stuck :
    (s t : Life)
    → t.watches ≡ s.watches
    → t.shut ≡ s.shut
    → t.files ≡ s.files
    → t.closer ≡ s.closer
    → t.entry ≢ some (some 0)
    → t.loop ≢ ended
    → Stuck s
    → Stuck t
moved-Stuck s t w h f c e l v = record {
  reads = ap (lookup 0) w ∙ v.reads;
  is_open = ap (elem 0) h ∙ v.is_open;
  forgotten = e;
  opened = omega (arith, v.opened, f);
  unended = l;
  blocked = c ∙ v.blocked;
}

remove_cq-Stuck :
    (s : Life) (file : Option ℕ) → s.entry ≡ some file → Stuck s → Stuck (remove_cq file s)
unfolding remove_cq close_file
remove_cq-Stuck s none e v = moved-Stuck s _ refl refl refl refl (λ h. cc) v.unended v
remove_cq-Stuck s (some f) e v = record {
  reads = v.reads;
  is_open = ground (arith, v.is_open, v.forgotten);
  forgotten = λ h. cc;
  opened = v.opened;
  unended = v.unended;
  blocked = v.blocked;
}

begin_loop-Stuck : (o : Option (Option ℕ)) (s : Life) → Stuck s → Stuck (begin_loop o s)
unfolding begin_loop
begin_loop-Stuck none s v = moved-Stuck s _ refl refl refl refl v.forgotten (λ h. cc) v
begin_loop-Stuck (some file) s v =
    let u = waiter-Stuck s v in
    moved-Stuck (start_event_waiter s) _ refl refl refl refl u.forgotten (λ h. cc) u

-- Another waiter goes to its read.
park-Stuck : (s : Life) (f : ℕ) → Stuck s → Stuck (park f s)
unfolding park
park-Stuck s f v = record {
  reads = ground (arith, lookup-insert f 0 true s.watches, v.reads);
  is_open = v.is_open;
  forgotten = v.forgotten;
  opened = v.opened;
  unended = v.unended;
  blocked = v.blocked;
}

exit-Stuck : (s : Life) (f : ℕ) → (f == 0) ≡ false → Stuck s → Stuck (exit f s)
unfolding exit
exit-Stuck s f n v = record {
  reads = lookup-delete_ne f 0 s.watches n ∙ v.reads;
  is_open = v.is_open;
  forgotten = v.forgotten;
  opened = v.opened;
  unended = v.unended;
  blocked = v.blocked;
}

-- The waiter that is in its read on an open file neither stops nor is unblocked.
not_stopped : (s : Life) (f : ℕ) → lookup f s.watches ≡ some false → Stuck s → (f == 0) ≡ false
not_stopped s f h v = elim (Bool-cases (f == 0)) [
  | inl e ↦
      let z : f ≡ 0 = ground arith in
      absurd (on_off (sym v.reads ∙ ap (λ k. lookup k s.watches) (sym z) ∙ h))
  | inr n ↦ n
]

not_unblocked : (s : Life) (f : ℕ) → elem f s.shut ≡ true → Stuck s → (f == 0) ≡ false
not_unblocked s f h v = elim (Bool-cases (f == 0)) [
  | inl e ↦
      let z : f ≡ 0 = ground arith in
      absurd (not_both (sym h ∙ ap (λ k. elem k s.shut) z ∙ v.is_open))
  | inr n ↦ n
]

added-Stuck :
    (b : Bool) (s : Life)
    → Stuck s
    → Stuck (if b then start_event_waiter s else record s { entry = some none })
added-Stuck true s v = waiter-Stuck s v
added-Stuck false s v = moved-Stuck s _ refl refl refl refl (λ h. cc) v.unended v

Step-Stuck : {s t : Life} → Step false s t → Stuck s → Stuck t
unfolding start add_cq leave_loop end_loop lookup
Step-Stuck (starts s e) v = moved-Stuck s _ refl refl refl refl v.forgotten (λ h. cc) v
Step-Stuck (adds s e) v = added-Stuck s.started s v
Step-Stuck (removes s file e) v = remove_cq-Stuck s file e v
Step-Stuck (begins s e) v = begin_loop-Stuck s.entry s v
Step-Stuck (parks s f e) v = park-Stuck s f v
Step-Stuck (stops s f e h) v = exit-Stuck s f (not_stopped s f e v) v
Step-Stuck (unblocks s f e h) v = exit-Stuck s f (not_unblocked s f h v) v
Step-Stuck (leaves s e c) v = moved-Stuck s _ refl refl refl refl v.forgotten (λ h. cc) v
Step-Stuck (ends s e w) v = absurd (none_true (sym (ap (lookup 0) w) ∙ v.reads))
Step-Stuck (closes s e) v = absurd (apart (sym e ∙ v.blocked))
Step-Stuck (returns s e h) v = absurd (v.unended h)

Reach-Stuck : {s t : Life} → Reach false s t → Stuck s → Stuck t
Reach-Stuck here v = v
Reach-Stuck (later r x) v = Step-Stuck x (Reach-Stuck r v)

-- Start, AddCQ, the beginning of the loop, both waiters in their reads, Close.
abbrev s1 : Life
s1 = start init

abbrev s2 : Life
s2 = add_cq s1

abbrev s3 : Life
s3 = begin_loop s2.entry s2

abbrev s4 : Life
s4 = park 1 (park 0 s3)

-- Start, AddCQ, the beginning of the poll loop and two waiters that go to their reads can leave one
-- queue, no file of which was closed and for which Close was not called yet, with two waiters in
-- their reads and with only the file of the second in its entry. A Close that comes then does not
-- return, whatever else happens, until a completion event comes.
pub close-hangs :
    (s : Life) × Reach true init s
    × (s.started ≡ true)
    × (s.loop ≡ looping)
    × (s.closer ≡ unclosed)
    × (s.entry ≡ some (some 1))
    × (lookup 0 s.watches ≡ some true)
    × (lookup 1 s.watches ≡ some true)
    × (s.shut ≡ [])
    × ((t : Life) → Reach false (close s) t → t.closer ≡ awaiting)
unfolding start add_cq start_event_waiter begin_loop park close close_entry close_file insert lookup
close-hangs = (
  s4,
  later
      (later (later (later (later here (starts init refl)) (adds s1 refl)) (begins s2 refl))
        (parks s3 0 refl))
      (parks (park 0 s3) 1 refl),
  refl,
  refl,
  refl,
  refl,
  refl,
  refl,
  refl,
  λ t r. (Reach-Stuck r stuck).blocked,
)
  where
    stuck : Stuck (close s4)
    stuck = record {
      reads = refl;
      is_open = refl;
      forgotten = λ h. cc;
      opened = omega arith;
      unended = λ h. cc;
      blocked = refl;
    }
