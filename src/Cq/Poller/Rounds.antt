-- ===== src/Cq/Poller/Rounds.antt =====
-- pkg/cq/poller.go: the dispatch of a batch and its counters.
use golinker.Base.{
  ℕ, ◌+◌, ◌^◌, ◌<◌, ◌≡◌, refl, Option, some, List, [], ◌∷◌, arith, if◌then◌else◌, length, inl, inr,
  Bool-cases,
}
use golinker.Api.{WorkCompletion}
use golinker.Cq.Poller.{Poller, Device, is_success, status_error, dispatch_one, dispatch_all}
use golinker.Errors.{Error, ok}
use golinker.Go.Word.{inc64, add64}

-- How many completions of a batch have the status success, and how many another one.
abbrev pub successes : List WorkCompletion → ℕ
successes [] = 0
successes (wc ∷ wcs) = (if is_success wc.status then 1 else 0) + successes wcs

abbrev pub failures : List WorkCompletion → ℕ
failures [] = 0
failures (wc ∷ wcs) = (if is_success wc.status then 0 else 1) + failures wcs

-- The handlers come back.
pub record HandlersReturn {W : Type 0} (d : Device W) : Type 0 where
  pub on_completion :
      (h : ℕ) (wc : WorkCompletion) (w : W) → (w' : W) × (d.on_completion h wc w ≡ (ok tt, w'))
  pub on_error :
      (h : ℕ) (wc : Option WorkCompletion) (e : Error) (w : W)
      → (w' : W) × (d.on_error h wc e w ≡ (ok tt, w'))

abbrev pub counted : {W : Type 0} → Poller W → ℕ → ℕ → W → Poller W
counted p good bad w = record p {
  completions = add64 p.completions good;
  errors = add64 p.errors bad;
  world = w;
}

add64-inc64 : (n k : ℕ) → add64 (inc64 n) k ≡ add64 n (1 + k)
unfolding add64 inc64
add64-inc64 n k = omega arith

add64_zero : (n : ℕ) → n < 2 ^ 64 → add64 n 0 ≡ n
unfolding add64
add64_zero n h = omega arith

inc64_small : (n : ℕ) → inc64 n < 2 ^ 64
unfolding inc64
inc64_small n = omega arith

zero_plus : (n : ℕ) → 0 + n ≡ n
zero_plus n = omega arith

module _ {W : Type 0} (d : Device W) (return : HandlersReturn d) where
  -- One completion advances one of the two counters.
  dispatched_one :
      (h : ℕ) (wc : WorkCompletion) (p : Poller W)
      → (w' : W) × (dispatch_one d h wc p ≡ (
        ok tt,
        (if is_success wc.status
            then record p { completions = inc64 p.completions; world = w' }
            else record p { errors = inc64 p.errors; world = w' }),
      ))
  unfolding dispatch_one
  dispatched_one h wc p = elim (Bool-cases (is_success wc.status)) [
    | inl good ↦ let (w', e) = return.on_completion h wc p.world in (w', rw (good, e) refl)
    | inr bad ↦
        let (w', e) = return.on_error h (some wc) status_error p.world in (w', rw (bad, e) refl)
  ]

  -- A batch that a poll returned is dispatched whole, whatever the statuses: the result is the size
  -- of the batch, `completions` grows by the number of successes and `errors` by that of the rest,
  -- modulo 2^64, and nothing else of the poller changes.
  pub dispatch_all-counts :
      (h : ℕ) (wcs : List WorkCompletion) (p : Poller W)
      → p.completions < 2 ^ 64
      → p.errors < 2 ^ 64
      → (w' : W) × (dispatch_all d h wcs p
          ≡ (ok (length wcs), counted p (successes wcs) (failures wcs) w'))
  unfolding dispatch_all
  dispatch_all-counts h [] p c e =
      (p.world, rw (add64_zero p.completions c, add64_zero p.errors e) refl)
  dispatch_all-counts h (wc ∷ wcs) p c e =
      let (v, one) = dispatched_one h wc p in
      elim (Bool-cases (is_success wc.status)) [
        | inl good ↦
            let (w', rest) =
              dispatch_all-counts h wcs (record p { completions = inc64 p.completions; world = v })
                (inc64_small p.completions) e in
            (
              w',
              rw
                  (
                    one,
                    good,
                    rest,
                    add64-inc64 p.completions (successes wcs),
                    zero_plus (failures wcs),
                  )
                  refl,
            )
        | inr bad ↦
            let (w', rest) =
              dispatch_all-counts h wcs (record p { errors = inc64 p.errors; world = v }) c
                (inc64_small p.errors) in
            (
              w',
              rw (one, bad, rest, add64-inc64 p.errors (failures wcs), zero_plus (successes wcs))
                  refl,
            )
      ]
