-- ===== src/Go/Chan.antt =====
-- A buffered Go channel. `pkg/` uses it only through non-blocking sends and through receives in a
-- `select`.
use golinker.Base.{ℕ, ◌≤◌, Bool, true, false, List, [], ◌∷◌, ◌++◌, ltb, if◌then◌else◌, length}
use golinker.Errors.{Result, ok, panic}

pub record Chan {ℓ} (A : Type ℓ) : Type ℓ where
  pub items : List A
  pub cap : ℕ
  pub is_closed : Bool

-- What a receive sees: a value, nothing yet, or a closed and drained channel.
pub data Received {ℓ} (A : Type ℓ) : Type ℓ where
  value : A → Received A
  blocked : Received A
  drained : Received A

module _ {ℓ} {A : Type ℓ} where
  abbrev pub make : ℕ → Chan A
  make n = record { items = []; cap = n; is_closed = false }

  -- `select { case c <- a: default: }`. A send on a closed channel panics; the flag says whether
  -- the value was taken.
  unfoldable pub try_send : Chan A → A → Result (Bool × Chan A)
  try_send c a =
      if c.is_closed
      then panic
      else if ltb (length c.items) c.cap
      then ok (true, record c { items = c.items ++ a ∷ [] })
      else ok (false, c)

  received : List A → Chan A → Received A × Chan A
  received [] c = (if c.is_closed then drained else blocked, c)
  received (a ∷ rest) c = (value a, record c { items = rest })

  -- The receive case of a `select`.
  unfoldable pub receive : Chan A → Received A × Chan A
  unfolding received
  receive c = received c.items c

  -- `close(c)`; closing twice panics.
  unfoldable pub close : Chan A → Result (Chan A)
  close c = if c.is_closed then panic else ok (record c { is_closed = true })

  abbrev pub Fits : Chan A → Type 0
  Fits c = length c.items ≤ c.cap
