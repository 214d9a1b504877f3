-- ===== src/Outcome/Pure.antt =====
-- `do` blocks of calls that may raise and touch nothing.
use mlops_templates.Outcome.{Result, ok, err}

module _ {ℓ κ} {Found : Type ℓ} {Next : Type κ} where
  infixl 5 ◌>>=◌
  abbrev pub ◌>>=◌ : Result Found → (Found → Result Next) → Result Next
  err exn >>= next = err exn
  ok found >>= next = next found

module _ {κ} {Next : Type κ} where
  infixl 5 ◌>>◌
  -- A call made for its check alone.
  abbrev pub ◌>>◌ : Result (Unit {0}) → Result Next → Result Next
  check >> next = check >>= λ done. next
