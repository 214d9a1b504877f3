-- ===== src/Outcome/Laws.antt =====
-- Inversion of successful runs.
use mlops_templates.Prelude.{◌≡◌, refl, Bool, true, false, arith, if◌then◌else◌}
use mlops_templates.Outcome.{
  Exn, Result, ok, err, raise_if, Exec, world, continue, lift, handle, raise, pure,
}
use mlops_templates.Outcome.Pure.{◌>>=◌}

pub ok-injective {ℓ} : {A : Type ℓ} {a b : A} → ◌≡◌ {A = Result A} (ok a) (ok b) → a ≡ b
ok-injective e = cc e

-- A guard that let the run go on found its test false.
pub raise_if-eq-ok : (b : Bool) (exn : Exn) (u : Unit {0}) → raise_if b exn ≡ ok u → b ≡ false
raise_if-eq-ok true exn u h = cc
raise_if-eq-ok false exn u h = refl

module _ {ℓ κ} {Found : Type ℓ} {Next : Type κ} where
  -- A sequence succeeds only where both parts do.
  pub bind-eq-ok :
      (first : Result Found) (next : Found → Result Next) {last : Next}
      → (first >>= next) ≡ ok last
      → (found : Found) × (first ≡ ok found) × (next found ≡ ok last)
  bind-eq-ok (err exn) next e = cc
  bind-eq-ok (ok found) next e = (found, refl, e)

module _ {W A B : Type 0} (Q : W → Type 0) (f : A → Exec W B) where
  -- A fact of the world that the second part keeps is kept by the sequence.
  pub world-continue :
      (o : Result A × W)
      → ((a : A) (w : W) → Q w → Q (world (f a w)))
      → Q (world o)
      → Q (world (continue f o))
  world-continue (ok a, w) keep q = keep a w q
  world-continue (err exn, w) keep q = q

module _ {W A B : Type 0} (f : A → Exec W B) where
  pub continue-eq-ok :
      (o : Result A × W) {b : B} {v : W}
      → continue f o ≡ (ok b, v)
      → (a : A) × (w : W) × (o ≡ (ok a, w)) × (f a w ≡ (ok b, v))
  continue-eq-ok (ok a, w) e = (a, w, refl, e)
  continue-eq-ok (err exn, w) {b} {v} e = absurd (ground arith)

module _ {W A B : Type 0} (f : A → Exec W B) {b : B} {v : W} where
  -- A check that touches nothing hands the world on.
  pub lift-continue :
      (r : Result A) (w : W)
      → continue f (lift r w) ≡ (ok b, v)
      → (a : A) × (r ≡ ok a) × (f a w ≡ (ok b, v))
  lift-continue (ok a) w e = (a, refl, e)
  lift-continue (err exn) w e = absurd (ground arith)

  -- A call whose exceptions are all replaced by one has not raised where the run went on.
  pub rescue-continue :
      (exn : Exn) (o : Result A × W)
      → continue f (handle (λ caught. raise exn) o) ≡ (ok b, v)
      → (a : A) × (w : W) × (o ≡ (ok a, w)) × (f a w ≡ (ok b, v))
  rescue-continue exn (ok a, w) e = (a, w, refl, e)
  rescue-continue exn (err caught, w) e = absurd (ground arith)

module _ {W A : Type 0} {a : A} {u : W} where
  pub if_raise-eq-ok :
      (b : Bool) (exn : Exn) (m : Exec W A) (w : W)
      → (if b then raise exn else m) w ≡ (ok a, u)
      → (b ≡ false) × (m w ≡ (ok a, u))
  if_raise-eq-ok true exn m w e = absurd (ground arith)
  if_raise-eq-ok false exn m w e = (refl, e)

  pub lift-eq-ok : (r : Result A) (w : W) → lift r w ≡ (ok a, u) → (r ≡ ok a) × (w ≡ u)
  lift-eq-ok r w e = (ground arith, ground arith)

  pub pure-eq-ok : (x : A) (w : W) → pure x w ≡ (ok a, u) → (x ≡ a) × (w ≡ u)
  pure-eq-ok x w e = (ground arith, ground arith)
