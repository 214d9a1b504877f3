-- ===== src/Outcome/Keeps.antt =====
-- Facts of the world that a call keeps, whether it returns or raises, a rule for each way to build
-- a call.
use mlops_templates.Prelude.{◌≡◌, refl, Bool, true, false, if◌then◌else◌}
use mlops_templates.Outcome.{
  Exn, Result, ok, err, Exec, pure, raise, lift, handle, rescue, act, continue, ◌>>=◌, ◌>>◌, world,
}

pub record Keeps {W A : Type 0} (Q : W → Type 0) (m : Exec W A) : Type 0 where
  pub at : (w : W) → Q w → Q (world (m w))

module _ {W A : Type 0} {Q : W → Type 0} where
  pub Keeps-pure : (a : A) → Keeps Q (pure a)
  Keeps-pure a = record { at = λ w q. q }

  pub Keeps-raise : (exn : Exn) → Keeps {A = A} Q (raise exn)
  Keeps-raise exn = record { at = λ w q. q }

  pub Keeps-lift : (r : Result A) → Keeps Q (lift r)
  Keeps-lift r = record { at = λ w q. q }

  pub Keeps-if : (b : Bool) (m n : Exec W A) → Keeps Q m → Keeps Q n → Keeps Q (if b then m else n)
  Keeps-if true m n km kn = km
  Keeps-if false m n km kn = kn

  handled :
      (handler : Exn → Exec W A) (o : Result A × W)
      → ((exn : Exn) → Keeps Q (handler exn))
      → Q (world o)
      → Q (world (handle handler o))
  handled handler (ok a, w) kh q = q
  handled handler (err exn, w) kh q = (kh exn).at w q

  pub Keeps-rescue :
      (m : Exec W A) (handler : Exn → Exec W A)
      → Keeps Q m
      → ((exn : Exn) → Keeps Q (handler exn))
      → Keeps Q (rescue m handler)
  Keeps-rescue m handler km kh = record { at = λ w q. handled handler (m w) kh (km.at w q) }

module _ {W : Type 0} {Q : W → Type 0} where
  pub Keeps-act : (f : W → W) → ((w : W) → Q w → Q (f w)) → Keeps Q (act f)
  Keeps-act f kf = record { at = kf }

module _ {W A B : Type 0} {Q : W → Type 0} where
  continued :
      (f : A → Exec W B) (o : Result A × W)
      → ((a : A) → Keeps Q (f a))
      → Q (world o)
      → Q (world (continue f o))
  continued f (ok a, w) kf q = (kf a).at w q
  continued f (err exn, w) kf q = q

  pub Keeps-bind :
      (m : Exec W A) (f : A → Exec W B) → Keeps Q m → ((a : A) → Keeps Q (f a)) → Keeps Q (m >>= f)
  Keeps-bind m f km kf = record { at = λ w q. continued f (m w) kf (km.at w q) }

  -- The rest may use that the check passed.
  pub Keeps-bind_lift :
      (r : Result A) (f : A → Exec W B)
      → ((a : A) → r ≡ ok a → Keeps Q (f a))
      → Keeps Q (lift r >>= f)
  Keeps-bind_lift (ok a) f kf = record { at = λ w q. (kf a refl).at w q }
  Keeps-bind_lift (err exn) f kf = record { at = λ w q. q }

module _ {W B : Type 0} {Q : W → Type 0} where
  pub Keeps-then : (m : Exec W (Unit {0})) (n : Exec W B) → Keeps Q m → Keeps Q n → Keeps Q (m >> n)
  Keeps-then m n km kn = Keeps-bind m (λ _. n) km (λ _. kn)

pub ruleset keeps_rules =
    (Keeps-pure, Keeps-raise, Keeps-lift, Keeps-if, Keeps-rescue, Keeps-bind, Keeps-then)
