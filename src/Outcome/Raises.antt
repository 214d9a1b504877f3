-- ===== src/Outcome/Raises.antt =====
-- Calls that raise no other exceptions than some, a rule for each way to build one.
use mlops_templates.Prelude.{Bool, true, false, if◌then◌else◌}
use mlops_templates.Outcome.{
  Exn, Result, ok, err, Exec, pure, rescue, handle, act, continue, ◌>>=◌, ◌>>◌,
}

module _ (E : Exn → Type 0) where
  abbrev pub IsOnly : {W A : Type 0} → Result A × W → Type 0
  IsOnly (ok a, w) = Unit
  IsOnly (err exn, w) = E exn

  pub record RaisesOnly {W A : Type 0} (m : Exec W A) : Type 0 where
    pub at : (w : W) → IsOnly (m w)

module _ {E : Exn → Type 0} {W A : Type 0} where
  pub RaisesOnly-pure : (a : A) → RaisesOnly E {W = W} (pure a)
  RaisesOnly-pure a = record { at = λ w. tt }

  pub RaisesOnly-if :
      (b : Bool) (m n : Exec W A)
      → RaisesOnly E m
      → RaisesOnly E n
      → RaisesOnly E (if b then m else n)
  RaisesOnly-if true m n rm rn = rm
  RaisesOnly-if false m n rm rn = rn

  handled-IsOnly :
      (handler : Exn → Exec W A) (o : Result A × W)
      → ((exn : Exn) → RaisesOnly E (handler exn))
      → IsOnly E (handle handler o)
  handled-IsOnly handler (ok a, w) rh = tt
  handled-IsOnly handler (err exn, w) rh = (rh exn).at w

  -- Where the handler raises nothing else, whatever the call does.
  pub RaisesOnly-rescue :
      (m : Exec W A) (handler : Exn → Exec W A)
      → ((exn : Exn) → RaisesOnly E (handler exn))
      → RaisesOnly E (rescue m handler)
  RaisesOnly-rescue m handler rh = record { at = λ w. handled-IsOnly handler (m w) rh }

pub RaisesOnly-act : {E : Exn → Type 0} {W : Type 0} (f : W → W) → RaisesOnly E (act f)
RaisesOnly-act f = record { at = λ w. tt }

module _ {E : Exn → Type 0} {W A B : Type 0} where
  continued-IsOnly :
      (f : A → Exec W B) (o : Result A × W)
      → IsOnly E o
      → ((a : A) → RaisesOnly E (f a))
      → IsOnly E (continue f o)
  continued-IsOnly f (ok a, w) h rf = (rf a).at w
  continued-IsOnly f (err exn, w) h rf = h

  pub RaisesOnly-bind :
      (m : Exec W A) (f : A → Exec W B)
      → RaisesOnly E m
      → ((a : A) → RaisesOnly E (f a))
      → RaisesOnly E (m >>= f)
  RaisesOnly-bind m f rm rf = record { at = λ w. continued-IsOnly f (m w) (rm.at w) rf }

pub RaisesOnly-then :
    {E : Exn → Type 0} {W B : Type 0} (m : Exec W (Unit {0})) (n : Exec W B)
    → RaisesOnly E m
    → RaisesOnly E n
    → RaisesOnly E (m >> n)
RaisesOnly-then m n rm rn = RaisesOnly-bind m (λ _. n) rm (λ _. rn)
