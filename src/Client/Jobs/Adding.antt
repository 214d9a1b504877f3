-- ===== src/Client/Jobs/Adding.antt =====
-- Calls that add at most so many characters to what is printed, a rule for each way to build one.
use mlops_templates.Prelude.{ℕ, ◌+◌, ◌≤◌, ◌≡◌, refl, Bool, true, false, arith, if◌then◌else◌}
use mlops_templates.Outcome.{
  Exn, Result, ok, err, Exec, world, continue, handle, rescue, pure, ◌>>=◌,
}
use mlops_templates.Client.Jobs.{branch, attempt}

-- `printed` counts the characters.
module _ {W : Type 0} (printed : W → ℕ) where
  -- A call that adds at most so many characters.
  pub record Adds {A : Type 0} (n : ℕ) (m : Exec W A) : Type 0 where
    pub at : (w : W) → printed (world (m w)) ≤ printed w + n

  pub Adds-pure : {A : Type 0} (a : A) → Adds 0 (pure a)
  Adds-pure a = record { at = λ w. omega arith }

  pub Adds-if :
      {A : Type 0} (n : ℕ) (b : Bool) (m1 m2 : Exec W A)
      → Adds n m1
      → Adds n m2
      → Adds n (if b then m1 else m2)
  Adds-if n true m1 m2 h1 h2 = h1
  Adds-if n false m1 m2 h1 h2 = h2

  -- The branches may use the test.
  pub Adds-cases :
      {A : Type 0} (n : ℕ) (b : Bool) (m1 m2 : Exec W A)
      → (b ≡ true → Adds n m1)
      → (b ≡ false → Adds n m2)
      → Adds n (if b then m1 else m2)
  Adds-cases n true m1 m2 h1 h2 = h1 refl
  Adds-cases n false m1 m2 h1 h2 = h2 refl

  continued :
      {A B : Type 0} (n : ℕ) (f : A → Exec W B) (o : Result A × W)
      → ((a : A) → Adds n (f a))
      → printed (world (continue f o)) ≤ printed (world o) + n
  continued n f (ok a, w) hf = (hf a).at w
  continued n f (err exn, w) hf = omega arith

  pub Adds-bind :
      {A B : Type 0} (n1 n2 n : ℕ) (m : Exec W A) (f : A → Exec W B)
      → n1 + n2 ≤ n
      → Adds n1 m
      → ((a : A) → Adds n2 (f a))
      → Adds n (m >>= f)
  Adds-bind n1 n2 n m f h hm hf = record {
    at = λ w. omega (arith, h, hm.at w, continued n2 f (m w) hf);
  }

  handled :
      {A : Type 0} (handler : Exn → Exec W A) (o : Result A × W)
      → ((exn : Exn) → Adds 0 (handler exn))
      → printed (world (handle handler o)) ≤ printed (world o)
  handled handler (ok a, w) h = omega arith
  handled handler (err exn, w) h = omega (arith, (h exn).at w)

  pub Adds-rescue :
      {A : Type 0} (m : Exec W A) (handler : Exn → Exec W A)
      → Adds 0 m
      → ((exn : Exn) → Adds 0 (handler exn))
      → Adds 0 (rescue m handler)
  Adds-rescue m handler hm hh = record {
    at = λ w. omega (arith, hm.at w, handled handler (m w) hh);
  }

  branched :
      {A B : Type 0} (n : ℕ) (handler : Exn → Exec W B) (next : A → Exec W B) (o : Result A × W)
      → ((exn : Exn) → Adds n (handler exn))
      → ((a : A) → Adds n (next a))
      → printed (world (branch handler next o)) ≤ printed (world o) + n
  branched n handler next (ok a, w) hh hn = (hn a).at w
  branched n handler next (err exn, w) hh hn = (hh exn).at w

  pub Adds-attempt :
      {A B : Type 0} (n : ℕ) (m : Exec W A) (handler : Exn → Exec W B) (next : A → Exec W B)
      → Adds 0 m
      → ((exn : Exn) → Adds n (handler exn))
      → ((a : A) → Adds n (next a))
      → Adds n (attempt m handler next)
  Adds-attempt n m handler next hm hh hn = record {
    at = λ w. omega (arith, hm.at w, branched n handler next (m w) hh hn);
  }

  -- One that adds none.
  pub Adds-zero : {A : Type 0} (n : ℕ) (m : Exec W A) → Adds 0 m → Adds n m
  Adds-zero n m h = record { at = λ w. omega (arith, h.at w) }
