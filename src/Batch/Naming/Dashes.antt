-- ===== src/Batch/Naming/Dashes.antt =====
-- Runs of dashes, and texts without two dashes in a row.
use mlops_templates.Prelude.{
  ℕ, zero, suc, ◌≤◌, ◌≡◌, refl, Bool, true, false, not, ◌&&◌, [], ◌∷◌, ◌++◌, arith, if◌then◌else◌,
  length, take, all,
}
use mlops_templates.Text.{Text, is_empty, drop_end_while}
use mlops_templates.Batch.Naming.{is_dash, is_safe_char, dash_runs}

-- No two dashes in a row; `before` says that the character before is a dash.
abbrev pub no_double_dash : Bool → Text → Bool
no_double_dash before [] = true
no_double_dash before (c ∷ s) = not (before && is_dash c) && no_double_dash (is_dash c) s

abbrev pub ends_in_dash : Text → Bool
ends_in_dash [] = false
ends_in_dash (c ∷ s) = if is_empty s then is_dash c else ends_in_dash s

pub dash-safe : is_safe_char b'-' ≡ true
unfolding is_safe_char
dash-safe = refl

pub safe-dash_runs :
    (b : Bool) (s : Text) → all is_safe_char (dash_runs (λ c. not (is_safe_char c)) b s) ≡ true
unfolding dash_runs
safe-dash_runs b [] = refl
safe-dash_runs b (c ∷ s) = ground (arith, dash-safe, safe-dash_runs (not (is_safe_char c)) s)

pub all-dash_runs :
    (b : Bool) (s : Text)
    → all is_safe_char s ≡ true
    → all is_safe_char (dash_runs is_dash b s) ≡ true
unfolding dash_runs
all-dash_runs b [] h = refl
all-dash_runs b (c ∷ s) h = ground (arith, dash-safe, all-dash_runs (is_dash c) s)

pub no_double-dash_runs : (b : Bool) (s : Text) → no_double_dash b (dash_runs is_dash b s) ≡ true
unfolding dash_runs
no_double-dash_runs b [] = refl
no_double-dash_runs b (c ∷ s) = ground (arith, no_double-dash_runs (is_dash c) s)

pub filled-dash_runs :
    (b : Bool) (s : Text)
    → is_empty s ≡ false
    → ends_in_dash s ≡ false
    → is_empty (dash_runs is_dash b s) ≡ false
unfolding dash_runs
filled-dash_runs b [] h e = h
filled-dash_runs b (c ∷ s) h e = ground (arith, filled-dash_runs (is_dash c) s)

pub ends-dash_runs :
    (b : Bool) (s : Text) → ends_in_dash s ≡ false → ends_in_dash (dash_runs is_dash b s) ≡ false
unfolding dash_runs
ends-dash_runs b [] e = refl
ends-dash_runs b (c ∷ []) e = ground arith
ends-dash_runs b (c ∷ d ∷ s) e =
    ground
      (arith, ends-dash_runs (is_dash c) (d ∷ s) e, filled-dash_runs (is_dash c) (d ∷ s) refl e)

pub ends-drop_end_while : (s : Text) → ends_in_dash (drop_end_while is_dash s) ≡ false
unfolding drop_end_while
ends-drop_end_while [] = refl
ends-drop_end_while (c ∷ s) = ground (arith, ends-drop_end_while s)

pub no_double-drop_end_while :
    (b : Bool) (s : Text)
    → no_double_dash b s ≡ true
    → no_double_dash b (drop_end_while is_dash s) ≡ true
unfolding drop_end_while
no_double-drop_end_while b [] h = refl
no_double-drop_end_while b (c ∷ s) h = ground (arith, no_double-drop_end_while (is_dash c) s)

pub no_double-take :
    (b : Bool) (n : ℕ) (s : Text) → no_double_dash b s ≡ true → no_double_dash b (take n s) ≡ true
no_double-take b zero s h = refl
no_double-take b (suc n) [] h = refl
no_double-take b (suc n) (c ∷ s) h = ground (arith, no_double-take (is_dash c) n s)

pub length-drop_end_while : (q : ℕ → Bool) (s : Text) → length (drop_end_while q s) ≤ length s
unfolding drop_end_while
length-drop_end_while q [] = omega arith
length-drop_end_while q (c ∷ s) = ground (arith, length-drop_end_while q s)

-- A safe name goes on with a dash and characters that are no dashes.
pub no_double-append :
    (b : Bool) (s t : Text)
    → no_double_dash b s ≡ true
    → (is_empty s ≡ true → b ≡ false)
    → ends_in_dash s ≡ false
    → no_double_dash true t ≡ true
    → no_double_dash b (s ++ (b'-' ∷ t)) ≡ true
no_double-append b [] t h f e k = ground arith
no_double-append b (c ∷ []) t h f e k = ground arith
no_double-append b (c ∷ d ∷ s) t h f e k = ground (arith, no_double-append (is_dash c) (d ∷ s) t)
