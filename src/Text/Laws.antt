-- ===== src/Text/Laws.antt =====
-- Laws of the text operations.
use mathlib.Core.Option.{some-injective}
use mlops_templates.Prelude.{
  ℕ, ◌≡◌, refl, ◌↔◌, Bool, true, [], ◌∷◌, ◌++◌, arith, ap, subst, inl, inr, Bool-cases, some, ◌==◌,
  ==_iff, sym, all,
}
use mlops_templates.Text.{
  Text, str_eq, is_empty, lower, lower_char, drop_while, drop_end_while, ends_with, strip_prefix,
}

pub str_eq_refl : (s : Text) → str_eq s s ≡ true
unfolding str_eq
str_eq_refl [] = refl
str_eq_refl (c ∷ s) = ground (arith, str_eq_refl s)

pub str_eq→eq : (s t : Text) → str_eq s t ≡ true → s ≡ t
unfolding str_eq
str_eq→eq [] [] h = refl
str_eq→eq [] (d ∷ t) h = cc
str_eq→eq (c ∷ s) [] h = cc
str_eq→eq (c ∷ s) (d ∷ t) h = ground (arith, str_eq→eq s t)

-- The test is equality.
pub str_eq_iff : (s t : Text) → (str_eq s t ≡ true) ↔ (s ≡ t)
str_eq_iff s t = (str_eq→eq s t, λ e. subst (λ u. str_eq s u ≡ true) e (str_eq_refl s))

pub lower-append : (s t : Text) → lower (s ++ t) ≡ lower s ++ lower t
unfolding lower
lower-append [] t = refl
lower-append (c ∷ s) t = ap (λ x. lower_char c ∷ x) (lower-append s t)

pub ends_with_self : (s : Text) → ends_with s s ≡ true
unfolding ends_with
ends_with_self [] = refl
ends_with_self (c ∷ s) = rw (str_eq_refl (c ∷ s))

pub ends_with-append : (s t : Text) → ends_with t (s ++ t) ≡ true
unfolding ends_with
ends_with-append [] t = ends_with_self t
ends_with-append (c ∷ s) t = ground (arith, ends_with-append s t)

pub strip_prefix-eq-some :
    (prefix s rest : Text) → strip_prefix prefix s ≡ some rest → s ≡ prefix ++ rest
unfolding strip_prefix
strip_prefix-eq-some [] s rest e = some-injective s rest e
strip_prefix-eq-some (p ∷ prefix) [] rest e = absurd (ground arith)
strip_prefix-eq-some (p ∷ prefix) (c ∷ s) rest e = elim (Bool-cases (p == c)) [
  | inl h ↦
      rw (sym ((==_iff p c).0 h)) (ap (λ x. p ∷ x) (strip_prefix-eq-some prefix s rest (rw h at e)))
  | inr h ↦ absurd (ground arith)
]

pub str_eq_comm : (s t : Text) → str_eq s t ≡ str_eq t s
unfolding str_eq
str_eq_comm [] [] = refl
str_eq_comm [] (d ∷ t) = refl
str_eq_comm (c ∷ s) [] = refl
str_eq_comm (c ∷ s) (d ∷ t) = ground (arith, str_eq_comm s t)

module _ (p : ℕ → Bool) where
  pub all-drop_while : (q : ℕ → Bool) (s : Text) → all p s ≡ true → all p (drop_while q s) ≡ true
  unfolding drop_while
  all-drop_while q [] h = refl
  all-drop_while q (c ∷ s) h = ground (arith, all-drop_while q s)

  pub all-drop_end_while :
      (q : ℕ → Bool) (s : Text) → all p s ≡ true → all p (drop_end_while q s) ≡ true
  unfolding drop_end_while
  all-drop_end_while q [] h = refl
  all-drop_end_while q (c ∷ s) h = ground (arith, all-drop_end_while q s)

pub is_empty_iff : (s : Text) → (is_empty s ≡ true) ↔ (s ≡ [])
is_empty_iff [] = (λ h. refl, λ h. refl)
is_empty_iff (c ∷ s) = (λ h. absurd (ground arith), λ h. absurd (ground arith))
