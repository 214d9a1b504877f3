-- ===== src/Batch/Reference/Matching.antt =====
-- Two ways in which `_environment_matches` accepts an ID, and the ends of the texts that it strips.
use mlops_templates.Prelude.{
  ℕ, ◌≡◌, refl, Bool, true, false, not, some, [], ◌∷◌, ◌++◌, arith, all, Bool-cases, inl, inr, ◌==◌,
  ==_iff,
}
use mlops_templates.Text.{Text, str, str_eq, is_empty, is_digit, lower, ends_with, drop_end_while}
use mlops_templates.Text.Laws.{str_eq_iff, lower-append, ends_with_self}
use mlops_templates.Pattern.{ignoring_case, fullmatch}
use mlops_templates.Batch.Reference.{
  environment_matches, rstrip_slash, registry_suffix, suffix_of_uri,
}
use mlops_templates.Batch.Reference.Parsing.{IsRun, full_id_text}
use mlops_templates.Batch.Reference.Patterns.{registry_uri}

slash_not_digit : is_digit b'/' ≡ false
unfolding is_digit
slash_not_digit = refl

digit_not_slash : (c : ℕ) → is_digit c ≡ true → (c == b'/') ≡ false
digit_not_slash c h = ground (arith, slash_not_digit, (==_iff c b'/').0)

module _ (p : ℕ → Bool) where
  drop_end_while_self : (s : Text) → all (λ c. not (p c)) s ≡ true → drop_end_while p s ≡ s
  unfolding drop_end_while
  drop_end_while_self [] h = refl
  drop_end_while_self (c ∷ s) h = ground (arith, drop_end_while_self s)

  is_empty-append : (s t : Text) → is_empty t ≡ false → is_empty (s ++ t) ≡ false
  is_empty-append [] t h = h
  is_empty-append (c ∷ s) t h = refl

  drop_end_while-append :
      (s t : Text)
      → drop_end_while p t ≡ t
      → is_empty t ≡ false
      → drop_end_while p (s ++ t) ≡ s ++ t
  unfolding drop_end_while
  drop_end_while-append [] t e h = e
  drop_end_while-append (c ∷ s) t e h =
      ground (arith, drop_end_while-append s t e h, is_empty-append s t h)

all-weaken :
    (p q : ℕ → Bool) (s : Text)
    → ((c : ℕ) → p c ≡ true → q c ≡ true)
    → all p s ≡ true
    → all q s ≡ true
all-weaken p q [] h e = refl
all-weaken p q (c ∷ s) h e = ground (arith, h c, all-weaken p q s h)

-- A text that ends in no slash.
pub record IsKept (s : Text) : Type 0 where
  pub kept : rstrip_slash s ≡ s
  pub filled : is_empty s ≡ false

pub version-IsKept : (v : Text) → IsRun is_digit v → IsKept v
unfolding rstrip_slash
version-IsKept v h = record {
  kept =
      drop_end_while_self (λ c. c == b'/') v
        (all-weaken is_digit (λ c. not (c == b'/')) v (λ c d. rw (digit_not_slash c d)) h.1);
  filled = h.0;
}

pub append-IsKept : (s t : Text) → IsKept t → IsKept (s ++ t)
unfolding rstrip_slash
append-IsKept s t h = record {
  kept = drop_end_while-append (λ c. c == b'/') s t h.kept h.filled;
  filled = is_empty-append (λ c. c == b'/') s t h.filled;
}

ends_with_later : (t s x : Text) → ends_with t x ≡ true → ends_with t (s ++ x) ≡ true
unfolding ends_with
ends_with_later t [] x h = h
ends_with_later t (c ∷ s) x h = ground (arith, ends_with_later t s x h)

-- Case apart, a text that ends another ends every extension of it to the left.
lower-ends_with_later :
    (t s x : Text)
    → ends_with (lower t) (lower x) ≡ true
    → ends_with (lower t) (lower (s ++ x)) ≡ true
lower-ends_with_later t s x h = rw lower-append (ends_with_later (lower t) (lower s) (lower x) h)

pub matches_by_suffix :
    (requested actual suffix : Text)
    → rstrip_slash requested ≡ requested
    → rstrip_slash actual ≡ actual
    → suffix_of_uri (fullmatch ignoring_case registry_uri requested) ≡ some suffix
    → ends_with (lower suffix) (lower actual) ≡ true
    → environment_matches requested actual ≡ true
unfolding environment_matches
matches_by_suffix requested actual suffix hr ha found ends =
    rw (hr, ha, found)
      (elim (Bool-cases (str_eq (lower requested) (lower actual))) [
        | inl same ↦ rw same
        | inr differ ↦ rw differ ends
      ])

pub matches_by_equality :
    (requested actual : Text)
    → rstrip_slash requested ≡ requested
    → rstrip_slash actual ≡ actual
    → lower requested ≡ lower actual
    → environment_matches requested actual ≡ true
unfolding environment_matches
matches_by_equality requested actual hr ha same =
    rw (hr, ha, (str_eq_iff (lower requested) (lower actual)).1 same)

module _ (s g r e v : Text) where
  pub full-IsKept : IsRun is_digit v → IsKept (full_id_text s g r e v)
  full-IsKept hv = append-IsKept (str "/subscriptions/") _ (
      append-IsKept s _ (
        append-IsKept (str "/resourceGroups/") _ (
          append-IsKept g _ (
            append-IsKept (str "/providers/Microsoft.MachineLearningServices/registries/") _ (
              append-IsKept r _ (
                append-IsKept (str "/environments/") _ (
                  append-IsKept e _
                    (append-IsKept (str "/versions/") v (version-IsKept v hv)))))))))

  pub suffix-ends :
      ends_with (lower (registry_suffix r e v)) (lower (full_id_text s g r e v)) ≡ true
  suffix-ends =
      let t = registry_suffix r e v in
      lower-ends_with_later t (str "/subscriptions/") _ (
        lower-ends_with_later t s _ (
          lower-ends_with_later t (str "/resourceGroups/") _ (
            lower-ends_with_later t g _ (
              lower-ends_with_later t (str "/providers/Microsoft.MachineLearningServices") _
                (ends_with_self (lower t))))))
