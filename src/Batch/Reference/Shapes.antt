-- ===== src/Batch/Reference/Shapes.antt =====
-- The shape of a text that `_parse_registry_environment_reference` parses, case apart.
use mathlib.Core.List.{append-nil}
use mathlib.Core.Option.{some-injective}
use mlops_templates.Prelude.{
  ℕ, ◌≡◌, ◌⊎◌, refl, ap, sym, subst, ◌∙◌, Bool, Option, none, some, List, [], ◌∷◌, ◌++◌, arith, inl,
  inr, ==_iff,
}
use mlops_templates.Text.{Text, lower, lower_char, is_digit}
use mlops_templates.Text.Laws.{lower-append}
use mlops_templates.Pattern.{Piece, lit, run, ignoring_case, fullmatch}
use mlops_templates.Pattern.Decides.{Stands, Matches, end, literal, captured, fullmatch_sound}
use mlops_templates.Batch.Reference.{
  RegistryReference, from_uri_groups, from_full_groups, or_else,
  parse_registry_environment_reference,
}
use mlops_templates.Batch.Reference.Patterns.{is_segment_char, registry_uri, full_registry_id}
use mlops_templates.Batch.Reference.Parsing.{
  IsRun, IsWellFormed, uri_groups, full_groups, full_id_text,
}
use mlops_templates.Batch.Reference.Matching.{IsKept, append-IsKept, version-IsKept}

-- The text that a pattern has with these groups, its literals as they are spelled in it.
abbrev filled : List Piece → List Text → Text
filled [] gs = []
filled (lit t ∷ ps) gs = t ++ filled ps gs
filled (run p ∷ ps) [] = []
filled (run p ∷ ps) (g ∷ gs) = g ++ filled ps gs

pub lower-cong :
    (a b s t : Text) → lower a ≡ lower b → lower s ≡ lower t → lower (a ++ s) ≡ lower (b ++ t)
lower-cong a b s t h k =
    lower-append a s ∙ ap (λ x. x ++ lower s) h ∙ ap (λ x. lower b ++ x) k ∙ sym (lower-append b t)

Stands-lower : (t u : Text) → Stands ignoring_case t u → lower u ≡ lower t
unfolding lower ignoring_case
Stands-lower [] [] h = refl
Stands-lower [] (d ∷ u) h = absurd h
Stands-lower (c ∷ t) [] h = absurd h
Stands-lower (c ∷ t) (d ∷ u) h =
    ap (λ x. x ∷ lower u) (sym ((==_iff (lower_char c) (lower_char d)).0 h.0))
    ∙ ap (λ x. lower_char c ∷ x) (Stands-lower t u h.1)

-- Case apart, a text that matches is the pattern, filled with the groups.
Matches-lower :
    {ps : List Piece} {s : Text} {gs : List Text}
    → Matches ignoring_case ps s gs
    → lower s ≡ lower (filled ps gs)
Matches-lower end = refl
Matches-lower (literal u rest e st m) =
    ap lower e ∙ lower-cong u _ rest _ (Stands-lower _ u st) (Matches-lower m)
Matches-lower (captured c g rest e h m) =
    ap lower e ∙ lower-cong (c ∷ g) (c ∷ g) rest _ refl (Matches-lower m)

-- The last piece is a run of digits.
abbrev EndsInDigits : List Piece → Type 0
EndsInDigits [] = ⊥
EndsInDigits (lit t ∷ ps) = EndsInDigits ps
EndsInDigits (run p ∷ []) = p ≡ is_digit
EndsInDigits (run p ∷ q ∷ ps) = EndsInDigits (q ∷ ps)

run-IsKept :
    (p : ℕ → Bool) (ps : List Piece) {gs : List Text} (c : ℕ) (g rest : Text)
    → IsRun p (c ∷ g)
    → Matches ignoring_case ps rest gs
    → EndsInDigits (run p ∷ ps)
    → (EndsInDigits ps → IsKept rest)
    → IsKept ((c ∷ g) ++ rest)
run-IsKept p [] c g _ h end d k = append-IsKept [] _ (
    subst IsKept (sym (append-nil (c ∷ g)))
      (version-IsKept (c ∷ g) (subst (λ q. IsRun q (c ∷ g)) d h)))
run-IsKept p (q ∷ ps) c g rest h m d k = append-IsKept (c ∷ g) rest (k d)

Matches-IsKept :
    {ps : List Piece} {s : Text} {gs : List Text}
    → Matches ignoring_case ps s gs
    → EndsInDigits ps
    → IsKept s
Matches-IsKept end d = absurd d
Matches-IsKept (literal u rest e st m) d =
    subst IsKept (sym e) (append-IsKept u rest (Matches-IsKept m d))
Matches-IsKept (captured c g rest e h m) d =
    subst IsKept (sym e) (run-IsKept _ _ c g rest (refl, h) m d (Matches-IsKept m))

-- The URI form, by what the pattern gives.
pub record IsUriForm (s : Text) (ref : RegistryReference) : Type 0 where
  pub kept : IsKept s
  pub groups :
      fullmatch ignoring_case registry_uri s
      ≡ some (ref.registry_name ∷ ref.environment_name ∷ ref.version ∷ [])
  pub formed : IsWellFormed ref
  pub unscoped : ref.subscription_id ≡ none

-- A full resource ID, case apart.
pub record IsFullForm (s : Text) (ref : RegistryReference) : Type 0 where
  pub kept : IsKept s
  pub subscription : Text
  pub group : Text
  pub subscription_is : ref.subscription_id ≡ some subscription
  pub group_is : ref.resource_group ≡ some group
  pub some_subscription : IsRun is_segment_char subscription
  pub spelled :
      lower s
      ≡ lower (full_id_text subscription group ref.registry_name ref.environment_name ref.version)
  pub formed : IsWellFormed ref

uri-IsUriForm :
    (s : Text) (gs : Option (List Text)) {ref : RegistryReference}
    → fullmatch ignoring_case registry_uri s ≡ gs
    → from_uri_groups gs ≡ some ref
    → IsUriForm s ref
uri-IsUriForm s none m e = absurd (ground arith)
uri-IsUriForm s (some gs) {ref} m e =
    let matched = fullmatch_sound ignoring_case registry_uri s gs m in
    let (r, n, v, split, hr, hn, hv) = uri_groups matched in
    subst (IsUriForm s) (some-injective _ _ (rw split at e)) (record {
      kept = Matches-IsKept matched refl;
      groups = m ∙ ap some split;
      formed = (hr, hn, hv);
      unscoped = refl;
    })

full-IsFullForm :
    (s : Text) (gs : Option (List Text)) {ref : RegistryReference}
    → fullmatch ignoring_case full_registry_id s ≡ gs
    → from_full_groups gs ≡ some ref
    → IsFullForm s ref
full-IsFullForm s none m e = absurd (ground arith)
full-IsFullForm s (some gs) {ref} m e =
    let matched = fullmatch_sound ignoring_case full_registry_id s gs m in
    let (a, b, r, n, v, split, ha, hr, hn, hv) = full_groups matched in
    subst (IsFullForm s) (some-injective _ _ (rw split at e)) (record {
      kept = Matches-IsKept matched refl;
      subscription = a;
      group = b;
      subscription_is = refl;
      group_is = refl;
      some_subscription = ha;
      spelled =
          Matches-lower matched
          ∙ ap (λ x. lower (filled full_registry_id x)) split
          ∙ ap (λ x. lower (full_id_text a b r n x)) (append-nil v);
      formed = (hr, hn, hv);
    })

or_else-shape :
    (s : Text) (a b : Option RegistryReference) {ref : RegistryReference}
    → ((x : RegistryReference) → a ≡ some x → IsUriForm s x)
    → ((x : RegistryReference) → b ≡ some x → IsFullForm s x)
    → or_else a b ≡ some ref
    → IsUriForm s ref ⊎ IsFullForm s ref
or_else-shape s none b ha hb e = inr (hb _ e)
or_else-shape s (some x) b ha hb e = inl (ha _ e)

-- What is parsed is a registry URI or a full resource ID.
pub parse-shape :
    (s : Text) {ref : RegistryReference}
    → parse_registry_environment_reference s ≡ some ref
    → IsUriForm s ref ⊎ IsFullForm s ref
unfolding parse_registry_environment_reference
parse-shape s e =
    or_else-shape s (from_uri_groups (fullmatch ignoring_case registry_uri s))
      (from_full_groups (fullmatch ignoring_case full_registry_id s))
      (λ x h. uri-IsUriForm s _ refl h) (λ x h. full-IsFullForm s _ refl h) e
