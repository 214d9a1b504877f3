-- ===== src/Batch/Reference/Immutable.antt =====
-- Which references `validate_immutable_environment_reference` accepts.
use mlops_templates.Prelude.{
  ℕ, ◌≡◌, ◌≢◌, ◌↔◌, refl, ap, Bool, true, false, Option, none, some, List, [], arith, Bool-cases,
  inl, inr, sym, ◌∙◌,
}
use mlops_templates.Text.{Text, strip}
use mlops_templates.Text.Laws.{is_empty_iff}
use mlops_templates.Outcome.{ok}
use mlops_templates.Pattern.{Piece, exact, ignoring_case, fullmatch}
use mlops_templates.Pattern.Decides.{Matches, Delimited, fullmatch_sound, fullmatch_complete}
use mlops_templates.Batch.Reference.{
  matches, is_immutable, validate_immutable_environment_reference,
}
use mlops_templates.Batch.Reference.Patterns.{
  is_name_char, registry_uri, workspace_reference, full_workspace_id, full_registry_id,
}
use mlops_templates.Batch.Reference.Parsing.{slash_apart, slash_apart_exact, Delimited-full}

-- The four forms of an immutable reference: a registry URI, a name and version of the workspace, and
-- the full resource ID of an environment of a workspace or of a registry. The full IDs are in any
-- case of letters.
pub data IsImmutable (s : Text) : Type 0 where
  uri : (gs : List Text) → Matches exact registry_uri s gs → IsImmutable s
  of_workspace : (gs : List Text) → Matches exact workspace_reference s gs → IsImmutable s
  workspace_id : (gs : List Text) → Matches ignoring_case full_workspace_id s gs → IsImmutable s
  registry_id : (gs : List Text) → Matches ignoring_case full_registry_id s gs → IsImmutable s

colon_apart : (d : ℕ) → exact b':' d ≡ true → is_name_char d ≡ false
unfolding is_name_char
colon_apart d h = ground arith

Delimited-uri_exact : Delimited exact registry_uri
Delimited-uri_exact = (slash_apart_exact, (slash_apart_exact, tt))

Delimited-workspace : Delimited exact workspace_reference
Delimited-workspace = (colon_apart, tt)

Delimited-workspace_id : Delimited ignoring_case full_workspace_id
Delimited-workspace_id = (slash_apart, (slash_apart, (slash_apart, (slash_apart, tt))))

module _ (same : ℕ → ℕ → Bool) (ps : List Piece) (s : Text) where
  found_groups :
      (o : Option (List Text))
      → fullmatch same ps s ≡ o
      → (elim o [ none ↦ false | some groups ↦ true ]) ≡ true
      → (gs : List Text) × Matches same ps s gs
  found_groups none e h = absurd (ground arith)
  found_groups (some gs) e h = (gs, fullmatch_sound same ps s gs e)

  matches-Matches : matches same ps s ≡ true → (gs : List Text) × Matches same ps s gs
  matches-Matches h = found_groups (fullmatch same ps s) refl h

  Matches-matches :
      {gs : List Text} → Delimited same ps → Matches same ps s gs → matches same ps s ≡ true
  Matches-matches d m =
      ap (λ o. elim o [ none ↦ false | some groups ↦ true ]) (fullmatch_complete same ps d m)

is_immutable→IsImmutable : (s : Text) → is_immutable s ≡ true → IsImmutable s
unfolding is_immutable
is_immutable→IsImmutable s h = elim (Bool-cases (matches exact registry_uri s)) [
  | inl a ↦ let (gs, m) = matches-Matches exact registry_uri s a in uri gs m
  | inr a ↦ elim (Bool-cases (matches exact workspace_reference s)) [
    | inl b ↦ let (gs, m) = matches-Matches exact workspace_reference s b in of_workspace gs m
    | inr b ↦ elim (Bool-cases (matches ignoring_case full_workspace_id s)) [
      | inl c ↦
          let (gs, m) = matches-Matches ignoring_case full_workspace_id s c in workspace_id gs m
      | inr c ↦
          let (gs, m) =
            matches-Matches ignoring_case full_registry_id s (ground (arith, a, b, c, h)) in
          registry_id gs m
    ]
  ]
]

IsImmutable→is_immutable : (s : Text) → IsImmutable s → is_immutable s ≡ true
unfolding is_immutable
IsImmutable→is_immutable s (uri gs m) =
    ground (arith, Matches-matches exact registry_uri s Delimited-uri_exact m)
IsImmutable→is_immutable s (of_workspace gs m) =
    ground (arith, Matches-matches exact workspace_reference s Delimited-workspace m)
IsImmutable→is_immutable s (workspace_id gs m) =
    ground (arith, Matches-matches ignoring_case full_workspace_id s Delimited-workspace_id m)
IsImmutable→is_immutable s (registry_id gs m) =
    ground (arith, Matches-matches ignoring_case full_registry_id s Delimited-full m)

-- A reference is accepted exactly where it is not blank and, stripped, has one of the four forms: it
-- is matched as a whole by the registry URI or the workspace reference, or by one of the full IDs
-- without regard to case. What is returned is the stripped reference.
pub validate_immutable_environment_reference_iff :
    (reference accepted : Text)
    → (validate_immutable_environment_reference reference ≡ ok accepted)
      ↔ ((accepted ≡ strip reference) × (accepted ≢ []) × IsImmutable accepted)
unfolding validate_immutable_environment_reference
validate_immutable_environment_reference_iff reference accepted = (
  λ h.
      let is : strip reference ≡ accepted = ground arith in
      (
        sym is,
        λ e. absurd (ground (arith, (is_empty_iff (strip reference)).1 (is ∙ e))),
        is_immutable→IsImmutable accepted (ground (arith, ap is_immutable is)),
      ),
  λ (is, some_text, immutable). ground (
    arith,
    is,
    (is_empty_iff accepted).0,
    some_text,
    IsImmutable→is_immutable accepted immutable,
  ),
)
