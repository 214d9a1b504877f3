-- ===== src/Batch/Reference/Parsing.antt =====
-- What `_parse_registry_environment_reference` accepts and returns.
use mlops_templates.Prelude.{
  ℕ, ◌≡◌, refl, sym, subst, Bool, true, false, Option, none, some, List, [], ◌∷◌, ◌++◌, arith, all,
}
use mathlib.Core.Option.{some-injective}
use mathlib.Core.List.{append-nil}
use mlops_templates.Text.{Text, str, is_empty, is_digit, lower_char}
use mlops_templates.Pattern.{Piece, lit, run, exact, ignoring_case, fullmatch, after_literal}
use mlops_templates.Pattern.Decides.{
  Stands, Matches, end, literal, captured, Delimited, fullmatch_sound, fullmatch_complete,
}
use mlops_templates.Batch.Reference.{
  from_uri_groups, from_full_groups, or_else, RegistryReference,
  parse_registry_environment_reference,
}
use mlops_templates.Batch.Reference.Patterns.{is_segment_char, registry_uri, full_registry_id}

-- A text that a run of the class matches.
abbrev pub IsRun : (ℕ → Bool) → Text → Type 0
IsRun p s = (is_empty s ≡ false) × (all p s ≡ true)

pub slash_apart : (d : ℕ) → ignoring_case b'/' d ≡ true → is_segment_char d ≡ false
unfolding ignoring_case lower_char is_segment_char
slash_apart d h = ground arith

pub slash_apart_exact : (d : ℕ) → exact b'/' d ≡ true → is_segment_char d ≡ false
unfolding is_segment_char
slash_apart_exact d h = ground arith

ignoring_case_refl : (c : ℕ) → ignoring_case c c ≡ true
unfolding ignoring_case
ignoring_case_refl c = ground arith

Stands-refl : (t : Text) → Stands ignoring_case t t
Stands-refl [] = tt
Stands-refl (c ∷ t) = (ignoring_case_refl c, Stands-refl t)

Delimited-uri : Delimited ignoring_case registry_uri
Delimited-uri = (slash_apart, (slash_apart, tt))

pub Delimited-full : Delimited ignoring_case full_registry_id
Delimited-full = (slash_apart, (slash_apart, (slash_apart, (slash_apart, tt))))

-- A captured part from a text that is known to be a run.
Matches-run :
    {p : ℕ → Bool} {ps : List Piece} {rest : Text} {gs : List Text} (g : Text)
    → IsRun p g
    → Matches ignoring_case ps rest gs
    → Matches ignoring_case (run p ∷ ps) (g ++ rest) (g ∷ gs)
Matches-run [] h m = absurd (ground arith)
Matches-run {rest = rest} (c ∷ g) h m = captured c g rest refl h.1 m

Matches-last : {p : ℕ → Bool} (g : Text) → IsRun p g → Matches ignoring_case (run p ∷ []) g (g ∷ [])
Matches-last [] h = absurd (ground arith)
Matches-last (c ∷ g) h = captured c g [] (sym (append-nil (c ∷ g))) h.1 end

Matches-lit :
    {ps : List Piece} {rest : Text} {gs : List Text} (t : Text)
    → Matches ignoring_case ps rest gs
    → Matches ignoring_case (lit t ∷ ps) (t ++ rest) gs
Matches-lit {rest = rest} t m = literal t rest refl (Stands-refl t) m

-- `azureml://registries/<r>/environments/<e>/versions/<v>`
abbrev pub registry_uri_text : Text → Text → Text → Text
registry_uri_text r e v =
    str "azureml://registries/" ++ (r ++ (str "/environments/" ++ (e ++ (str "/versions/" ++ v))))

-- `/subscriptions/<s>/resourceGroups/<g>/providers/.../registries/<r>/environments/<e>/versions/<v>`
abbrev pub full_id_text : Text → Text → Text → Text → Text → Text
full_id_text s g r e v =
    str "/subscriptions/"
    ++ (s
        ++ (str "/resourceGroups/"
            ++ (g
                ++ (str "/providers/Microsoft.MachineLearningServices/registries/"
                    ++ (r ++ (str "/environments/" ++ (e ++ (str "/versions/" ++ v))))))))

module _ (r e v : Text) (hr : IsRun is_segment_char r) (he : IsRun is_segment_char e)
    (hv : IsRun is_digit v) where
  pub fullmatch-uri :
      fullmatch ignoring_case registry_uri (registry_uri_text r e v) ≡ some (r ∷ e ∷ v ∷ [])
  fullmatch-uri = fullmatch_complete ignoring_case registry_uri Delimited-uri (
      Matches-lit (str "azureml://registries/") (
        Matches-run r hr (
          Matches-lit (str "/environments/")
            (Matches-run e he (Matches-lit (str "/versions/") (Matches-last v hv))))))

  -- A registry URI is parsed into the registry, environment and version that it was written with,
  -- where both names are non-empty texts with no slash and no space, and the version is digits.
  pub parse-uri_text :
      parse_registry_environment_reference (registry_uri_text r e v)
      ≡ some (record {
        subscription_id = none;
        resource_group = none;
        registry_name = r;
        environment_name = e;
        version = v;
      })
  unfolding parse_registry_environment_reference
  parse-uri_text = rw fullmatch-uri

  module _ (s g : Text) (hs : IsRun is_segment_char s) (hg : IsRun is_segment_char g) where
    pub fullmatch-full :
        fullmatch ignoring_case full_registry_id (full_id_text s g r e v)
        ≡ some (s ∷ g ∷ r ∷ e ∷ v ∷ [])
    fullmatch-full = fullmatch_complete ignoring_case full_registry_id Delimited-full (
        Matches-lit (str "/subscriptions/") (
          Matches-run s hs (
            Matches-lit (str "/resourceGroups/") (
              Matches-run g hg (
                Matches-lit (str "/providers/Microsoft.MachineLearningServices/registries/") (
                  Matches-run r hr (
                    Matches-lit (str "/environments/")
                      (Matches-run e he (Matches-lit (str "/versions/") (Matches-last v hv))))))))))

    -- A full resource ID is no registry URI.
    fullmatch-uri_full : fullmatch ignoring_case registry_uri (full_id_text s g r e v) ≡ none
    unfolding fullmatch after_literal ignoring_case lower_char
    fullmatch-uri_full = refl

    -- A full resource ID is parsed into the five parts that it was written with.
    pub parse-full_id_text :
        parse_registry_environment_reference (full_id_text s g r e v)
        ≡ some (record {
          subscription_id = some s;
          resource_group = some g;
          registry_name = r;
          environment_name = e;
          version = v;
        })
    unfolding parse_registry_environment_reference
    parse-full_id_text = rw (fullmatch-uri_full, fullmatch-full)

-- The groups of a match of the URI pattern are its runs.
pub uri_groups :
    {s : Text} {gs : List Text}
    → Matches ignoring_case registry_uri s gs
    → (r : Text) × (e : Text) × (v : Text) × (gs ≡ r ∷ e ∷ v ∷ [])
      × IsRun is_segment_char r
      × IsRun is_segment_char e
      × IsRun is_digit v
uri_groups
      (literal _ _ _ _ (
        captured c r _ _ hr
          (literal _ _ _ _ (captured d e _ _ he (literal _ _ _ _ (captured x v _ _ hv end)))))) =
    (c ∷ r, d ∷ e, x ∷ v, refl, (refl, hr), (refl, he), (refl, hv))

pub full_groups :
    {s : Text} {gs : List Text}
    → Matches ignoring_case full_registry_id s gs
    → (a : Text) × (b : Text) × (r : Text) × (e : Text) × (v : Text) × (gs ≡ a ∷ b ∷ r ∷ e ∷ v ∷ [])
      × IsRun is_segment_char a
      × IsRun is_segment_char r
      × IsRun is_segment_char e
      × IsRun is_digit v
full_groups
      (literal _ _ _ _ (
        captured i a _ _ ha (
          literal _ _ _ _ (
            captured j b _ _ hb (
              literal _ _ _ _ (
                captured c r _ _ hr (
                  literal _ _ _ _
                    (captured d e _ _ he (literal _ _ _ _ (captured x v _ _ hv end)))))))))) =
    (i ∷ a, j ∷ b, c ∷ r, d ∷ e, x ∷ v, refl, (refl, ha), (refl, hr), (refl, he), (refl, hv))

-- The names are non-empty and hold no slash and no space; the version is digits.
abbrev pub IsWellFormed : RegistryReference → Type 0
IsWellFormed ref =
    IsRun is_segment_char ref.registry_name
    × IsRun is_segment_char ref.environment_name
    × IsRun is_digit ref.version

from_uri-IsWellFormed :
    (s : Text) (gs : Option (List Text)) {ref : RegistryReference}
    → fullmatch ignoring_case registry_uri s ≡ gs
    → from_uri_groups gs ≡ some ref
    → IsWellFormed ref
from_uri-IsWellFormed s none m e = absurd (ground arith)
from_uri-IsWellFormed s (some gs) {ref} m e =
    let (r, n, v, split, hr, hn, hv) =
      uri_groups (fullmatch_sound ignoring_case registry_uri s gs m) in
    subst IsWellFormed (some-injective _ _ (rw split at e)) (hr, hn, hv)

from_full-IsWellFormed :
    (s : Text) (gs : Option (List Text)) {ref : RegistryReference}
    → fullmatch ignoring_case full_registry_id s ≡ gs
    → from_full_groups gs ≡ some ref
    → IsWellFormed ref
from_full-IsWellFormed s none m e = absurd (ground arith)
from_full-IsWellFormed s (some gs) {ref} m e =
    let (a, b, r, n, v, split, ha, hr, hn, hv) =
      full_groups (fullmatch_sound ignoring_case full_registry_id s gs m) in
    subst IsWellFormed (some-injective _ _ (rw split at e)) (hr, hn, hv)

or_else-IsWellFormed :
    (a b : Option RegistryReference) {ref : RegistryReference}
    → ((x : RegistryReference) → a ≡ some x → IsWellFormed x)
    → ((x : RegistryReference) → b ≡ some x → IsWellFormed x)
    → or_else a b ≡ some ref
    → IsWellFormed ref
or_else-IsWellFormed none b ha hb e = hb _ e
or_else-IsWellFormed (some x) b ha hb e = ha _ e

-- What a reference is parsed into is well formed, whichever of the two forms it has.
pub parse-IsWellFormed :
    (reference : Text) {ref : RegistryReference}
    → parse_registry_environment_reference reference ≡ some ref
    → IsWellFormed ref
unfolding parse_registry_environment_reference
parse-IsWellFormed reference e =
    or_else-IsWellFormed (from_uri_groups (fullmatch ignoring_case registry_uri reference))
      (from_full_groups (fullmatch ignoring_case full_registry_id reference))
      (λ x h. from_uri-IsWellFormed reference _ refl h)
      (λ x h. from_full-IsWellFormed reference _ refl h) e
