-- ===== src/Batch/Reference.antt =====
-- The environment references of src/python-sdk-v2/create_batch_deployment.py: the patterns at its
-- top, `validate_immutable_environment_reference`, `_parse_registry_environment_reference` and
-- `_environment_matches`.
pub mod Patterns
pub mod Parsing
pub mod Matching
pub mod Shapes
pub mod Immutable
mod Tests
use mlops_templates.Prelude.{
  ℕ, Bool, true, false, not, ◌&&◌, ◌||◌, Option, none, some, List, [], ◌∷◌, ◌++◌, ◌==◌, any,
  if◌then◌else◌,
}
use mlops_templates.Text.{
  Text, str, str_eq, is_empty, lower, strip, ends_with, drop_end_while, or_empty,
}
use mlops_templates.Outcome.{
  Result, ok, err, argument_type_error, reference_empty, reference_mutable,
}
use mlops_templates.Pattern.{Piece, exact, ignoring_case, fullmatch}
use Patterns.{
  registry_uri, workspace_reference, full_workspace_id, full_registry_id, full_registry_parts,
}

abbrev pub matches : (ℕ → ℕ → Bool) → List Piece → Text → Bool
matches same ps s = elim (fullmatch same ps s) [ none ↦ false | some groups ↦ true ]

-- `any(pattern.fullmatch(s) for pattern in IMMUTABLE_ENVIRONMENT_PATTERNS)`
unfoldable pub is_immutable : Text → Bool
unfolding fullmatch
is_immutable s =
    matches exact registry_uri s
    || matches exact workspace_reference s
    || matches ignoring_case full_workspace_id s
    || matches ignoring_case full_registry_id s

-- `FULL_ENVIRONMENT_ID_PATTERN.fullmatch(s)`
unfoldable pub is_full_environment_id : Text → Bool
unfolding fullmatch
is_full_environment_id s =
    matches ignoring_case full_workspace_id s || matches ignoring_case full_registry_id s

unfoldable pub validate_immutable_environment_reference : Text → Result Text
validate_immutable_environment_reference reference =
    let normalized = strip reference in
    if is_empty normalized
    then err (argument_type_error reference_empty)
    else if not (is_immutable normalized)
    then err (argument_type_error reference_mutable)
    else ok normalized

-- The tuple that a reference to a registry environment is parsed into. The subscription and the
-- resource group are None for a registry URI.
pub record RegistryReference : Type 0 where
  pub subscription_id : Option Text
  pub resource_group : Option Text
  pub registry_name : Text
  pub environment_name : Text
  pub version : Text

-- `match.groups()`, by the number of groups of the pattern
abbrev from_uri_groups : Option (List Text) → Option RegistryReference
from_uri_groups (some (r ∷ e ∷ v ∷ [])) = some (record {
  subscription_id = none;
  resource_group = none;
  registry_name = r;
  environment_name = e;
  version = v;
})
from_uri_groups _ = none

abbrev from_full_groups : Option (List Text) → Option RegistryReference
from_full_groups (some (s ∷ g ∷ r ∷ e ∷ v ∷ [])) = some (record {
  subscription_id = some s;
  resource_group = some g;
  registry_name = r;
  environment_name = e;
  version = v;
})
from_full_groups _ = none

abbrev or_else : Option RegistryReference → Option RegistryReference → Option RegistryReference
or_else none other = other
or_else (some found) other = some found

unfoldable pub parse_registry_environment_reference : Text → Option RegistryReference
parse_registry_environment_reference reference =
    or_else (from_uri_groups (fullmatch ignoring_case registry_uri reference))
      (from_full_groups (fullmatch ignoring_case full_registry_parts reference))

-- `s.rstrip("/")`
unfoldable pub rstrip_slash : Text → Text
unfolding drop_end_while
rstrip_slash s = drop_end_while (λ c. c == b'/') s

abbrev pub registry_suffix : Text → Text → Text → Text
registry_suffix r e v =
    str "/registries/" ++ (r ++ (str "/environments/" ++ (e ++ (str "/versions/" ++ v))))

abbrev pub workspace_suffix : Text → Text → Text
workspace_suffix e v = str "/environments/" ++ (e ++ (str "/versions/" ++ v))

abbrev pub suffix_of_uri : Option (List Text) → Option Text
suffix_of_uri (some (r ∷ e ∷ v ∷ [])) = some (registry_suffix r e v)
suffix_of_uri _ = none

abbrev suffix_of_workspace : Option (List Text) → Option Text
suffix_of_workspace (some (e ∷ v ∷ [])) = some (workspace_suffix e v)
suffix_of_workspace _ = none

-- The tests after the equality: the registry URI first, then the workspace reference.
abbrev suffix_matches : Option Text → Option Text → Text → Bool
suffix_matches (some suffix) other actual = ends_with (lower suffix) (lower actual)
suffix_matches none (some suffix) actual = ends_with (lower suffix) (lower actual)
suffix_matches none none actual = false

unfoldable pub environment_matches : Text → Text → Bool
environment_matches requested actual =
    let requested_value = rstrip_slash requested in
    let actual_value = rstrip_slash actual in
    if str_eq (lower requested_value) (lower actual_value)
    then true
    else suffix_matches (suffix_of_uri (fullmatch ignoring_case registry_uri requested_value))
        (suffix_of_workspace (fullmatch ignoring_case workspace_reference requested_value))
        actual_value
