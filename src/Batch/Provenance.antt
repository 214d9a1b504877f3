-- ===== src/Batch/Provenance.antt =====
-- The provenance that an imported environment carries, in
-- src/python-sdk-v2/create_batch_deployment.py: `_registry_provenance`, `_environment_properties`,
-- `_environment_provenance` and `_validate_workspace_environment`.
pub mod Agreement
pub mod Collision
mod Tests
use mlops_templates.Prelude.{
  Bool, true, false, not, ◌&&◌, ◌||◌, Option, none, some, List, [], ◌∷◌, ◌++◌, if◌then◌else◌, any,
}
use mlops_templates.Text.{Text, str, str_eq, is_empty, or_empty}
use mlops_templates.Outcome.{
  Exn, Result, ok, err, runtime_error, provenance_conflict, workspace_collision,
  workspace_id_differs,
}
use mlops_templates.Outcome.Pure.{◌>>=◌}
use mlops_templates.Azure.{Environment, Dict}
use mlops_templates.Batch.Reference.{environment_matches}

abbrev pub source_registry : Text
source_registry = str "source_registry"

abbrev pub source_environment : Text
source_environment = str "source_environment"

abbrev pub source_version : Text
source_version = str "source_version"

abbrev pub source_reference : Text
source_reference = str "source_reference"

abbrev pub source_manifest : Text
source_manifest = str "source_manifest_sha256"

abbrev pub source_provenance_properties : List Text
source_provenance_properties =
    source_registry ∷ source_environment ∷ source_version ∷ source_reference ∷ source_manifest ∷ []

-- `d.get(key)`
unfoldable pub lookup : Text → Dict → Option Text
lookup key [] = none
lookup key ((k, v) ∷ d) = if str_eq key k then some v else lookup key d

unfoldable pub registry_provenance : Text → Text → Text → Text → Text → Dict
registry_provenance registry_name environment_name version reference manifest =
    (source_registry, registry_name)
    ∷ (source_environment, environment_name)
    ∷ (source_version, version)
    ∷ (source_reference, reference)
    ∷ (source_manifest, manifest)
    ∷ []

-- `dict(x) if isinstance(x, dict) else {}`
abbrev pub dict_of : Option Dict → Dict
dict_of none = []
dict_of (some d) = d

unfoldable pub environment_properties : Environment → Dict
environment_properties environment = dict_of environment.properties

-- `[source[key] for source in metadata if key in source]`
abbrev pub found : Option Text → List Text → List Text
found none values = values
found (some v) values = v ∷ values

abbrev pub values_of : Text → Dict → Dict → List Text
values_of key properties tags = found (lookup key properties) (found (lookup key tags) [])

-- The part of the dict that one key adds.
unfoldable pub agree : Text → List Text → Result Dict
agree key [] = ok []
agree key (v ∷ values) =
    if any (λ value. not (str_eq value v)) values
    then err (runtime_error provenance_conflict)
    else ok ((key, v) ∷ [])

unfoldable pub collect_keys : List Text → Dict → Dict → Result Dict
unfolding agree
collect_keys [] properties tags = ok []
collect_keys (key ∷ keys) properties tags = do
  here ← agree key (values_of key properties tags)
  rest ← collect_keys keys properties tags
  ok (here ++ rest)

unfoldable pub environment_provenance : Environment → Result Dict
environment_provenance environment =
    collect_keys source_provenance_properties (environment_properties environment)
      (dict_of environment.tags)

-- `try: … except RuntimeError: actual_provenance = {}`
abbrev pub or_no_provenance : Result Dict → Dict
or_no_provenance (ok d) = d
or_no_provenance (err exn) = []

abbrev same_value : Text → Option Text → Bool
same_value value none = false
same_value value (some v) = str_eq v value

-- `any(actual.get(key) != value for key, value in expected.items())`
unfoldable pub differs : Dict → Dict → Bool
differs actual [] = false
differs actual ((key, value) ∷ expected) =
    not (same_value value (lookup key actual)) || differs actual expected

-- azureml:{name}:{version}
abbrev pub workspace_uri : Text → Text → Text
workspace_uri name version = str "azureml:" ++ (name ++ (str ":" ++ version))

unfoldable pub validate_workspace_environment :
    Environment → Text → Text → Dict → Result Environment
validate_workspace_environment environment expected_name expected_version expected =
    let actual = or_no_provenance (environment_provenance environment) in
    let id = or_empty environment.id in
    if not (str_eq (or_empty environment.name) expected_name)
      || not (str_eq (or_empty environment.version) expected_version)
      || differs actual expected
    then err (runtime_error workspace_collision)
    else if is_empty id
        || not (environment_matches (workspace_uri expected_name expected_version) id)
    then err (runtime_error workspace_id_differs)
    else ok environment
