-- ===== src/Batch/Live.antt =====
-- `verify_live_deployment` of src/python-sdk-v2/create_batch_deployment.py.
pub mod Verified
pub mod Accepted
mod Tests
use mlops_templates.Prelude.{
  ℕ, Bool, true, false, not, ◌&&◌, ◌||◌, Option, none, some, List, [], ◌∷◌, ◌==◌, leb, length, all,
  if◌then◌else◌,
}
use mlops_templates.Text.{Text, str_eq, is_empty, is_ascii_digit, or_empty, truthy}
use mlops_templates.Outcome.{
  Exn, Result, ok, err, raise_if, runtime_error, live_environment_differs, manifest_invalid,
  live_provenance_differs, live_code_missing, live_script_differs,
}
use mlops_templates.Outcome.Pure.{◌>>=◌, ◌>>◌}
use mlops_templates.Azure.{Environment, Dict, BatchDeployment, CodeConfiguration}
use mlops_templates.Posix.{as_posix}
use mlops_templates.Batch.Reference.{
  RegistryReference, parse_registry_environment_reference, environment_matches,
}
use mlops_templates.Batch.Provenance.{
  lookup, registry_provenance, environment_provenance, differs, source_manifest,
}

-- The environment that a deployment is given: a reference, or what `environments.get` or
-- `create_or_update` returned.
pub data WorkspaceEnvironment : Type 0 where
  reference : Text → WorkspaceEnvironment
  entity : Environment → WorkspaceEnvironment

-- `str(getattr(workspace_environment, "id", workspace_environment) or "")`
unfoldable pub expected_environment_id : WorkspaceEnvironment → Text
expected_environment_id (reference s) = s
expected_environment_id (entity environment) = or_empty environment.id

-- `_environment_provenance` of a text, which has neither properties nor tags, is empty.
unfoldable pub live_provenance : WorkspaceEnvironment → Result Dict
live_provenance (reference s) = ok []
live_provenance (entity environment) = environment_provenance environment

abbrev is_lower_hex : ℕ → Bool
is_lower_hex c = is_ascii_digit c || (leb b'a' c && leb c b'f')

-- `re.fullmatch(r"[0-9a-f]{64}", s)`
unfoldable pub is_manifest : Text → Bool
is_manifest s = (length s == 64) && all is_lower_hex s

-- The checks on the provenance, where the requested source is a registry environment.
abbrev check_provenance : RegistryReference → Text → Dict → Result (Unit {0})
check_provenance ref requested_source provenance =
    let manifest = or_empty (lookup source_manifest provenance) in
    if not (is_manifest manifest)
    then err (runtime_error manifest_invalid)
    else raise_if
        (differs provenance (
          registry_provenance ref.registry_name ref.environment_name ref.version requested_source
            manifest))
        (runtime_error live_provenance_differs)

unfoldable pub check_source :
    WorkspaceEnvironment → Text → Option RegistryReference → Result (Unit {0})
check_source environment requested_source none = ok tt
check_source environment requested_source (some ref) = do
  provenance ← live_provenance environment
  check_provenance ref requested_source provenance

unfoldable pub check_code : Text → Option CodeConfiguration → Result (Unit {0})
check_code scoring_script none = err (runtime_error live_code_missing)
check_code scoring_script (some configuration) =
    if not (truthy configuration.code)
    then err (runtime_error live_code_missing)
    else raise_if (not (str_eq (as_posix (or_empty configuration.scoring_script)) scoring_script))
        (runtime_error live_script_differs)

unfoldable pub is_live_environment : Text → Option Text → Bool
is_live_environment expected live = truthy live && environment_matches expected (or_empty live)

unfoldable pub verify_live_deployment :
    BatchDeployment → WorkspaceEnvironment → Text → Text → Result (Unit {0})
verify_live_deployment deployment environment requested_source scoring_script = do
  raise_if (not (is_live_environment (expected_environment_id environment) deployment.environment))
      (runtime_error live_environment_differs)
  check_source environment requested_source (parse_registry_environment_reference requested_source)
  check_code scoring_script deployment.code_configuration
