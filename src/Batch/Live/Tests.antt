-- ===== src/Batch/Live/Tests.antt =====
-- A deployment that passes, and one that runs another script.
use mlops_templates.Prelude.{ℕ, zero, suc, ◌≡◌, ◌↔◌, refl, none, some, [], ◌∷◌}
use mlops_templates.Text.{Text, str, str_eq, is_digit, is_ascii_digit, lower, ends_with}
use mlops_templates.Outcome.{ok, err, runtime_error, live_script_differs, manifest_invalid}
use mlops_templates.Pattern.{ignoring_case, after_literal, span, fullmatch}
use mlops_templates.Azure.{Environment, Dict, BatchDeployment}
use mlops_templates.Posix.{as_posix}
use mlops_templates.Batch.Reference.{
  parse_registry_environment_reference, environment_matches, rstrip_slash,
}
use mlops_templates.Batch.Reference.Patterns.{is_name_char, is_segment_char}
use mlops_templates.Batch.Provenance.{
  lookup, registry_provenance, environment_properties, collect_keys, environment_provenance,
  differs,
}
use mlops_templates.Batch.Live.{
  reference, entity, expected_environment_id, live_provenance, is_manifest, check_source,
  check_code, is_live_environment, verify_live_deployment,
}
use mlops_templates.Batch.Live.Verified.{IsVerified, verify_live_deployment_iff}

abbrev requested : Text
requested = str "azureml://registries/r/environments/e/versions/7"

abbrev copies : ℕ → Text
copies zero = []
copies (suc n) = b'a' ∷ copies n

abbrev imported_with : Dict → Environment
imported_with provenance = record {
  name = some (str "registry-r-e");
  version = some (str "7");
  id = some (str "azureml:registry-r-e:7");
  image = none;
  conda_file = none;
  build = none;
  tags = some provenance;
  properties = some provenance;
}

provenance : Text → Dict
provenance manifest = registry_provenance (str "r") (str "e") (str "7") requested manifest

abbrev deployment : BatchDeployment
deployment = record {
  provisioning_state = some (str "Succeeded");
  environment = some (str "/x/workspaces/w/environments/Registry-r-e/versions/7");
  code_configuration =
      some (record { code = some (str "/code/1"); scoring_script = some (str "./src//score.py") });
}

passes :
    verify_live_deployment deployment
      (entity (imported_with (provenance (copies 64))))
      requested
      (str "src/score.py")
    ≡ ok tt
unfolding verify_live_deployment check_source check_code is_live_environment expected_environment_id
    live_provenance is_manifest environment_provenance environment_properties collect_keys differs
    provenance registry_provenance lookup str_eq environment_matches rstrip_slash
    parse_registry_environment_reference fullmatch after_literal span ignoring_case is_name_char
    is_segment_char is_digit is_ascii_digit lower ends_with as_posix
passes = refl

other_script :
    verify_live_deployment deployment
      (reference (str "azureml:registry-r-e:7"))
      (str "azureml:registry-r-e:7")
      (str "score.py")
    ≡ err (runtime_error live_script_differs)
unfolding verify_live_deployment check_source check_code is_live_environment expected_environment_id
    str_eq environment_matches rstrip_slash parse_registry_environment_reference fullmatch
    after_literal span ignoring_case is_name_char is_segment_char is_digit lower ends_with as_posix
other_script = refl

short_manifest :
    verify_live_deployment deployment
      (entity (imported_with (provenance (copies 63))))
      requested
      (str "src/score.py")
    ≡ err (runtime_error manifest_invalid)
unfolding verify_live_deployment check_source check_code is_live_environment expected_environment_id
    live_provenance is_manifest environment_provenance environment_properties collect_keys differs
    provenance registry_provenance lookup str_eq environment_matches rstrip_slash
    parse_registry_environment_reference fullmatch after_literal span ignoring_case is_name_char
    is_segment_char is_digit is_ascii_digit lower ends_with as_posix
short_manifest = refl

verify_live_deployment_iff_example :
    (verify_live_deployment deployment
        (entity (imported_with (provenance (copies 64))))
        requested
        (str "src/score.py")
      ≡ ok tt)
    ↔ IsVerified deployment
        (entity (imported_with (provenance (copies 64))))
        requested
        (str "src/score.py")
verify_live_deployment_iff_example =
    verify_live_deployment_iff deployment (entity (imported_with (provenance (copies 64))))
      requested (str "src/score.py")
