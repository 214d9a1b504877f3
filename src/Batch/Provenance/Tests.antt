-- ===== src/Batch/Provenance/Tests.antt =====
-- An environment that the program created, and one whose tags were changed.
use mlops_templates.Prelude.{◌≡◌, ◌↔◌, refl, none, some, [], ◌∷◌}
use mlops_templates.Text.{str, str_eq, is_digit, lower, ends_with}
use mlops_templates.Outcome.{ok, err, runtime_error, provenance_conflict, workspace_collision}
use mlops_templates.Pattern.{ignoring_case, after_literal, span, fullmatch}
use mlops_templates.Azure.{Environment, Dict}
use mlops_templates.Batch.Reference.{environment_matches, rstrip_slash}
use mlops_templates.Batch.Reference.Patterns.{is_name_char, is_segment_char}
use mlops_templates.Batch.Provenance.{
  lookup, registry_provenance, environment_properties, collect_keys, environment_provenance,
  differs, validate_workspace_environment, source_manifest,
}
use mlops_templates.Batch.Provenance.Agreement.{
  Agree, or_else, lookup-environment_provenance, environment_provenance-registry_provenance,
}
use mlops_templates.Batch.Provenance.Collision.{IsImport, validate_workspace_environment_iff}

provenance : Dict
provenance = registry_provenance (str "r") (str "e") (str "7") (str "ref") (str "m")

abbrev created : Environment
created = record {
  name = some (str "registry-r-e");
  version = some (str "7");
  id = some (str "/w/environments/registry-r-e/versions/7");
  image = none;
  conda_file = none;
  build = none;
  tags = some provenance;
  properties = some provenance;
}

accepted :
    validate_workspace_environment created (str "registry-r-e") (str "7") provenance ≡ ok created
unfolding validate_workspace_environment environment_provenance environment_properties collect_keys
    differs provenance registry_provenance lookup str_eq environment_matches rstrip_slash fullmatch
    after_literal span ignoring_case is_name_char is_segment_char is_digit lower ends_with
accepted = refl

abbrev retagged : Environment
retagged = record created { tags = some ((source_manifest, str "x") ∷ []) }

conflicting : environment_provenance retagged ≡ err (runtime_error provenance_conflict)
unfolding environment_provenance environment_properties collect_keys provenance registry_provenance
    lookup str_eq
conflicting = refl

collides :
    validate_workspace_environment retagged (str "registry-r-e") (str "7") provenance
    ≡ err (runtime_error workspace_collision)
unfolding validate_workspace_environment environment_provenance environment_properties collect_keys
    differs provenance registry_provenance lookup str_eq
collides = refl

environment_provenance-registry_provenance_example : environment_provenance created ≡ ok provenance
unfolding provenance
environment_provenance-registry_provenance_example =
    environment_provenance-registry_provenance (str "r") (str "e") (str "7") (str "ref") (str "m")
      created refl refl

lookup-environment_provenance_example :
    (lookup source_manifest provenance
      ≡ or_else (lookup source_manifest provenance) (lookup source_manifest provenance))
    × Agree (lookup source_manifest provenance) (lookup source_manifest provenance)
unfolding str_eq
lookup-environment_provenance_example =
    lookup-environment_provenance created provenance source_manifest
      environment_provenance-registry_provenance_example refl

validate_workspace_environment_iff_example :
    (validate_workspace_environment created (str "registry-r-e") (str "7") provenance ≡ ok created)
    ↔ ((◌≡◌ {A = Environment} created created)
        × IsImport created (str "registry-r-e") (str "7") provenance)
validate_workspace_environment_iff_example =
    validate_workspace_environment_iff created created (str "registry-r-e") (str "7") provenance
