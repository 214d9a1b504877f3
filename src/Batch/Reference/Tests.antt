-- ===== src/Batch/Reference/Tests.antt =====
-- References that are accepted, parsed and matched.
use mlops_templates.Prelude.{◌≢◌, ◌↔◌, [], ◌≡◌, refl, true, false, none, some, ◌++◌}
use mlops_templates.Text.{Text, str, str_eq, strip, lower, ends_with}
use mlops_templates.Outcome.{ok, err, argument_type_error, reference_mutable}
use mlops_templates.Pattern.{ignoring_case, after_literal, span, fullmatch}
use mlops_templates.Batch.Reference.{
  RegistryReference, is_immutable, validate_immutable_environment_reference,
  parse_registry_environment_reference, environment_matches, rstrip_slash,
}
use mlops_templates.Batch.Reference.Patterns.{is_segment_char, is_name_char}
use mlops_templates.Text.{is_digit}
use mlops_templates.Batch.Reference.Immutable.{
  IsImmutable, validate_immutable_environment_reference_iff,
}
use mlops_templates.Batch.Reference.Parsing.{
  full_id_text, IsWellFormed, parse-uri_text, parse-full_id_text, parse-IsWellFormed,
}

abbrev uri : Text
uri = str "azureml://registries/azureml/environments/sklearn-1.5/versions/53"

accepts_uri : validate_immutable_environment_reference (str " " ++ uri) ≡ ok uri
unfolding validate_immutable_environment_reference strip is_immutable after_literal span
    is_segment_char is_digit
accepts_uri = refl

turns_down_latest :
    validate_immutable_environment_reference (str "azureml:sklearn:latest")
    ≡ err (argument_type_error reference_mutable)
unfolding validate_immutable_environment_reference strip is_immutable after_literal span
    is_segment_char is_name_char is_digit ignoring_case
turns_down_latest = refl

abbrev parsed : RegistryReference
parsed = record {
  subscription_id = none;
  resource_group = none;
  registry_name = str "azureml";
  environment_name = str "sklearn-1.5";
  version = str "53";
}

parses_uri : parse_registry_environment_reference uri ≡ some parsed
unfolding parse_registry_environment_reference fullmatch after_literal span is_segment_char is_digit
    ignoring_case
parses_uri = refl

matches_workspace :
    environment_matches (str "azureml:e:7") (str "/x/workspaces/w/environments/E/versions/7/")
    ≡ true
unfolding environment_matches rstrip_slash fullmatch after_literal span is_name_char is_digit
    ignoring_case lower ends_with str_eq is_segment_char
matches_workspace = refl

other_version :
    environment_matches (str "azureml:e:7") (str "/x/workspaces/w/environments/e/versions/17")
    ≡ false
unfolding environment_matches rstrip_slash fullmatch after_literal span is_name_char is_digit
    ignoring_case lower ends_with str_eq is_segment_char
other_version = refl

parse-uri_text_example : parse_registry_environment_reference uri ≡ some parsed
unfolding is_segment_char is_digit
parse-uri_text_example =
    parse-uri_text (str "azureml") (str "sklearn-1.5") (str "53") (refl, refl) (refl, refl)
      (refl, refl)

parse-full_id_text_example :
    parse_registry_environment_reference
      (full_id_text (str "s") (str "g") (str "azureml") (str "sklearn-1.5") (str "53"))
    ≡ some (record parsed { subscription_id = some (str "s"); resource_group = some (str "g") })
unfolding is_segment_char is_digit
parse-full_id_text_example =
    parse-full_id_text (str "azureml") (str "sklearn-1.5") (str "53") (refl, refl) (refl, refl)
      (refl, refl) (str "s") (str "g") (refl, refl) (refl, refl)

parse-IsWellFormed_example : IsWellFormed parsed
parse-IsWellFormed_example = parse-IsWellFormed uri parses_uri

validate_immutable_environment_reference_iff_example :
    (validate_immutable_environment_reference (str " " ++ uri) ≡ ok uri)
    ↔ ((uri ≡ strip (str " " ++ uri)) × (uri ≢ []) × IsImmutable uri)
validate_immutable_environment_reference_iff_example =
    validate_immutable_environment_reference_iff (str " " ++ uri) uri
