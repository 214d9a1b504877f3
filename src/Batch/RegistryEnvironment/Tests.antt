-- ===== src/Batch/RegistryEnvironment/Tests.antt =====
-- A registry environment that is found, and one that the wrong registry answers for.
use mlops_templates.Prelude.{ℕ, ◌≡◌, refl, none, some}
use mlops_templates.Text.{Text, str, str_eq, lower, is_digit, ends_with}
use mlops_templates.Outcome.{ok, err, runtime_error, scope_registry_differs}
use mlops_templates.Pattern.{ignoring_case, after_literal, span, fullmatch}
use mlops_templates.Azure.{Environment}
use mlops_templates.Client.Credential.{Sdk, create_registry_ml_client}
use mlops_templates.Batch.Reference.{
  RegistryReference, parse_registry_environment_reference, is_full_environment_id,
  environment_matches, rstrip_slash,
}
use mlops_templates.Batch.Reference.Patterns.{is_subscription_id, is_arm_name, is_segment_char}
use mlops_templates.Batch.RegistryEnvironment.{
  Scope, Registry, Found, check_names, check_scope, check_ids, resolved_id, get_parsed,
  get_registry_environment,
}
use mlops_templates.Batch.RegistryEnvironment.Located.{Ran, get_registry_environment-IsLocated}
use mlops_templates.Batch.RegistryEnvironment.Usable.{IsUsable, resolved_id-IsUsable}

-- A client is the name of its registry, and the credential is that name too.
abbrev sdk : Sdk ℕ Text Text
sdk = record {
  cli_credential = str "";
  default_credential = λ a b. str "";
  get_token = λ c scope w. (ok tt, w);
  workspace_client = λ c s g n. c;
  registry_client = λ c r. r;
  credential_of = λ m. some m;
}

abbrev requested : Text
requested = str "azureml://registries/Reg/environments/env/versions/7"

abbrev environment : Environment
environment = record {
  name = some (str "env");
  version = some (str "7");
  id = some (str "azureml://registries/reg/environments/ENV/versions/7/");
  image = none;
  conda_file = none;
  build = none;
  tags = none;
  properties = none;
}

abbrev scope : Text → Scope
scope name = record {
  subscription_id = some (str "0123ABCD-0123-0123-0123-0123456789ab");
  resource_group_name = some (str "rg");
  registry_name = some name;
}

abbrev registry : Text → Registry ℕ Text
registry name = record { get = λ m n v w. (ok environment, w); scope = λ m. scope name }

abbrev expected : Found Text
expected = record {
  registry_client = str "Reg";
  environment = environment;
  registry_name = str "Reg";
  environment_name = str "env";
  version = str "7";
  resolved_id =
      str
        "/subscriptions/0123ABCD-0123-0123-0123-0123456789ab/resourceGroups/rg/providers/Microsoft.MachineLearningServices/registries/reg/environments/env/versions/7";
}

located :
    get_registry_environment sdk (registry (str "reg")) (str "client") requested 0
    ≡ (ok expected, 0)
unfolding get_registry_environment get_parsed parse_registry_environment_reference check_names
    check_scope check_ids resolved_id create_registry_ml_client is_subscription_id is_arm_name
    is_full_environment_id environment_matches rstrip_slash fullmatch after_literal span
    ignoring_case is_segment_char is_digit lower ends_with str_eq
located = refl

elsewhere :
    get_registry_environment sdk (registry (str "other")) (str "client") requested 0
    ≡ (err (runtime_error scope_registry_differs), 0)
unfolding get_registry_environment get_parsed parse_registry_environment_reference check_names
    check_scope check_ids resolved_id create_registry_ml_client is_subscription_id is_arm_name
    is_full_environment_id environment_matches rstrip_slash fullmatch after_literal span
    ignoring_case is_segment_char is_digit lower ends_with str_eq
elsewhere = refl

get_registry_environment-IsLocated_example :
    Ran sdk (registry (str "reg")) (str "client") requested 0 expected 0
get_registry_environment-IsLocated_example =
    get_registry_environment-IsLocated sdk (registry (str "reg")) (str "client") requested 0 located

abbrev reference : RegistryReference
reference = record {
  subscription_id = none;
  resource_group = none;
  registry_name = str "Reg";
  environment_name = str "env";
  version = str "7";
}

-- The scope has the registry in another case of letters.
resolved_id-IsUsable_example : IsUsable requested (resolved_id reference (scope (str "reg")))
unfolding parse_registry_environment_reference check_scope is_subscription_id is_arm_name fullmatch
    after_literal span ignoring_case is_segment_char is_digit lower str_eq
resolved_id-IsUsable_example =
    resolved_id-IsUsable requested reference (scope (str "reg")) refl refl
