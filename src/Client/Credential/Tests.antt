-- ===== src/Client/Credential/Tests.antt =====
-- Credentials in CI and on a local machine.
use mlops_templates.Prelude.{ℕ, ◌≡◌, refl, Bool, true, none, some, if◌then◌else◌}
use mlops_templates.Text.{str, str_eq, strip, lower}
use mlops_templates.Outcome.{ok, err, runtime_error, cli_credential_required_in_ci}
use mlops_templates.Client.Environ.{Environ}
use mlops_templates.Client.Credential.{
  Sdk, is_truthy, is_ci, credential_mode, choose_credential, create_azure_credential,
  create_ml_client, management_scope,
}
use mlops_templates.Client.Credential.Policy.{IsSelected, create_azure_credential-IsSelected}

data Credential : Type 0 where
  cli : Credential
  local : Bool → Bool → Credential

-- A client is the credential that it was made with.
abbrev sdk : Sdk ℕ Credential Credential
sdk = record {
  cli_credential = cli;
  default_credential = local;
  get_token = λ c scope w. (ok tt, w);
  workspace_client = λ c s g n. c;
  registry_client = λ c r. c;
  credential_of = λ m. some m;
}

abbrev in_ci : Environ
in_ci v = if str_eq v (str "CI") then some (str " True ") else none

abbrev at_home : Environ
at_home v = none

-- The mode "default" is turned down in CI.
in_ci_default :
    choose_credential sdk (λ v. some (if str_eq v (str "CI") then str "1" else str "default"))
    ≡ err (runtime_error cli_credential_required_in_ci)
unfolding choose_credential credential_mode is_ci is_truthy strip lower str_eq
in_ci_default = refl

ci_credential : create_azure_credential sdk in_ci 0 ≡ (ok cli, 0)
unfolding create_azure_credential choose_credential credential_mode is_ci is_truthy strip lower
    str_eq
ci_credential = refl

home_client :
    create_ml_client sdk at_home (str "s") (str "g") (str "n") 0 ≡ (ok (local true true), 0)
unfolding create_ml_client create_azure_credential choose_credential credential_mode is_ci is_truthy
    strip lower str_eq
home_client = refl

create_azure_credential-IsSelected_example :
    (sdk.get_token cli management_scope 0 ≡ (ok tt, 0)) × IsSelected sdk in_ci cli
create_azure_credential-IsSelected_example =
    create_azure_credential-IsSelected sdk in_ci 0 ci_credential
