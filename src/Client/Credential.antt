-- ===== src/Client/Credential.antt =====
-- `create_azure_credential`, `_is_truthy`, `create_ml_client` and `create_registry_ml_client` of
-- src/python-sdk-v2/aml_client.py. The environment is read and never written by them.
pub mod Policy
pub mod Kept
mod Tests
use mlops_templates.Prelude.{
  Bool, true, false, not, ◌&&◌, ◌||◌, Option, none, some, [], ◌∷◌, if◌then◌else◌,
}
use mlops_templates.Text.{Text, str, str_eq, strip, lower, one_of}
use mlops_templates.Outcome.{
  Exn, Result, ok, err, Exec, pure, raise, lift, rescue, ◌>>=◌, ◌>>◌, runtime_error,
  unsupported_credential_mode, cli_credential_required_in_ci, no_management_token,
  no_client_credential,
}
use mlops_templates.Client.Environ.{Environ}

abbrev pub credential_mode_variable : Text
credential_mode_variable = str "AZUREML_CREDENTIAL_MODE"

abbrev pub azure_cli_mode : Text
azure_cli_mode = str "azure-cli"

abbrev pub default_mode : Text
default_mode = str "default"

abbrev pub management_scope : Text
management_scope = str "https://management.azure.com/.default"

-- What azure.identity and azure.ai.ml offer: the two credentials, `get_token` (which raises when
-- no token can be had), and the clients with the credential that they were made with.
pub record Sdk (W C M : Type 0) : Type 0 where
  pub cli_credential : C
  -- DefaultAzureCredential(exclude_interactive_browser_credential=…,
  -- exclude_managed_identity_credential=…)
  pub default_credential : Bool → Bool → C
  pub get_token : C → Text → Exec W (Unit {0})
  -- MLClient(credential=…, subscription_id=…, resource_group_name=…, workspace_name=…)
  pub workspace_client : C → Text → Text → Text → M
  -- MLClient(credential=…, registry_name=…)
  pub registry_client : C → Text → M
  -- getattr(client, "_credential", None)
  pub credential_of : M → Option C

unfoldable pub is_truthy : Option Text → Bool
is_truthy none = false
is_truthy (some value) = one_of (lower (strip value)) (str "1" ∷ str "true" ∷ str "yes" ∷ [])

unfoldable pub is_ci : Environ → Bool
is_ci environ = is_truthy (environ (str "GITHUB_ACTIONS")) || is_truthy (environ (str "CI"))

abbrev mode_or : Bool → Option Text → Text
mode_or ci none = if ci then azure_cli_mode else default_mode
mode_or ci (some mode) = mode

-- `mode`, after `strip().lower()`
unfoldable pub credential_mode : Environ → Text
unfolding is_ci
credential_mode environ = lower (strip (mode_or (is_ci environ) (environ credential_mode_variable)))

module _ {W C M : Type 0} (sdk : Sdk W C M) where
  -- the two `if` statements that raise, and the choice of the credential
  unfoldable pub choose_credential : Environ → Result C
  choose_credential environ =
      let mode = credential_mode environ in
      if not (one_of mode (azure_cli_mode ∷ default_mode ∷ []))
      then err (runtime_error unsupported_credential_mode)
      else if is_ci environ && not (str_eq mode azure_cli_mode)
      then err (runtime_error cli_credential_required_in_ci)
      else if str_eq mode azure_cli_mode
      then ok sdk.cli_credential
      else ok (sdk.default_credential true true)

  unfoldable pub create_azure_credential : Environ → Exec W C
  create_azure_credential environ = do
    credential ← lift (choose_credential environ)
    rescue (sdk.get_token credential management_scope)
        (λ exn. raise (runtime_error no_management_token))
    pure credential

  unfoldable pub create_ml_client : Environ → Text → Text → Text → Exec W M
  create_ml_client environ subscription_id resource_group workspace_name = do
    credential ← create_azure_credential environ
    pure (sdk.workspace_client credential subscription_id resource_group workspace_name)

  abbrev from_credential : Text → Option C → Result M
  from_credential registry_name none = err (runtime_error no_client_credential)
  from_credential registry_name (some credential) =
      ok (sdk.registry_client credential registry_name)

  unfoldable pub create_registry_ml_client : M → Text → Result M
  create_registry_ml_client workspace_client registry_name =
      from_credential registry_name (sdk.credential_of workspace_client)
