-- ===== src/Batch/Source/Access.antt =====
-- `_validate_sdk_registry_helper` and `_authenticated_container_url` of
-- src/python-sdk-v2/create_batch_deployment.py.
pub mod Trusted
pub mod Kept
use mlops_templates.Prelude.{Bool, true, false, not, ◌||◌, Option, none, some, if◌then◌else◌}
use mlops_templates.Text.{Text, str, str_eq, is_empty, or_empty}
use mlops_templates.Outcome.{
  Exn, Result, ok, err, Exec, pure, raise, lift, rescue, ◌>>=◌, runtime_error, sdk_not_installed,
  sdk_version_differs, sdk_helper_missing, registry_internals_missing, storage_access_failed,
}
use mlops_templates.Batch.RegistryEnvironment.{Scope}
use mlops_templates.Batch.Source.{Urls, trusted_url}

abbrev pub supported_azure_ai_ml_version : Text
supported_azure_ai_ml_version = str "1.30.0"

-- `get_storage_details_for_registry_assets`, by the registry client that has the service client,
-- and the name, version, resource group, registry and URI. It returns a URI and a type of
-- credential.
abbrev pub Helper : Type 0 → Type 0 → Type 0
Helper W M = M → Text → Text → Text → Text → Text → Exec W (Text × Text)

-- What is read of the azure-ai-ml package: its version, none where it is not installed; the helper,
-- none where it cannot be imported; and what the environments of a registry client hold.
pub record Storage (W M : Type 0) : Type 0 where
  pub package_version : Option Text
  pub helper : Option (Helper W M)
  pub has_service_client : M → Bool
  pub scope : M → Scope

abbrev callable : {W M : Type 0} → Option (Helper W M) → Result (Helper W M)
callable none = err (runtime_error sdk_helper_missing)
callable (some helper) = ok helper

abbrev with_version : {W M : Type 0} → Option (Helper W M) → Option Text → Result (Helper W M)
with_version helper none = err (runtime_error sdk_not_installed)
with_version helper (some version) =
    if not (str_eq version supported_azure_ai_ml_version)
    then err (runtime_error sdk_version_differs)
    else callable helper

-- The helper, once its package was found to be the supported one.
unfoldable pub validate_sdk_registry_helper : {W M : Type 0} → Storage W M → Result (Helper W M)
validate_sdk_registry_helper storage = with_version storage.helper storage.package_version

module _ {W M : Type 0} (urls : Urls) (storage : Storage W M) where
  unfoldable pub authenticated_container_url : M → Text → Text → Text → Text → Exec W (Text × Text)
  authenticated_container_url registry_client registry_name environment_name version source_uri = do
    helper ← lift (validate_sdk_registry_helper storage)
    let resource_group = or_empty (storage.scope registry_client).resource_group_name
    if not (storage.has_service_client registry_client) || is_empty resource_group
        then raise (runtime_error registry_internals_missing)
        else (do
          (storage_uri, credential_type) ←
              rescue
                (helper registry_client environment_name version resource_group registry_name
                  source_uri)
                (λ exn. raise (runtime_error storage_access_failed))
          lift (trusted_url urls source_uri storage_uri credential_type))
