-- ===== src/Batch/Source/Access/Trusted.antt =====
-- What `_authenticated_container_url` returns.
use mlops_templates.Prelude.{◌≡◌, not, ◌||◌, arith, ap, Option, none, some}
use mlops_templates.Text.{Text, is_empty, or_empty}
use mlops_templates.Text.Laws.{str_eq→eq}
use mlops_templates.Outcome.{
  ok, lift, runtime_error, registry_internals_missing, storage_access_failed,
}
use mlops_templates.Outcome.Laws.{lift-continue, rescue-continue, if_raise-eq-ok, lift-eq-ok}
use mlops_templates.Batch.Source.{Urls, trusted_url}
use mlops_templates.Batch.Source.Safe.{IsTrusted, trusted_url-IsTrusted}
use mlops_templates.Batch.Source.Access.{
  Storage, Helper, supported_azure_ai_ml_version, with_version, validate_sdk_registry_helper,
  authenticated_container_url,
}

with_version-eq-ok :
    {W M : Type 0} (helper : Option (Helper W M)) (version : Option Text) {found : Helper W M}
    → with_version helper version ≡ ok found
    → (helper ≡ some found) × (version ≡ some supported_azure_ai_ml_version)
with_version-eq-ok helper none e = absurd (ground arith)
with_version-eq-ok none (some version) e = absurd (ground arith)
with_version-eq-ok (some helper) (some version) e =
    (ground arith, ap some (str_eq→eq version supported_azure_ai_ml_version (ground arith)))

pub validate_sdk_registry_helper-eq-ok :
    {W M : Type 0} (storage : Storage W M) {found : Helper W M}
    → validate_sdk_registry_helper storage ≡ ok found
    → (storage.helper ≡ some found) × (storage.package_version ≡ some supported_azure_ai_ml_version)
unfolding validate_sdk_registry_helper
validate_sdk_registry_helper-eq-ok storage e =
    with_version-eq-ok storage.helper storage.package_version e

module _ {W M : Type 0} (urls : Urls) (storage : Storage W M) where
  -- A URL and a prefix that `_authenticated_container_url` returns are trusted. The URL is the one
  -- that the helper of the supported package answered for the registry, the environment and its
  -- version, with SAS access: an HTTPS URL with a query, on the host of the source URI and for the
  -- container that is the first non-empty part of its path, unquoted. The prefix is made of the parts behind
  -- that one, a relative path without two dots, and ends in a slash.
  pub authenticated_container_url-IsTrusted :
      (client : M) (registry_name environment_name version source_uri : Text) (w u : W)
      (url prefix : Text)
      → authenticated_container_url urls storage client registry_name environment_name version
          source_uri w
        ≡ (ok (url, prefix), u)
      → (helper : Helper W M) × (storage_uri : Text) × (credential_type : Text) × (storage.helper
          ≡ some helper)
        × (storage.package_version ≡ some supported_azure_ai_ml_version)
        × (helper client environment_name version
              (or_empty (storage.scope client).resource_group_name)
              registry_name
              source_uri
              w
            ≡ (ok (storage_uri, credential_type), u))
        × IsTrusted urls source_uri storage_uri credential_type url prefix
  unfolding authenticated_container_url validate_sdk_registry_helper
  authenticated_container_url-IsTrusted client registry_name environment_name version source_uri w u
        url prefix e =
      let (helper, e0, h0) = lift-continue _ (validate_sdk_registry_helper storage) w e in
      let (has_helper, has_version) = validate_sdk_registry_helper-eq-ok storage e0 in
      let (_, h1) =
        if_raise-eq-ok
          (not (storage.has_service_client client)
            || is_empty (or_empty (storage.scope client).resource_group_name))
          (runtime_error registry_internals_missing) _ w h0 in
      let (answer, v, asked, h2) =
        rescue-continue (λ (x : Text × Text). lift (trusted_url urls source_uri x.0 x.1))
          (runtime_error storage_access_failed)
          (helper client environment_name version
            (or_empty (storage.scope client).resource_group_name) registry_name source_uri w)
          h1 in
      let (trusted, same) = lift-eq-ok (trusted_url urls source_uri answer.0 answer.1) v h2 in
      (
        helper,
        answer.0,
        answer.1,
        has_helper,
        has_version,
        rw same at asked,
        trusted_url-IsTrusted urls source_uri answer.0 answer.1 url prefix trusted,
      )
