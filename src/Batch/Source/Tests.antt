-- ===== src/Batch/Source/Tests.antt =====
-- The access to the container of a build context, and an access that is of another container.
use mlops_templates.Prelude.{◌≡◌, refl, some, [], if◌then◌else◌}
use mlops_templates.Text.{Text, str, str_eq, or_empty, lower}
use mlops_templates.Outcome.{Result, ok, err, runtime_error, sas_container_differs}
use mlops_templates.Posix.{parts, is_absolute, as_posix}
use mlops_templates.Batch.Reference.{rstrip_slash}
use mlops_templates.Batch.Reference.Patterns.{is_container_name}
use mlops_templates.Batch.Source.{
  Urls, joined, is_unsafe_prefix, path_parts, safe_source_prefix, trusted_url,
}
use mlops_templates.Batch.Source.Safe.{IsTrusted}
use mlops_templates.Batch.Source.Access.{
  Helper, supported_azure_ai_ml_version, validate_sdk_registry_helper, authenticated_container_url,
}
use mlops_templates.Batch.Source.Access.Trusted.{authenticated_container_url-IsTrusted}
use mlops_templates.Batch.Fixture.{World, start, urls, storage}

abbrev access : Urls → Result (Text × Text) × World
access urls =
    authenticated_container_url urls storage (str "client") (str "r") (str "e") (str "7")
      (str "source") start

granted : access urls ≡ (ok (str "/box", str "p/"), start)
unfolding authenticated_container_url validate_sdk_registry_helper trusted_url safe_source_prefix
    path_parts joined is_unsafe_prefix is_container_name parts is_absolute as_posix rstrip_slash
    lower str_eq
granted = refl

abbrev path_of : Text → Text
path_of s =
    if str_eq s (str "source")
    then str "/box/p"
    else if str_eq s (str "sas")
    then str "/other"
    else str "/box"

-- The signed URL is one of the container `other`.
abbrev elsewhere : Urls
elsewhere = record urls {
  urlsplit = λ s. ok (record {
    scheme = str "https";
    netloc = str "host";
    path = path_of s;
    query = if str_eq s (str "sas") then str "sig" else [];
    fragment = [];
  });
}

refused : access elsewhere ≡ (err (runtime_error sas_container_differs), start)
unfolding authenticated_container_url validate_sdk_registry_helper trusted_url safe_source_prefix
    path_parts joined is_unsafe_prefix is_container_name parts is_absolute as_posix rstrip_slash
    lower str_eq
refused = refl

authenticated_container_url-IsTrusted_example :
    (helper : Helper World Text) × (storage_uri : Text) × (credential_type : Text) × (storage.helper
      ≡ some helper)
    × (storage.package_version ≡ some supported_azure_ai_ml_version)
    × (helper
          (str "client")
          (str "e")
          (str "7")
          (or_empty (storage.scope (str "client")).resource_group_name)
          (str "r")
          (str "source")
          start
        ≡ (ok (storage_uri, credential_type), start))
    × IsTrusted urls (str "source") storage_uri credential_type (str "/box") (str "p/")
authenticated_container_url-IsTrusted_example =
    authenticated_container_url-IsTrusted urls storage (str "client") (str "r") (str "e") (str "7")
      (str "source") start start (str "/box") (str "p/") granted
