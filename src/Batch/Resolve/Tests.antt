-- ===== src/Batch/Resolve/Tests.antt =====
-- The import of an environment that is built from two files.
use mlops_templates.Prelude.{◌≡◌, refl, some, none, [], ◌∷◌}
use mlops_templates.Text.{
  Text, str, str_eq, strip, strip_prefix, digit_value, lower, is_digit, ends_with, is_ascii_digit,
  lower_char, drop_while, drop_end_while,
}
use mlops_templates.Outcome.{ok}
use mlops_templates.Numeral.{int_of}
use mlops_templates.Pattern.{ignoring_case, after_literal, span, fullmatch}
use mlops_templates.Posix.{parts, is_absolute, as_posix}
use mlops_templates.Azure.{Environment, BatchDeployment}
use mlops_templates.Client.Credential.{create_registry_ml_client}
use mlops_templates.Batch.Reference.{
  RegistryReference, parse_registry_environment_reference, is_full_environment_id,
  environment_matches, rstrip_slash,
}
use mlops_templates.Batch.Reference.Patterns.{
  is_subscription_id, is_arm_name, is_segment_char, is_container_name, is_name_char,
}
use mlops_templates.Batch.Naming.{workspace_environment_name, raw_name, safe_name}
use mlops_templates.Batch.Naming.Bounds.{IsHexDigest}
use mlops_templates.Batch.BlobPath.{is_unsafe, safe_blob_relative_path}
use mlops_templates.Batch.Listing.{
  path_eq, text_leb, sort_entries, read_blob, listing_loop, listing_entries,
}
use mlops_templates.Batch.Provenance.{
  lookup, registry_provenance, environment_properties, collect_keys, environment_provenance,
  differs, validate_workspace_environment,
}
use mlops_templates.Batch.RegistryEnvironment.{
  Found, check_names, check_scope, check_ids, resolved_id, get_parsed, get_registry_environment,
}
use mlops_templates.Batch.Request.{declared_length, check_body, read_bounded, request_bytes}
use mlops_templates.Batch.Source.{
  joined, is_unsafe_prefix, path_parts, safe_source_prefix, dict_insert, dict_update,
  url_with_query, trusted_url,
}
use mlops_templates.Batch.Source.Access.{validate_sdk_registry_helper, authenticated_container_url}
use mlops_templates.Batch.Import.{find_or_create}
use mlops_templates.Batch.Download.{
  parent, check_blob, blob_url, manifest_entry, download_blob, download_blobs,
  download_registry_build_context,
}
use mlops_templates.Batch.BuildImport.{
  check_build_import, import_build, materialize_build, within_directory, is_unsafe_build,
}
use mlops_templates.Batch.Live.{entity, verify_live_deployment}
use mlops_templates.Batch.Live.Verified.{HasScript}
use mlops_templates.Batch.Resolve.{
  materialize, materialize_build_environment, resolve_parsed, resolve_batch_environment,
}
use mlops_templates.Batch.Resolve.Resolved.{IsResolved, resolve_batch_environment-IsResolved}
use mlops_templates.Batch.Resolve.Accepted.{verify_live_deployment-resolved}
use mlops_templates.Batch.Fixture.{World, start, copies, platform, requested, saved, built}

abbrev imported : Environment
imported = saved (record {
  name = some (str "registry-r-e");
  version = some (str "7");
  id = none;
  image = none;
  conda_file = none;
  build = some (record { path = some (str "/tmp"); dockerfile_path = some (str "x/a") });
  tags = some (registry_provenance (str "r") (str "e") (str "7") requested (copies b'0' 64));
  properties = some (registry_provenance (str "r") (str "e") (str "7") requested (copies b'0' 64));
})

abbrev ref : RegistryReference
ref = record {
  subscription_id = none;
  resource_group = none;
  registry_name = str "r";
  environment_name = str "e";
  version = str "7";
}

parsed : parse_registry_environment_reference requested ≡ some ref
unfolding parse_registry_environment_reference fullmatch after_literal span ignoring_case
    is_segment_char is_digit lower
parsed = refl

abbrev located : Found Text
located = record {
  registry_client = str "r";
  environment = built;
  registry_name = str "r";
  environment_name = str "e";
  version = str "7";
  resolved_id =
      str
        "/subscriptions/01234567-0123-0123-0123-0123456789ab/resourceGroups/rg/providers/Microsoft.MachineLearningServices/registries/r/environments/e/versions/7";
}

found :
    get_registry_environment platform.sdk platform.registry (str "client") requested start
    ≡ (ok located, start)
unfolding get_registry_environment get_parsed parse_registry_environment_reference check_names
    check_scope check_ids resolved_id create_registry_ml_client is_subscription_id is_arm_name
    is_full_environment_id environment_matches rstrip_slash fullmatch after_literal span
    ignoring_case is_segment_char is_digit lower ends_with str_eq
found = refl

named :
    workspace_environment_name platform.digests.sha256_hex (str "r") (str "e")
    ≡ ok (str "registry-r-e")
unfolding workspace_environment_name raw_name safe_name lower_char drop_while drop_end_while
named = refl

abbrev downloaded : World
downloaded = record start {
  written = (str "tmp" ∷ str "x" ∷ str "a" ∷ []) ∷ (str "tmp" ∷ str "b" ∷ []) ∷ [];
}

downloads :
    download_registry_build_context platform.urls platform.digests platform.disk platform.http
      platform.decoders platform.storage
      (str "r")
      (str "r")
      (str "e")
      (str "7")
      (str "source")
      (str "tmp" ∷ [])
      start
    ≡ (ok (copies b'0' 64, str "b" ∷ str "x/a" ∷ []), downloaded)
unfolding download_registry_build_context authenticated_container_url validate_sdk_registry_helper
    trusted_url safe_source_prefix path_parts joined is_unsafe_prefix is_container_name parts
    is_absolute as_posix rstrip_slash lower url_with_query dict_insert dict_update request_bytes
    read_bounded declared_length check_body listing_entries listing_loop read_blob
    safe_blob_relative_path str_eq strip_prefix is_unsafe path_eq int_of strip digit_value
    sort_entries text_leb download_blobs download_blob check_blob blob_url manifest_entry parent
downloads = refl

abbrev after : World
after = record start { environment = some imported }

imports :
    materialize_build_environment platform
      (str "client")
      (str "r")
      built
      (str "r")
      (str "e")
      (str "7")
      requested
      (str "registry-r-e")
      start
    ≡ (ok imported, after)
unfolding materialize_build_environment materialize_build is_unsafe_build within_directory
    import_build find_or_create check_build_import parts is_absolute as_posix str_eq
    validate_workspace_environment environment_provenance environment_properties collect_keys
    differs registry_provenance lookup environment_matches rstrip_slash fullmatch after_literal span
    ignoring_case is_name_char is_segment_char is_digit lower ends_with
imports = rw downloads refl

resolves :
    resolve_batch_environment platform (str "client") requested start
    ≡ (ok (entity imported), after)
unfolding resolve_batch_environment resolve_parsed materialize
resolves = rw (parsed, found, named, imports) refl

resolve_batch_environment-IsResolved_example :
    IsResolved platform
      (str "client")
      requested
      (parse_registry_environment_reference requested)
      start
      (entity imported)
      after
resolve_batch_environment-IsResolved_example =
    resolve_batch_environment-IsResolved platform (str "client") requested start after
      (entity imported) resolves

abbrev deployment : BatchDeployment
deployment = record {
  provisioning_state = some (str "Succeeded");
  environment = imported.id;
  code_configuration =
      some (record { code = some (str "/code/1"); scoring_script = some (str "./score.py") });
}

digest-IsHexDigest : (s : Text) → IsHexDigest (platform.digests.sha256_hex s)
unfolding is_ascii_digit
digest-IsHexDigest s = record { count = refl; digits = refl }

script : HasScript (str "score.py") deployment.code_configuration
unfolding as_posix parts is_absolute str_eq
script = (refl, refl)

verify_live_deployment-resolved_example :
    verify_live_deployment deployment (entity imported) requested (str "score.py") ≡ ok tt
verify_live_deployment-resolved_example =
    verify_live_deployment-resolved platform (str "client") requested (str "score.py") deployment
      script digest-IsHexDigest refl start after (entity imported) refl resolves
