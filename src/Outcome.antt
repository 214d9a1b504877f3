-- ===== src/Outcome.antt =====
-- Python exceptions as values: a call that may raise returns a `Result`, and one that also acts on
-- the world (the Azure services, the file system, the clock, the terminal) is an `Exec`, whose
-- world comes back beside an exception too.
pub mod Pure
pub mod Laws
pub mod Keeps
pub mod Raises
use mathlib.Core.Bool.{Bool, true, false}

-- One constructor for each `raise` statement of the functions that are modelled.
pub data Reason : Type 0 where
  max_state_polls_too_small max_update_attempts_too_small update_blocked : Reason
  provisioning_failed no_terminal_state : Reason
  unsupported_credential_mode cli_credential_required_in_ci no_management_token : Reason
  no_client_credential : Reason
  no_ca_bundle ca_bundle_missing ca_bundle_invalid : Reason
  malformed_identity : Reason
  model_not_found model_not_mlflow : Reason
  compute_not_found compute_not_kubernetes compute_cluster_unsupported : Reason
  compute_not_ready compute_namespace_default compute_identity_missing : Reason
  environment_not_found environment_not_by_digest environment_builds_image : Reason
  reference_empty reference_mutable reference_not_registry : Reason
  reference_registry_unsafe reference_environment_unsafe : Reason
  registry_environment_not_found scope_subscription_invalid : Reason
  scope_resource_group_unsafe scope_registry_unsafe scope_environment_unsafe : Reason
  scope_registry_differs scope_full_id_differs scope_id_unusable : Reason
  returned_id_differs returned_full_id_differs : Reason
  workspace_name_empty : Reason
  blob_outside_prefix blob_path_unsafe : Reason
  listing_not_xml listing_paginated listing_duplicate listing_bad_metadata : Reason
  file_too_large bad_md5_length total_too_large too_many_files no_files : Reason
  invalid_content_length exceeds_size_bound content_length_differs request_failed : Reason
  provenance_conflict workspace_collision workspace_id_differs : Reason
  sdk_not_installed sdk_version_differs sdk_helper_missing : Reason
  source_uri_invalid source_container_unsafe source_prefix_unsafe : Reason
  registry_internals_missing storage_access_failed not_container_sas : Reason
  sas_invalid sas_container_differs : Reason
  blob_length_differs response_md5_differs md5_differs : Reason
  build_source_unsafe dockerfile_missing existing_not_build created_not_build : Reason
  build_conflict image_conflict source_unsupported : Reason
  job_failed : Reason
  image_not_by_digest existing_image_differs created_image_differs : Reason
  root_missing code_not_relative script_not_relative code_not_dedicated code_from_sdk : Reason
  code_outside_root code_missing script_outside_code script_missing : Reason
  live_environment_differs manifest_invalid live_provenance_differs : Reason
  live_code_missing live_script_differs : Reason

pub data Exn : Type 0 where
  runtime_error value_error timeout_error argument_type_error : Reason → Exn
  assertion_error : Exn
  -- azure.core.exceptions
  resource_exists resource_not_found : Exn
  -- OSError and its subclasses
  os_error : Exn
  -- any other exception that a library raises
  other : Exn

pub data Result {ℓ} (Found : Type ℓ) : Type ℓ where
  ok : Found → Result Found
  err : Exn → Result Found

abbrev pub Exec : Type 0 → Type 0 → Type 0
Exec W A = W → Result A × W

-- `if test: raise exn`
abbrev pub raise_if : Bool → Exn → Result (Unit {0})
raise_if true exn = err exn
raise_if false exn = ok tt

module _ {W A : Type 0} where
  abbrev pub pure : A → Exec W A
  pure a w = (ok a, w)

  abbrev pub raise : Exn → Exec W A
  raise exn w = (err exn, w)

  abbrev pub lift : Result A → Exec W A
  lift r w = (r, w)

  -- `try: m  except Exception: handler`, the handler by the exception's class
  abbrev pub handle : (Exn → Exec W A) → Result A × W → Result A × W
  handle handler (ok a, w) = (ok a, w)
  handle handler (err exn, w) = handler exn w

  abbrev pub rescue : Exec W A → (Exn → Exec W A) → Exec W A
  rescue m handler w = handle handler (m w)

-- `print` and `time.sleep` return nothing and do not raise.
abbrev pub act : {W : Type 0} → (W → W) → Exec W (Unit {0})
act f w = (ok tt, f w)

abbrev pub continue : {W A B : Type 0} → (A → Exec W B) → Result A × W → Result B × W
continue f (ok a, w) = f a w
continue f (err exn, w) = (err exn, w)

infixl 5 ◌>>=◌ ◌>>◌
abbrev pub ◌>>=◌ : {W A B : Type 0} → Exec W A → (A → Exec W B) → Exec W B
◌>>=◌ m f w = continue f (m w)

abbrev pub ◌>>◌ : {W B : Type 0} → Exec W (Unit {0}) → Exec W B → Exec W B
m >> k = m >>= λ _. k

-- What a caller sees of a run.
abbrev pub result : {W A : Type 0} → Result A × W → Result A
result (r, w) = r

abbrev pub world : {W A : Type 0} → Result A × W → W
world (r, w) = w
