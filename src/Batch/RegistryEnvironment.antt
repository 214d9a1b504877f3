-- ===== src/Batch/RegistryEnvironment.antt =====
-- `_get_registry_environment` of src/python-sdk-v2/create_batch_deployment.py.
pub mod Located
pub mod Usable
pub mod Kept
mod Tests
use mlops_templates.Prelude.{Bool, true, false, not, ◌&&◌, ◌||◌, Option, none, some, if◌then◌else◌}
use mlops_templates.Text.{Text, str_eq, is_empty, lower, or_empty, or_none}
use mlops_templates.Outcome.{
  Exn, Result, ok, err, Exec, pure, raise, lift, rescue, ◌>>=◌, ◌>>◌, runtime_error,
  reference_not_registry, reference_registry_unsafe, reference_environment_unsafe,
  registry_environment_not_found, scope_subscription_invalid, scope_resource_group_unsafe,
  scope_registry_unsafe, scope_environment_unsafe, scope_registry_differs, scope_full_id_differs,
  scope_id_unusable, returned_id_differs, returned_full_id_differs,
}
use mlops_templates.Azure.{Environment}
use mlops_templates.Client.Credential.{Sdk, create_registry_ml_client}
use mlops_templates.Batch.Reference.{
  RegistryReference, parse_registry_environment_reference, is_full_environment_id,
  environment_matches, rstrip_slash,
}
use mlops_templates.Batch.Reference.Patterns.{is_subscription_id, is_arm_name}
use mlops_templates.Batch.Reference.Parsing.{full_id_text}

-- `registry_client.environments._operation_scope`, by its attributes; all of them none where it is
-- missing.
pub record Scope : Type 0 where
  pub subscription_id : Option Text
  pub resource_group_name : Option Text
  pub registry_name : Option Text

-- What the registry client answers.
pub record Registry (W M : Type 0) : Type 0 where
  -- registry_client.environments.get(name=…, version=…)
  pub get : M → Text → Text → Exec W Environment
  pub scope : M → Scope

-- The tuple that is returned.
pub record Found (M : Type 0) : Type 0 where
  pub registry_client : M
  pub environment : Environment
  pub registry_name : Text
  pub environment_name : Text
  pub version : Text
  pub resolved_id : Text

-- a == b, in lower case
abbrev pub same : Text → Text → Bool
same a b = str_eq (lower a) (lower b)

unfoldable pub check_names : RegistryReference → Result (Unit {0})
check_names reference =
    if not (is_arm_name reference.registry_name)
    then err (runtime_error reference_registry_unsafe)
    else if not (is_arm_name reference.environment_name)
    then err (runtime_error reference_environment_unsafe)
    else ok tt

-- `requested_subscription_id and (…)`
abbrev differs_from_full_id : RegistryReference → Scope → Bool
differs_from_full_id reference scope =
    not (is_empty (or_empty reference.subscription_id))
    && (not (same (or_empty scope.subscription_id) (or_empty reference.subscription_id))
        || not (same (or_empty scope.resource_group_name) (or_none reference.resource_group)))

unfoldable pub check_scope : RegistryReference → Scope → Result (Unit {0})
check_scope reference scope =
    if not (is_subscription_id (or_empty scope.subscription_id))
    then err (runtime_error scope_subscription_invalid)
    else if not (is_arm_name (or_empty scope.resource_group_name))
    then err (runtime_error scope_resource_group_unsafe)
    else if not (is_arm_name (or_empty scope.registry_name))
    then err (runtime_error scope_registry_unsafe)
    else if not (is_arm_name reference.environment_name)
    then err (runtime_error scope_environment_unsafe)
    else if not (same (or_empty scope.registry_name) reference.registry_name)
    then err (runtime_error scope_registry_differs)
    else if differs_from_full_id reference scope
    then err (runtime_error scope_full_id_differs)
    else ok tt

unfoldable pub resolved_id : RegistryReference → Scope → Text
resolved_id reference scope =
    full_id_text (or_empty scope.subscription_id) (or_empty scope.resource_group_name)
      (or_empty scope.registry_name) reference.environment_name reference.version

-- The three comparisons with what the returned ID is parsed into.
abbrev agrees : RegistryReference → Option RegistryReference → Bool
agrees reference none = false
agrees reference (some returned) =
    same returned.registry_name reference.registry_name
    && same returned.environment_name reference.environment_name
    && str_eq returned.version reference.version

unfoldable pub check_ids : Text → RegistryReference → Text → Text → Result (Unit {0})
check_ids requested reference resolved environment_id =
    if not (is_full_environment_id resolved) || not (environment_matches requested resolved)
    then err (runtime_error scope_id_unusable)
    else if is_empty environment_id
        || not (agrees reference (parse_registry_environment_reference environment_id))
    then err (runtime_error returned_id_differs)
    else if is_full_environment_id environment_id && not (same environment_id resolved)
    then err (runtime_error returned_full_id_differs)
    else ok tt

module _ {W C M : Type 0} (sdk : Sdk W C M) (registry : Registry W M) where
  unfoldable pub get_parsed : M → Text → RegistryReference → Exec W (Found M)
  get_parsed ml_client requested reference = do
    lift (check_names reference)
    registry_client ← lift (create_registry_ml_client sdk ml_client reference.registry_name)
    environment ←
        rescue (registry.get registry_client reference.environment_name reference.version)
          (λ exn. raise (runtime_error registry_environment_not_found))
    let scope = registry.scope registry_client
    lift (check_scope reference scope)
    let resolved = resolved_id reference scope
    lift (check_ids requested reference resolved (rstrip_slash (or_empty environment.id)))
    pure (record {
      registry_client = registry_client;
      environment = environment;
      registry_name = reference.registry_name;
      environment_name = reference.environment_name;
      version = reference.version;
      resolved_id = resolved;
    })

  abbrev get_if_parsed : M → Text → Option RegistryReference → Exec W (Found M)
  get_if_parsed ml_client requested none = raise (runtime_error reference_not_registry)
  get_if_parsed ml_client requested (some reference) = get_parsed ml_client requested reference

  unfoldable pub get_registry_environment : M → Text → Exec W (Found M)
  get_registry_environment ml_client requested =
      get_if_parsed ml_client requested (parse_registry_environment_reference requested)
