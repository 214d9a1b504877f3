-- ===== src/Client/Checks.antt =====
-- The checks of src/python-sdk-v2/aml_client.py on what the workspace already holds:
-- `get_registered_model`, `get_kubernetes_online_compute` and `get_prebuilt_environment`. The three
-- lookups of the SDK are parameters; whatever they raise is turned into RuntimeError.
pub mod Found
pub mod Online
pub mod Kept
mod Tests
use mlops_templates.Prelude.{
  ℕ, zero, suc, Bool, true, false, not, ◌&&◌, ◌||◌, Option, none, some, List, [], ◌∷◌, ◌==◌,
  if◌then◌else◌, any,
}
use mlops_templates.Text.{
  Text, str, str_eq, is_empty, strip, lower, or_empty, or_none, truthy, strip_prefix, ends_with,
  is_hex,
}
use mlops_templates.Outcome.{
  Exn, Result, ok, err, Exec, pure, raise, lift, rescue, raise_if, ◌>>=◌, ◌>>◌, runtime_error,
  model_not_found, model_not_mlflow, compute_not_found, compute_not_kubernetes,
  compute_cluster_unsupported, compute_not_ready, compute_namespace_default,
  compute_identity_missing, environment_not_found, environment_not_by_digest,
  environment_builds_image,
}
use mlops_templates.Pattern.{ignoring_case, after_literal}
use mlops_templates.Azure.{Model, Compute, ComputeIdentity, Environment, Build, text_of}
use mlops_templates.Client.Wait.States.{is_success_state}

-- `part in s`
unfoldable pub contains : Text → Text → Bool
unfolding strip_prefix
contains part [] = is_empty part
contains part (c ∷ s) =
    (elim (strip_prefix part (c ∷ s)) [ none ↦ false | some rest ↦ true ]) || contains part s

-- `s.replace("_", "")`
unfoldable pub without_underscores : Text → Text
without_underscores [] = []
without_underscores (c ∷ s) =
    let rest = without_underscores s in if c == b'_' then rest else c ∷ rest

-- `n` hexadecimal digits, then `$`: the end, or a line feed before it
unfoldable pub hex_to_end : ℕ → Text → Bool
unfolding is_hex
hex_to_end zero [] = true
hex_to_end zero (c ∷ []) = c == 10
hex_to_end zero (c ∷ d ∷ s) = false
hex_to_end (suc n) [] = false
hex_to_end (suc n) (c ∷ s) = is_hex c && hex_to_end n s

abbrev digest_at : Text → Bool
digest_at s = elim (after_literal ignoring_case (str "@sha256:") s) [
  | none ↦ false
  | some rest ↦ hex_to_end 64 rest
]

-- `IMAGE_DIGEST_PATTERN.search(s)`
unfoldable pub has_image_digest : Text → Bool
unfolding after_literal ignoring_case hex_to_end
has_image_digest [] = false
has_image_digest (c ∷ s) = digest_at (c ∷ s) || has_image_digest s

abbrev pub supported_cluster_resource_types : List Text
supported_cluster_resource_types =
    str "/providers/microsoft.containerservice/managedclusters/"
    ∷ str "/providers/microsoft.kubernetes/connectedclusters/"
    ∷ []

abbrev identity_type : Option ComputeIdentity → Text
identity_type none = []
identity_type (some identity) = text_of identity.type

abbrev has_identities : Option ComputeIdentity → Bool
has_identities none = false
has_identities (some identity) = elim identity.user_assigned_identities [
  | [] ↦ false
  | ◌∷◌ i is ↦ true
]

unfoldable pub is_user_assigned : Option ComputeIdentity → Bool
is_user_assigned identity =
    ends_with (str "userassigned") (without_underscores (lower (identity_type identity)))
    && has_identities identity

unfoldable pub is_supported_cluster : Option Text → Bool
is_supported_cluster resource_id =
    any (λ part. contains part (lower (or_empty resource_id))) supported_cluster_resource_types

unfoldable pub is_default_namespace : Text → Bool
is_default_namespace namespace = is_empty namespace || str_eq namespace (str "default")

-- The guards on a compute that was found, in the order of the source.
pub check_compute : Compute → Result (Unit {0})
check_compute compute =
    if not (str_eq (lower (text_of compute.type)) (str "kubernetes"))
    then err (runtime_error compute_not_kubernetes)
    else if not (is_supported_cluster compute.resource_id)
    then err (runtime_error compute_cluster_unsupported)
    else if not (is_success_state (text_of compute.provisioning_state))
    then err (runtime_error compute_not_ready)
    else if is_default_namespace (strip (text_of compute.namespace))
    then err (runtime_error compute_namespace_default)
    else if not (is_user_assigned compute.identity)
    then err (runtime_error compute_identity_missing)
    else ok tt

unfoldable pub check_model : Bool → Model → Result (Unit {0})
check_model require_mlflow model =
    raise_if (require_mlflow && not (str_eq (lower (or_none model.type)) (str "mlflow_model")))
      (runtime_error model_not_mlflow)

-- `build is not None`
abbrev is_given : Option Build → Bool
is_given none = false
is_given (some build) = true

pub check_environment : Environment → Result (Unit {0})
check_environment environment =
    if not (has_image_digest (or_empty environment.image))
    then err (runtime_error environment_not_by_digest)
    else if is_given environment.build || truthy environment.conda_file
    then err (runtime_error environment_builds_image)
    else ok tt

module _ {W : Type 0} where
  -- `ml_client.models.get(name=…, version=…)`
  module _ (get_model : Text → Text → Exec W Model) where
    unfoldable pub get_registered_model : Text → Text → Bool → Exec W Model
    get_registered_model name version require_mlflow = do
      model ← rescue (get_model name version) (λ exn. raise (runtime_error model_not_found))
      lift (check_model require_mlflow model)
      pure model

  -- `ml_client.compute.get(compute_name)`
  module _ (get_compute : Text → Exec W Compute) where
    pub get_kubernetes_online_compute : Text → Exec W Compute
    get_kubernetes_online_compute name = do
      compute ← rescue (get_compute name) (λ exn. raise (runtime_error compute_not_found))
      lift (check_compute compute)
      pure compute

  -- `ml_client.environments.get(name=…, version=…)`
  module _ (get_environment : Text → Text → Exec W Environment) where
    pub get_prebuilt_environment : Text → Text → Exec W Environment
    get_prebuilt_environment name version = do
      environment ←
          rescue (get_environment name version) (λ exn. raise (runtime_error environment_not_found))
      lift (check_environment environment)
      pure environment
