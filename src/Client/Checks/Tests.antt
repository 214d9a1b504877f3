-- ===== src/Client/Checks/Tests.antt =====
-- The checks on a compute, a model and an environment that pass, and on one that does not.
use mlops_templates.Prelude.{ℕ, ◌≡◌, ◌↔◌, refl, Bool, true, false, none, some, [], ◌∷◌}
use mlops_templates.Text.{Text, str, str_eq, lower, strip, or_none, ends_with}
use mlops_templates.Outcome.{Result, ok, err, runtime_error, compute_namespace_default}
use mlops_templates.Azure.{Model, Compute, Environment, null, text}
use mlops_templates.Client.Wait.States.{is_success_state}
use mlops_templates.Client.Checks.{
  contains, without_underscores, is_user_assigned, is_supported_cluster, is_default_namespace,
  has_image_digest, check_compute, get_registered_model, get_kubernetes_online_compute,
}
use mlops_templates.Client.Checks.Online.{
  IsOnline, get_kubernetes_online_compute_iff, get_registered_model_iff,
}

abbrev cluster : Compute
cluster = record {
  type = text (str "Kubernetes");
  resource_id = some (str "/x/providers/Microsoft.ContainerService/managedClusters/aks");
  provisioning_state = text (str "Succeeded");
  namespace = text (str "scoring");
  identity =
      some (record { type = text (str "user_assigned"); user_assigned_identities = str "id" ∷ [] });
}

cluster_passes : check_compute cluster ≡ ok tt
unfolding check_compute str_eq lower is_supported_cluster contains is_success_state
    is_default_namespace strip is_user_assigned without_underscores ends_with
cluster_passes = refl

abbrev shared : Compute
shared = record cluster { namespace = text (str " default ") }

shared_fails : check_compute shared ≡ err (runtime_error compute_namespace_default)
unfolding check_compute str_eq lower is_supported_cluster contains is_success_state
    is_default_namespace strip is_user_assigned without_underscores ends_with
shared_fails = refl

-- A namespace that is None reads as the text "None", which is not the default one.
unnamed_passes : check_compute (record cluster { namespace = null }) ≡ ok tt
unfolding check_compute str_eq lower is_supported_cluster contains is_success_state
    is_default_namespace strip is_user_assigned without_underscores ends_with
unnamed_passes = refl

abbrev digest : Text
digest = str "r.io/i@sha256:0123456789abcdef0123456789abcdef0123456789abcdef0123456789ABCDEF"

digest_found : has_image_digest digest ≡ true
unfolding has_image_digest
digest_found = refl

digest_cut : has_image_digest (str "r.io/i@sha256:0123456789abcdef") ≡ false
unfolding has_image_digest
digest_cut = refl

abbrev prebuilt : Environment
prebuilt = record {
  name = some (str "env");
  version = some (str "1");
  id = none;
  image = some digest;
  conda_file = none;
  build = none;
  tags = none;
  properties = none;
}

abbrev model : Model
model = record { id = str "m"; type = some (str "MLflow_model") }

get_kubernetes_online_compute_iff_example :
    (get_kubernetes_online_compute (λ name (w : ℕ). (ok cluster, w)) (str "aks") 0
      ≡ (ok cluster, 0))
    ↔ (((◌≡◌ {A = Result Compute × ℕ} (ok cluster, 0) (ok cluster, 0))) × IsOnline cluster)
get_kubernetes_online_compute_iff_example =
    get_kubernetes_online_compute_iff (λ name (w : ℕ). (ok cluster, w)) (str "aks") 0 0 cluster

get_registered_model_iff_example :
    (get_registered_model (λ name version (w : ℕ). (ok model, w)) (str "m") (str "1") true 0
      ≡ (ok model, 0))
    ↔ ((◌≡◌ {A = Result Model × ℕ} (ok model, 0) (ok model, 0))
        × (◌≡◌ {A = Bool} true true → lower (or_none model.type) ≡ str "mlflow_model"))
get_registered_model_iff_example =
    get_registered_model_iff (λ name version (w : ℕ). (ok model, w)) (str "m") (str "1") true 0 0
      model
