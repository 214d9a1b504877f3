-- ===== src/Client/Checks/Online.antt =====
-- What the checks let through: exactly the computes, models and environments that meet all of the
-- conditions.
use mlops_templates.Prelude.{◌≡◌, ◌↔◌, refl, Bool, true, false, none, arith, ap}
use mlops_templates.Text.{Text, str, lower, or_empty, or_none, truthy}
use mlops_templates.Text.Laws.{str_eq→eq, str_eq_iff}
use mlops_templates.Outcome.{
  Exn, Result, ok, err, Exec, handle, continue, raise, runtime_error, model_not_found,
  compute_not_found, lift, pure, ◌>>◌,
}
use mlops_templates.Azure.{Model, Compute, Environment, text_of}
use mlops_templates.Client.Checks.Found.{
  IsCluster, IsAcceptedNamespace, HasUserAssigned, is_supported_cluster_iff, namespace_guard_iff,
  is_user_assigned_iff,
}
use mlops_templates.Client.Wait.States.{is_success_state}
use mlops_templates.Client.Checks.{
  check_compute, check_model, has_image_digest, get_registered_model, get_kubernetes_online_compute,
}

-- What the guards want of the compute of a private online deployment.
pub record IsOnline (compute : Compute) : Type 0 where
  pub kubernetes : lower (text_of compute.type) ≡ str "kubernetes"
  pub cluster : IsCluster (or_empty compute.resource_id)
  pub ready : text_of compute.provisioning_state ≡ str "Succeeded"
  pub namespace : IsAcceptedNamespace compute.namespace
  pub user_assigned : HasUserAssigned compute.identity

is_success_state_iff : (s : Text) → (is_success_state s ≡ true) ↔ (s ≡ str "Succeeded")
unfolding is_success_state
is_success_state_iff s = ground (arith, str_eq_iff s (str "Succeeded"))

check_compute_iff : (compute : Compute) → (check_compute compute ≡ ok tt) ↔ IsOnline compute
unfolding check_compute
check_compute_iff compute = (
  λ e. record {
    kubernetes = str_eq→eq (lower (text_of compute.type)) (str "kubernetes") (ground arith);
    cluster = (is_supported_cluster_iff compute.resource_id).0 (ground arith);
    ready = (is_success_state_iff (text_of compute.provisioning_state)).0 (ground arith);
    namespace = (namespace_guard_iff compute.namespace).0 (ground arith);
    user_assigned = (is_user_assigned_iff compute.identity).0 (ground arith);
  },
  λ h. rw (
    (str_eq_iff (lower (text_of compute.type)) (str "kubernetes")).1 h.kubernetes,
    (is_supported_cluster_iff compute.resource_id).1 h.cluster,
    (is_success_state_iff (text_of compute.provisioning_state)).1 h.ready,
    (namespace_guard_iff compute.namespace).1 h.namespace,
    (is_user_assigned_iff compute.identity).1 h.user_assigned,
  ),
)

module _ {W A : Type 0} where
  ok_value : {x a : A} {w u : W} → ◌≡◌ {A = Result A × W} (ok x, w) (ok a, u) → x ≡ a
  ok_value h = ground arith

  checked :
      (x : A) (w : W) (r : Result (Unit {0})) (check : A → Result (Unit {0})) (a : A) (u : W)
      → check x ≡ r
      → ((lift (check x) >> pure x) w ≡ (ok a, u))
        ↔ (((◌≡◌ {A = Result A × W} (ok x, w) (ok a, u))) × (check a ≡ ok tt))
  checked x w (err exn) check a u e =
      (λ h. absurd (ground arith), λ h. absurd (ground (arith, ap check (ok_value h.0))))
  checked x w (ok t) check a u e = (
    λ h. (ground arith, ground (arith, ap check (ok_value (same h)))),
    λ h. ground (arith, ap check (ok_value h.0)),
  )
    where
      same : (lift (check x) >> pure x) w ≡ (ok a, u) → ◌≡◌ {A = Result A × W} (ok x, w) (ok a, u)
      same h = ground arith

  -- A lookup whose exceptions are converted, then a check: what is returned was found and passed.
  checked_iff :
      (o : Result A × W) (exn : Exn) (check : A → Result (Unit {0})) (a : A) (u : W)
      → (continue (λ x. lift (check x) >> pure x) (handle (λ e. raise exn) o) ≡ (ok a, u))
        ↔ ((o ≡ (ok a, u)) × (check a ≡ ok tt))
  checked_iff (err e, w) exn check a u = (λ h. absurd (ground arith), λ h. absurd (ground arith))
  checked_iff (ok x, w) exn check a u = checked x w (check x) check a u refl

check_model_iff :
    (require : Bool) (model : Model)
    → (check_model require model ≡ ok tt)
      ↔ (require ≡ true → lower (or_none model.type) ≡ str "mlflow_model")
unfolding check_model
check_model_iff false model = (λ h r. absurd (ground arith), λ h. refl)
check_model_iff true model = (
  λ h r. str_eq→eq (lower (or_none model.type)) (str "mlflow_model") (ground arith),
  λ h. rw ((str_eq_iff (lower (or_none model.type)) (str "mlflow_model")).1 (h refl)),
)

-- What a prebuilt inference environment is: an image by digest, and nothing to build.
abbrev pub IsPrebuilt : Environment → Type 0
IsPrebuilt environment =
    (has_image_digest (or_empty environment.image) ≡ true)
    × (environment.build ≡ none)
    × (truthy environment.conda_file ≡ false)

module _ {W : Type 0} where
  -- `get_kubernetes_online_compute` returns exactly the compute that the workspace has under the
  -- name, where it is a ready Kubernetes compute, its resource ID names an AKS cluster or one that
  -- Azure Arc connects, its namespace is None or a text that is neither blank nor `default`, and it
  -- has a user-assigned identity. In every other case it raises.
  pub get_kubernetes_online_compute_iff :
      (get_compute : Text → Exec W Compute) (name : Text) (w u : W) (compute : Compute)
      → (get_kubernetes_online_compute get_compute name w ≡ (ok compute, u))
        ↔ ((get_compute name w ≡ (ok compute, u)) × IsOnline compute)
  unfolding get_kubernetes_online_compute
  get_kubernetes_online_compute_iff get_compute name w u compute =
      let c =
        checked_iff (get_compute name w) (runtime_error compute_not_found) check_compute compute
          u in
      (
        λ h. let (found, passed) = c.0 h in (found, (check_compute_iff compute).0 passed),
        λ h. c.1 (h.0, (check_compute_iff compute).1 h.1),
      )

  -- `get_registered_model` returns exactly the model of that name and version that is registered,
  -- where an MLflow model, if one is required, says so by its type.
  pub get_registered_model_iff :
      (get_model : Text → Text → Exec W Model) (name version : Text) (require : Bool) (w u : W)
      (model : Model)
      → (get_registered_model get_model name version require w ≡ (ok model, u)) ↔ (
          (get_model name version w ≡ (ok model, u))
          × (require ≡ true → lower (or_none model.type) ≡ str "mlflow_model"))
  unfolding get_registered_model
  get_registered_model_iff get_model name version require w u model =
      let c =
        checked_iff (get_model name version w) (runtime_error model_not_found) (check_model require)
          model u in
      (
        λ h. let (found, passed) = c.0 h in (found, (check_model_iff require model).0 passed),
        λ h. c.1 (h.0, (check_model_iff require model).1 h.1),
      )
