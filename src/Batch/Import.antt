-- ===== src/Batch/Import.antt =====
-- What both imports of src/python-sdk-v2/create_batch_deployment.py do with the workspace:
-- `_existing_workspace_environment`, and the reuse or the creation that follows it in
-- `_materialize_image_environment` and `_materialize_build_environment`.
pub mod Obtained
use mlops_templates.Prelude.{Bool, true, false, Option, none, some}
use mlops_templates.Text.{Text}
use mlops_templates.Outcome.{Exn, Result, ok, err, Exec, lift, ◌>>=◌, resource_not_found}
use mlops_templates.Azure.{Environment}

-- `ml_client.environments`
pub record Environments (W : Type 0) : Type 0 where
  pub get : Text → Text → Exec W Environment
  pub create_or_update : Environment → Exec W Environment

-- `try: … except ResourceNotFoundError: return None`
abbrev pub or_not_found : {W : Type 0} → Result Environment × W → Result (Option Environment) × W
or_not_found (ok environment, w) = (ok (some environment), w)
or_not_found (err resource_not_found, w) = (ok none, w)
or_not_found (err exn, w) = (err exn, w)

module _ {W : Type 0} (environments : Environments W) where
  unfoldable pub existing_workspace_environment : Text → Text → Exec W (Option Environment)
  existing_workspace_environment name version w = or_not_found (environments.get name version w)

  -- By the environment to create, and the checks on one that exists and on one that was created.
  module _ (new : Environment)
      (check_existing check_created : Environment → Result Environment) where
    -- `if existing is not None: … return validated`, and what follows it
    abbrev pub reuse_or_create : Option Environment → Exec W Environment
    reuse_or_create (some existing) = lift (check_existing existing)
    reuse_or_create none = do
      created ← environments.create_or_update new
      lift (check_created created)

    unfoldable pub find_or_create : Text → Text → Exec W Environment
    unfolding existing_workspace_environment
    find_or_create name version = do
      existing ← existing_workspace_environment name version
      reuse_or_create existing
