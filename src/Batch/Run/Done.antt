-- ===== src/Batch/Run/Done.antt =====
-- What a run that returns has done.
use mlops_templates.Prelude.{◌≡◌, true, Option, none, some, arith, subst}
use mlops_templates.Text.{Text}
use mlops_templates.Outcome.{ok}
use mlops_templates.Outcome.Laws.{continue-eq-ok, lift-continue, pure-eq-ok}
use mlops_templates.Azure.{Model, BatchDeployment, BatchEndpoint}
use mlops_templates.Client.Host.{Host}
use mlops_templates.Client.Environ.{Environ}
use mlops_templates.Client.Credential.{create_ml_client}
use mlops_templates.Client.Checks.{get_registered_model}
use mlops_templates.Client.Wait.Polling.{IsSucceeded}
use mlops_templates.Client.Wait.Updating.{wait_for_resource_create_or_update-IsSucceeded}
use mlops_templates.Batch.Reference.{validate_immutable_environment_reference}
use mlops_templates.Batch.ScoringCode.{FileSystem, PathNames, resolve_scoring_code}
use mlops_templates.Batch.Live.{WorkspaceEnvironment, verify_live_deployment}
use mlops_templates.Batch.Platform.{Platform}
use mlops_templates.Batch.Resolve.{resolve_batch_environment}
use mlops_templates.Batch.Run.{
  RunArguments, Service, deployment_request, with_default, deployment_resource, endpoint_resource,
  deploy, update_endpoint, verified_with, create_verified_deployment, make_default, run,
}

module _ {W P C L M : Type 0} (host : Host W) (files : FileSystem) (environ : Environ)
    (platform : Platform W P C M) (service : Service W L M) (args : RunArguments) where
  -- A deployment is in place and was verified: the world is `u` after it.
  pub record IsDeployed (w : W) (ml_client : M) (u : W) : Type 0 where
    pub requested : Text
    pub code_directory : PathNames
    pub scoring_script : Text
    pub model : Model
    pub environment : WorkspaceEnvironment
    pub live : BatchDeployment
    pub w1 : W
    pub w2 : W
    pub w3 : W
    pub validated : validate_immutable_environment_reference args.environment ≡ ok requested
    pub code :
        resolve_scoring_code files args.repository_root args.scoring_code_directory
          args.scoring_script
        ≡ ok (code_directory, scoring_script)
    pub connected :
        create_ml_client platform.sdk environ args.subscription_id args.resource_group
          args.workspace_name w
        ≡ (ok ml_client, w1)
    pub registered :
        get_registered_model
          (service.get_model ml_client)
          args.model_name
          args.model_version
          true
          w1
        ≡ (ok model, w2)
    pub resolved : resolve_batch_environment platform ml_client requested w2 ≡ (ok environment, w3)
    pub deployed :
        deploy host files environ platform service args ml_client
          (deployment_request args model environment code_directory scoring_script)
          w3
        ≡ (ok live, u)
    pub succeeded :
        IsSucceeded
          (deployment_resource host files environ platform service args ml_client
            (deployment_request args model environment code_directory scoring_script))
          live
    pub verified : verify_live_deployment live environment requested scoring_script ≡ ok tt

  pub deployed-IsDeployed :
      (w u : W) (ml_client : M)
      → create_verified_deployment host files environ platform service args w ≡ (ok ml_client, u)
      → IsDeployed w ml_client u
  unfolding create_verified_deployment verified_with deploy
  deployed-IsDeployed w u ml_client e =
      let (requested, validated, e1) =
        lift-continue _ (validate_immutable_environment_reference args.environment) w e in
      let (paths, code, e2) =
        lift-continue _
          (resolve_scoring_code files args.repository_root args.scoring_code_directory
            args.scoring_script)
          w e1 in
      let (client, w1, connected, e3) =
        continue-eq-ok _
          (create_ml_client platform.sdk environ args.subscription_id args.resource_group
            args.workspace_name w)
          e2 in
      let (model, w2, registered, e4) =
        continue-eq-ok _
          (get_registered_model (service.get_model client) args.model_name args.model_version true
            w1)
          e3 in
      let (environment, w3, resolved, e5) =
        continue-eq-ok _ (resolve_batch_environment platform client requested w2) e4 in
      let request = deployment_request args model environment paths.0 paths.1 in
      let (live, w4, deployed, e6) =
        continue-eq-ok _ (deploy host files environ platform service args client request w3) e5 in
      let (_, verified, e7) =
        lift-continue _ (verify_live_deployment live environment requested paths.1) w4 e6 in
      let (same, last) = pure-eq-ok client w4 e7 in
      subst (λ x. IsDeployed w x u) same
        (subst (IsDeployed w client) last (record {
          requested = requested;
          code_directory = paths.0;
          scoring_script = paths.1;
          model = model;
          environment = environment;
          live = live;
          w1 = w1;
          w2 = w2;
          w3 = w3;
          validated = validated;
          code = code;
          connected = connected;
          registered = registered;
          resolved = resolved;
          deployed = deployed;
          succeeded =
              wait_for_resource_create_or_update-IsSucceeded host
                (deployment_resource host files environ platform service args client request) _ _ _
                _ w3 deployed;
          verified = verified;
        }))

  -- What a run that returns has done: the deployment, and then the update of the endpoint as the
  -- service had it, with the deployment as its default.
  pub record IsDefault (w : W) (x : BatchEndpoint) (u : W) : Type 0 where
    pub ml_client : M
    pub v1 : W
    pub v2 : W
    pub endpoint : BatchEndpoint
    pub deployment : IsDeployed w ml_client v1
    pub got : service.get_endpoint ml_client args.endpoint_name v1 ≡ (ok endpoint, v2)
    pub updated :
        update_endpoint host files environ platform service args ml_client
          (record endpoint { defaults = some (some args.deployment_name) })
          v2
        ≡ (ok x, u)
    pub succeeded :
        IsSucceeded
          (endpoint_resource host files environ platform service args ml_client
            (record endpoint { defaults = some (some args.deployment_name) }))
          x

  with_default-eq-ok :
      (name : Text) (o : Option (Option Text)) (endpoint updated : BatchEndpoint)
      → with_default name o endpoint ≡ ok updated
      → updated ≡ record endpoint { defaults = some (some name) }
  unfolding with_default
  with_default-eq-ok name none endpoint updated e = absurd (ground arith)
  with_default-eq-ok name (some old) endpoint updated e = ground arith

  -- Where `run` returns an endpoint, the arguments passed their checks, the model is registered,
  -- the environment was resolved, the deployment was created and reached a success state,
  -- `verify_live_deployment` passed it, and after that the endpoint was read and updated with the
  -- deployment as its default, and what is returned is in a success state.
  pub run-IsDefault :
      (w u : W) (x : BatchEndpoint)
      → run host files environ platform service args w ≡ (ok x, u)
      → IsDefault w x u
  unfolding run make_default update_endpoint
  run-IsDefault w u x e =
      let (ml_client, v1, deployed, e1) =
        continue-eq-ok _ (create_verified_deployment host files environ platform service args w)
          e in
      let (endpoint, v2, got, e2) =
        continue-eq-ok _ (service.get_endpoint ml_client args.endpoint_name v1) e1 in
      let (updated, same, e3) =
        lift-continue _ (with_default args.deployment_name endpoint.defaults endpoint) v2 e2 in
      let e4 =
        subst
          (λ z. update_endpoint host files environ platform service args ml_client z v2 ≡ (ok x, u))
          (with_default-eq-ok args.deployment_name endpoint.defaults endpoint updated same) e3 in
      record {
        ml_client = ml_client;
        v1 = v1;
        v2 = v2;
        endpoint = endpoint;
        deployment = deployed-IsDeployed w v1 ml_client deployed;
        got = got;
        updated = e4;
        succeeded =
            wait_for_resource_create_or_update-IsSucceeded host
              (endpoint_resource host files environ platform service args ml_client _) _ _ _ _ v2
              e4;
      }
