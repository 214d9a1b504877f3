-- ===== src/Batch/Run/Switched.antt =====
-- When `run` makes a deployment the default of its endpoint.
use mlops_templates.Prelude.{◌≡◌, ◌⊎◌, inl, inr, refl, true, ℕ}
use mlops_templates.Text.{Text}
use mlops_templates.Outcome.{Result, ok, err, world, continue}
use mlops_templates.Outcome.Keeps.{Keeps, Keeps-pure, Keeps-lift, Keeps-bind, Keeps-then}
use mlops_templates.Client.Host.{Host, Line}
use mlops_templates.Client.Environ.{Environ}
use mlops_templates.Client.Credential.Kept.{Keeps-create_ml_client}
use mlops_templates.Client.Checks.Kept.{Keeps-get_registered_model}
use mlops_templates.Client.Wait.Kept.{Keeps-wait_for_resource_create_or_update}
use mlops_templates.Batch.Reference.{validate_immutable_environment_reference}
use mlops_templates.Batch.ScoringCode.{FileSystem, PathNames, resolve_scoring_code}
use mlops_templates.Batch.Live.{verify_live_deployment}
use mlops_templates.Batch.Platform.{Platform}
use mlops_templates.Batch.Resolve.Kept.{IsKeptBy, resolve_batch_environment-Keeps}
use mlops_templates.Batch.Run.Done.{IsDeployed, deployed-IsDeployed}
use mlops_templates.Batch.Run.{
  RunArguments, DeploymentRequest, Service, deployment_request, deployment_resource, deploy,
  verified_with, create_verified_deployment, make_default, run,
}

-- A fact of the world that every call keeps but the update of an endpoint: such as which
-- deployments are the defaults of the endpoints.
pub record IsSettled {W P C L M : Type 0} (host : Host W) (platform : Platform W P C M)
    (service : Service W L M) (Q : W → Type 0) : Type 0 where
  pub print : (line : Line) (w : W) → Q w → Q (host.print line w)
  pub sleep : (n : ℕ) (w : W) → Q w → Q (host.sleep n w)
  pub resolution : IsKeptBy platform Q
  pub get_model :
      (client : M) (name version : Text) → Keeps Q (service.get_model client name version)
  pub begin_deployment :
      (client : M) (request : DeploymentRequest) → Keeps Q (service.begin_deployment client request)
  pub get_deployment :
      (client : M) (name endpoint : Text) → Keeps Q (service.get_deployment client name endpoint)
  pub poller_result : (poller : L) → Keeps Q (service.poller_result poller)

module _ {W P C L M : Type 0} (host : Host W) (files : FileSystem) (environ : Environ)
    (platform : Platform W P C M) (service : Service W L M) (args : RunArguments) where
  module _ {Q : W → Type 0} (settled : IsSettled host platform service Q) where
    Keeps-deploy :
        (ml_client : M) (request : DeploymentRequest)
        → Keeps Q (deploy host files environ platform service args ml_client request)
    unfolding deploy
    Keeps-deploy ml_client request =
        Keeps-wait_for_resource_create_or_update host
          (deployment_resource host files environ platform service args ml_client request)
          (record {
            get = (settled.get_deployment ml_client _ _).at;
            print = settled.print;
            sleep = settled.sleep;
          })
          (settled.begin_deployment ml_client request) settled.poller_result _ _ _ _

    Keeps-verified :
        (ml_client : M) (requested : Text) (paths : PathNames × Text)
        → Keeps Q (verified_with host files environ platform service args ml_client requested paths)
    unfolding verified_with
    Keeps-verified ml_client requested paths =
        Keeps-bind _ _
          (Keeps-get_registered_model (service.get_model ml_client) (settled.get_model ml_client)
            args.model_name args.model_version true)
          (λ model.
            Keeps-bind _ _
              (resolve_batch_environment-Keeps platform settled.resolution ml_client requested)
              (λ environment.
                Keeps-bind _ _
                  (Keeps-deploy ml_client
                    (deployment_request args model environment paths.0 paths.1))
                  (λ live.
                    Keeps-then _ _
                      (Keeps-lift (verify_live_deployment live environment requested paths.1))
                      (Keeps-pure ml_client))))

    Keeps-create_verified_deployment :
        Keeps Q (create_verified_deployment host files environ platform service args)
    unfolding create_verified_deployment
    Keeps-create_verified_deployment =
        Keeps-bind _ _ (Keeps-lift (validate_immutable_environment_reference args.environment))
          (λ requested.
            Keeps-bind _ _
              (Keeps-lift (
                resolve_scoring_code files args.repository_root args.scoring_code_directory
                  args.scoring_script))
              (λ paths.
                Keeps-bind _ _
                  (Keeps-create_ml_client platform.sdk settled.resolution.get_token environ
                    args.subscription_id args.resource_group args.workspace_name)
                  (λ ml_client. Keeps-verified ml_client requested paths)))

    -- The end of a run, by how its first part ended.
    settled_or_deployed :
        (w : W) (o : Result M × W)
        → create_verified_deployment host files environ platform service args w ≡ o
        → Q (world o)
        → Q (world (continue (make_default host files environ platform service args) o))
          ⊎ ((ml_client : M) × (u : W) × IsDeployed host files environ platform service args w
                ml_client u
              × Q u)
    settled_or_deployed w (ok ml_client, u) e q = inr (
      ml_client,
      u,
      deployed-IsDeployed host files environ platform service args w u ml_client e,
      q,
    )
    settled_or_deployed w (err exn, u) e q = inl q

    -- Whatever the services answer and however `run` ends, returns and exceptions alike: a fact
    -- of the world that every call keeps but the update of an endpoint, such as which deployment is
    -- the default of the endpoint, holds at the end of the run, unless the deployment was created,
    -- reached a success state and passed `verify_live_deployment`; and then it still held when it
    -- had passed.
    pub run-Keeps :
        (w : W)
        → Q w
        → Q (world (run host files environ platform service args w))
          ⊎ ((ml_client : M) × (u : W) × IsDeployed host files environ platform service args w
                ml_client u
              × Q u)
    unfolding run
    run-Keeps w q = settled_or_deployed w _ refl (Keeps-create_verified_deployment.at w q)
