-- ===== src/Batch/Run.antt =====
-- `run` of src/python-sdk-v2/create_batch_deployment.py.
pub mod Done
pub mod Switched
mod Tests
use mlops_templates.Prelude.{true, Option, none, some, ◌++◌}
use mlops_templates.Text.{Text, str}
use mlops_templates.Numeral.{ℤ}
use mlops_templates.Outcome.{Result, ok, err, Exec, pure, lift, ◌>>=◌, ◌>>◌, other}
use mlops_templates.Azure.{Model, CodeConfiguration, BatchDeployment, BatchEndpoint}
use mlops_templates.Client.Host.{Host}
use mlops_templates.Client.Environ.{Environ}
use mlops_templates.Client.Credential.{create_ml_client}
use mlops_templates.Client.Checks.{get_registered_model}
use mlops_templates.Client.Wait.{Resource, wait_for_resource_create_or_update}
use mlops_templates.Client.Wait.States.{
  default_resource_poll_interval_seconds, default_resource_max_polls,
  default_resource_update_attempts,
}
use mlops_templates.Batch.Reference.{validate_immutable_environment_reference}
use mlops_templates.Batch.ScoringCode.{FileSystem, PathNames, resolve_scoring_code}
use mlops_templates.Batch.BuildImport.{path_text}
use mlops_templates.Batch.Live.{WorkspaceEnvironment, verify_live_deployment}
use mlops_templates.Batch.Platform.{Platform}
use mlops_templates.Batch.Resolve.{resolve_batch_environment}

-- The attributes of `args`.
pub record RunArguments : Type 0 where
  pub subscription_id : Text
  pub resource_group : Text
  pub workspace_name : Text
  pub deployment_name : Text
  pub description : Option Text
  pub endpoint_name : Text
  pub model_name : Text
  pub model_version : Text
  pub compute : Text
  pub environment : Text
  pub repository_root : Text
  pub scoring_code_directory : Text
  pub scoring_script : Text
  pub instance_count : ℤ
  pub max_concurrency_per_instance : ℤ
  pub mini_batch_size : ℤ
  pub output_file_name : Text

-- The `BatchDeployment` that is sent; its output action is APPEND_ROW.
pub record DeploymentRequest : Type 0 where
  pub name : Text
  pub description : Option Text
  pub endpoint_name : Text
  pub model : Text
  pub environment : WorkspaceEnvironment
  pub code_configuration : CodeConfiguration
  pub compute : Text
  pub instance_count : ℤ
  pub max_concurrency_per_instance : ℤ
  pub mini_batch_size : ℤ
  pub output_file_name : Text

-- `ml_client.models`, `batch_deployments` and `batch_endpoints`, with pollers L.
pub record Service (W L M : Type 0) : Type 0 where
  pub get_model : M → Text → Text → Exec W Model
  pub begin_deployment : M → DeploymentRequest → Exec W L
  pub get_deployment : M → Text → Text → Exec W BatchDeployment
  pub begin_endpoint : M → BatchEndpoint → Exec W L
  pub get_endpoint : M → Text → Exec W BatchEndpoint
  pub poller_result : L → Exec W (Unit {0})

unfoldable pub deployment_request :
    RunArguments → Model → WorkspaceEnvironment → PathNames → Text → DeploymentRequest
deployment_request args model environment code_directory scoring_script = record {
  name = args.deployment_name;
  description = args.description;
  endpoint_name = args.endpoint_name;
  model = model.id;
  environment = environment;
  code_configuration = record {
    code = some (path_text code_directory);
    scoring_script = some scoring_script;
  };
  compute = args.compute;
  instance_count = args.instance_count;
  max_concurrency_per_instance = args.max_concurrency_per_instance;
  mini_batch_size = args.mini_batch_size;
  output_file_name = args.output_file_name;
}

-- `endpoint.defaults.deployment_name = name`, which raises AttributeError where there are no
-- defaults
unfoldable pub with_default : Text → Option (Option Text) → BatchEndpoint → Result BatchEndpoint
with_default name none endpoint = err other
with_default name (some old) endpoint = ok (record endpoint { defaults = some (some name) })

module _ {W P C L M : Type 0} (host : Host W) (files : FileSystem) (environ : Environ)
    (platform : Platform W P C M) (service : Service W L M) (args : RunArguments) where
  abbrev pub deployment_resource : M → DeploymentRequest → Resource W L BatchDeployment
  deployment_resource ml_client request = record {
    begin = service.begin_deployment ml_client request;
    poller_result = service.poller_result;
    get = service.get_deployment ml_client args.deployment_name args.endpoint_name;
    state_of = λ deployment. deployment.provisioning_state;
  }

  abbrev pub endpoint_resource : M → BatchEndpoint → Resource W L BatchEndpoint
  endpoint_resource ml_client endpoint = record {
    begin = service.begin_endpoint ml_client endpoint;
    poller_result = service.poller_result;
    get = service.get_endpoint ml_client args.endpoint_name;
    state_of = λ endpoint. endpoint.provisioning_state;
  }

  -- The two waits, with the defaults of aml_client.py.
  unfoldable pub deploy : M → DeploymentRequest → Exec W BatchDeployment
  deploy ml_client request =
      wait_for_resource_create_or_update host (deployment_resource ml_client request)
        (str "batch deployment " ++ args.deployment_name) default_resource_poll_interval_seconds
        default_resource_max_polls default_resource_update_attempts

  unfoldable pub update_endpoint : M → BatchEndpoint → Exec W BatchEndpoint
  update_endpoint ml_client endpoint =
      wait_for_resource_create_or_update host (endpoint_resource ml_client endpoint)
        (str "batch endpoint " ++ args.endpoint_name) default_resource_poll_interval_seconds
        default_resource_max_polls default_resource_update_attempts

  -- From the lookup of the model to the check of the live deployment; returns the client.
  unfoldable pub verified_with : M → Text → PathNames × Text → Exec W M
  verified_with ml_client requested (code_directory, scoring_script) = do
    model ←
        get_registered_model (service.get_model ml_client) args.model_name args.model_version true
    environment ← resolve_batch_environment platform ml_client requested
    live ←
        deploy ml_client (deployment_request args model environment code_directory scoring_script)
    lift (verify_live_deployment live environment requested scoring_script)
    pure ml_client

  -- The same from the start.
  unfoldable pub create_verified_deployment : Exec W M
  create_verified_deployment = do
    requested ← lift (validate_immutable_environment_reference args.environment)
    paths ← lift (
        resolve_scoring_code files args.repository_root args.scoring_code_directory
          args.scoring_script)
    ml_client ←
        create_ml_client platform.sdk environ args.subscription_id args.resource_group
          args.workspace_name
    verified_with ml_client requested paths

  -- From the read of the endpoint on.
  unfoldable pub make_default : M → Exec W BatchEndpoint
  make_default ml_client = do
    endpoint ← service.get_endpoint ml_client args.endpoint_name
    updated ← lift (with_default args.deployment_name endpoint.defaults endpoint)
    update_endpoint ml_client updated

  unfoldable pub run : Exec W BatchEndpoint
  run = do ml_client ← create_verified_deployment; make_default ml_client
