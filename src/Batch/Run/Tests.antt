-- ===== src/Batch/Run/Tests.antt =====
-- A run that imports an environment, deploys and makes the deployment the default.
use mathlib.Core.Option.{some-injective}
use mlops_templates.Batch.Source.Access.{Helper}
use mlops_templates.Prelude.{subst, Option, ◌≡◌, refl, ◌⊎◌, some, none, [], ◌∷◌}
use mlops_templates.Text.{
  Text, str, str_eq, strip, lower, is_digit, strip_of, drop_while, drop_end_while, is_space,
}
use mlops_templates.Outcome.{ok, world}
use mlops_templates.Outcome.Keeps.{Keeps}
use mlops_templates.Pattern.{ignoring_case, after_literal, span, fullmatch}
use mlops_templates.Client.Credential.{
  create_azure_credential, choose_credential, credential_mode, is_ci, is_truthy, create_ml_client,
}
use mlops_templates.Client.Wait.{
  wait_for_poller, fetch, poll_state, wait_for_resource_terminal_state, after_update, update_loop,
  wait_for_resource_create_or_update,
}
use mlops_templates.Client.Wait.States.{is_success_state}
use mlops_templates.Batch.Reference.{
  validate_immutable_environment_reference, is_immutable, environment_matches, rstrip_slash,
  parse_registry_environment_reference,
}
use mlops_templates.Posix.{as_posix, parts, is_absolute, join_slash}
use mlops_templates.Batch.ScoringCode.{
  resolve_scoring_code, check_inputs, is_traversing, relative_to,
}
use mlops_templates.Client.Checks.{get_registered_model, check_model}
use mlops_templates.Batch.Reference.Patterns.{is_name_char, is_segment_char}
use mlops_templates.Batch.Live.{
  reference, verify_live_deployment, check_source, check_code, is_live_environment,
  expected_environment_id,
}
use mlops_templates.Batch.Resolve.{resolve_parsed, resolve_batch_environment}
use mlops_templates.Batch.Run.{
  RunArguments, DeploymentRequest, deployment_request, deploy, run, update_endpoint,
  create_verified_deployment, verified_with, make_default, with_default,
}
use mlops_templates.Batch.Run.Done.{IsDeployed, IsDefault, run-IsDefault}
use mlops_templates.Batch.Run.Switched.{IsSettled, run-Keeps}
use mlops_templates.Batch.Fixture.{
  World, start, platform, host, files, environ, service, args, endpoint, deployed, found_or_missing,
}

found_default :
    {A : Type 0} (o : Option A) (w : World)
    → w.default ≡ some (str "old")
    → (world (found_or_missing o w)).default ≡ some (str "old")
found_default none w q = q
found_default (some x) w q = q

settled : IsSettled host platform service (λ w. w.default ≡ some (str "old"))
settled = record {
  print = λ line w q. q;
  sleep = λ n w q. q;
  resolution = record {
    open_url = λ u. record { at = λ w q. q };
    read = λ r n. record { at = λ w q. q };
    helper = λ h client name version group registry uri e.
        subst
          (λ (g : Helper World Text).
            Keeps (λ w. w.default ≡ some (str "old")) (g client name version group registry uri))
          (some-injective _ _ e) (record { at = λ w q. q });
    mkdir = λ path. record { at = λ w q. q };
    write_bytes = λ path body. record { at = λ w q. q };
    make = record { at = λ w q. q };
    remove = λ path w q. q;
    get_token = λ c s. record { at = λ w q. q };
    get_registry = λ c n v. record { at = λ w q. q };
    get_environment = λ c n v. record { at = λ w q. found_default w.environment w q };
    create_environment = λ c x. record { at = λ w q. q };
  };
  get_model = λ c n v. record { at = λ w q. q };
  begin_deployment = λ c r. record { at = λ w q. q };
  get_deployment = λ c n e. record { at = λ w q. found_default w.deployment w q };
  poller_result = λ p. record { at = λ w q. q };
}

run-Keeps_example :
    (world (run host files environ platform service args start)).default ≡ some (str "old")
    ⊎ ((ml_client : Text) × (u : World) × IsDeployed host files environ platform service args start
          ml_client u
        × (u.default ≡ some (str "old")))
run-Keeps_example = run-Keeps host files environ platform service args settled start refl

-- The run with an environment of the workspace.
abbrev with_workspace_environment : RunArguments
with_workspace_environment = record args { environment = str " azureml:env:7 " }

abbrev request : DeploymentRequest
request =
    deployment_request with_workspace_environment
      (record { id = str "model"; type = some (str "mlflow_model") })
      (reference (str "azureml:env:7")) (str "repo" ∷ str "scoring" ∷ []) (str "score.py")

abbrev after_deployment : World
after_deployment = record start { deployment = some (deployed request) }

abbrev after : World
after = record after_deployment { default = some (str "new") }

valid : validate_immutable_environment_reference (str " azureml:env:7 ") ≡ ok (str "azureml:env:7")
unfolding validate_immutable_environment_reference is_immutable is_name_char strip strip_of
    drop_while drop_end_while is_space fullmatch after_literal span ignoring_case is_digit lower
    str_eq
valid = refl

deploys :
    deploy host files environ platform service with_workspace_environment
      (str "default")
      request
      start
    ≡ (ok (deployed request), after_deployment)
unfolding deploy wait_for_resource_create_or_update update_loop after_update wait_for_poller
    wait_for_resource_terminal_state poll_state fetch is_success_state str_eq
deploys = refl

connects :
    create_ml_client platform.sdk environ (str "s") (str "g") (str "w") start
    ≡ (ok (str "default"), start)
unfolding create_ml_client create_azure_credential choose_credential credential_mode is_ci is_truthy
    strip lower str_eq
connects = refl

verifies :
    verify_live_deployment
      (deployed request)
      (reference (str "azureml:env:7"))
      (str "azureml:env:7")
      (str "score.py")
    ≡ ok tt
unfolding verify_live_deployment check_source check_code is_live_environment expected_environment_id
    environment_matches rstrip_slash parse_registry_environment_reference fullmatch after_literal
    span ignoring_case is_segment_char is_digit lower str_eq as_posix parts is_absolute
    deployment_request
verifies = refl

unresolved : parse_registry_environment_reference (str "azureml:env:7") ≡ none
unfolding parse_registry_environment_reference fullmatch after_literal span ignoring_case
    is_segment_char is_digit lower
unresolved = refl

scores :
    resolve_scoring_code files (str ".") (str "scoring") (str "score.py")
    ≡ ok (str "repo" ∷ str "scoring" ∷ [], str "score.py")
unfolding resolve_scoring_code check_inputs is_traversing relative_to parts is_absolute str_eq
    join_slash
scores = refl

switches :
    update_endpoint host files environ platform service with_workspace_environment
      (str "default")
      (endpoint (some (str "new")))
      after_deployment
    ≡ (ok (endpoint (some (str "new"))), after)
unfolding update_endpoint wait_for_resource_create_or_update update_loop after_update
    wait_for_poller wait_for_resource_terminal_state poll_state fetch is_success_state str_eq
switches = refl

runs :
    run host files environ platform service with_workspace_environment start
    ≡ (ok (endpoint (some (str "new"))), after)
unfolding run create_verified_deployment verified_with make_default with_default
    get_registered_model check_model resolve_batch_environment resolve_parsed lower str_eq
runs = rw (valid, scores, connects, unresolved, deploys, verifies, switches) refl

run-IsDefault_example :
    IsDefault host files environ platform service with_workspace_environment start
      (endpoint (some (str "new")))
      after
run-IsDefault_example =
    run-IsDefault host files environ platform service with_workspace_environment start after
      (endpoint (some (str "new"))) runs
