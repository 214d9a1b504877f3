-- ===== src/Batch/Resolve.antt =====
-- `resolve_batch_environment` of src/python-sdk-v2/create_batch_deployment.py.
pub mod Resolved
pub mod Accepted
pub mod Kept
mod Tests
use mlops_templates.Prelude.{Bool, true, false, ◌&&◌, ◌||◌, Option, none, some, if◌then◌else◌}
use mlops_templates.Text.{Text, truthy}
use mlops_templates.Outcome.{
  Exec, pure, raise, lift, ◌>>=◌, runtime_error, build_conflict, image_conflict, source_unsupported,
}
use mlops_templates.Azure.{Environment}
use mlops_templates.Batch.Reference.{RegistryReference, parse_registry_environment_reference}
use mlops_templates.Batch.Naming.{workspace_environment_name}
use mlops_templates.Batch.RegistryEnvironment.{Found, get_registry_environment}
use mlops_templates.Batch.Download.{download_registry_build_context}
use mlops_templates.Batch.ImageImport.{materialize_image_environment}
use mlops_templates.Batch.BuildImport.{is_given, materialize_build}
use mlops_templates.Batch.Live.{WorkspaceEnvironment, reference, entity}
use mlops_templates.Batch.Platform.{Platform}

module _ {W P C M : Type 0} (platform : Platform W P C M) (ml_client : M) where
  unfoldable pub materialize_build_environment :
      M → Environment → Text → Text → Text → Text → Text → Exec W Environment
  materialize_build_environment registry_client registry_environment registry_name environment_name
        version requested workspace_name =
      materialize_build (platform.environments ml_client) platform.temporary
        (download_registry_build_context platform.urls platform.digests platform.disk platform.http
          platform.decoders platform.storage registry_client registry_name environment_name version)
        registry_name environment_name version requested workspace_name registry_environment

  -- The tests on the sources of the environment, and the import of the one that it has.
  unfoldable pub materialize : Text → Text → Found M → Exec W Environment
  materialize requested workspace_name found =
      let environment = found.environment in
      let build = is_given environment.build in
      let image = truthy environment.image in
      let conda_file = truthy environment.conda_file in
      if build && (image || conda_file)
      then raise (runtime_error build_conflict)
      else if image && conda_file
      then raise (runtime_error image_conflict)
      else if build
      then materialize_build_environment found.registry_client environment found.registry_name
          found.environment_name found.version requested workspace_name
      else if image
      then materialize_image_environment platform.digests.sha256_hex
          (platform.environments ml_client) environment found.registry_name found.environment_name
          found.version requested workspace_name
      else raise (runtime_error source_unsupported)

  -- `if not _parse_registry_environment_reference(reference): return reference`, and the rest
  unfoldable pub resolve_parsed : Text → Option RegistryReference → Exec W WorkspaceEnvironment
  resolve_parsed requested none = pure (reference requested)
  resolve_parsed requested (some parsed) = do
    found ← get_registry_environment platform.sdk platform.registry ml_client requested
    workspace_name ← lift (
        workspace_environment_name platform.digests.sha256_hex found.registry_name
          found.environment_name)
    environment ← materialize requested workspace_name found
    pure (entity environment)

  unfoldable pub resolve_batch_environment : Text → Exec W WorkspaceEnvironment
  resolve_batch_environment requested =
      resolve_parsed requested (parse_registry_environment_reference requested)
