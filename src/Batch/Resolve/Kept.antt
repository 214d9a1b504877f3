-- ===== src/Batch/Resolve/Kept.antt =====
-- What the resolution of an environment keeps of the world.
use mlops_templates.Prelude.{◌≡◌, refl, sym, subst, ℕ, ◌&&◌, ◌||◌, Option, none, some, List}
use mlops_templates.Text.{Text, truthy}
use mlops_templates.Outcome.{
  Result, ok, err, Exec, world, runtime_error, value_error, timeout_error, argument_type_error,
  assertion_error, resource_exists, resource_not_found, os_error, other, build_conflict,
  image_conflict, source_unsupported,
}
use mlops_templates.Outcome.Keeps.{
  Keeps, Keeps-pure, Keeps-raise, Keeps-lift, Keeps-if, Keeps-bind, Keeps-then,
}
use mlops_templates.Azure.{Environment}
use mlops_templates.Batch.ScoringCode.{PathNames}
use mlops_templates.Batch.Reference.{RegistryReference, parse_registry_environment_reference}
use mlops_templates.Batch.RegistryEnvironment.{Found}
use mlops_templates.Batch.RegistryEnvironment.Kept.{Keeps-get_registry_environment}
use mlops_templates.Batch.Source.Access.{Helper}
use mlops_templates.Batch.Import.{
  Environments, or_not_found, existing_workspace_environment, reuse_or_create, find_or_create,
}
use mlops_templates.Batch.ImageImport.{import_image, materialize_image_environment}
use mlops_templates.Batch.Download.Confined.{download_registry_build_context-Keeps}
use mlops_templates.Batch.BuildImport.{
  is_given, Temporary, removed, within_directory, import_build, materialize_build,
}
use mlops_templates.Batch.Platform.{Platform}
use mlops_templates.Batch.Resolve.{
  materialize_build_environment, materialize, resolve_parsed, resolve_batch_environment,
}

-- A fact of the world that every call of the platform keeps.
pub record IsKeptBy {W P C M : Type 0} (platform : Platform W P C M) (Q : W → Type 0) : Type 0 where
  pub open_url : (url : Text) → Keeps Q (platform.http.open_url url)
  pub read : (response : P) (n : ℕ) → Keeps Q (platform.http.read response n)
  pub helper :
      (helper : Helper W M) (client : M) (name version group registry uri : Text)
      → platform.storage.helper ≡ some helper
      → Keeps Q (helper client name version group registry uri)
  pub mkdir : (path : PathNames) → Keeps Q (platform.disk.mkdir path)
  pub write_bytes :
      (path : PathNames) (body : List ℕ) → Keeps Q (platform.disk.write_bytes path body)
  pub make : Keeps Q platform.temporary.make
  pub remove : (path : PathNames) (w : W) → Q w → Q (platform.temporary.remove path w)
  pub get_token :
      (credential : C) (scope : Text) → Keeps Q (platform.sdk.get_token credential scope)
  pub get_registry :
      (client : M) (name version : Text) → Keeps Q (platform.registry.get client name version)
  pub get_environment :
      (client : M) (name version : Text) → Keeps Q ((platform.environments client).get name version)
  pub create_environment :
      (client : M) (environment : Environment)
      → Keeps Q ((platform.environments client).create_or_update environment)

or_not_found-world : {W : Type 0} (o : Result Environment × W) → world (or_not_found o) ≡ world o
or_not_found-world (ok x, w) = refl
or_not_found-world (err resource_not_found, w) = refl
or_not_found-world (err (runtime_error r), w) = refl
or_not_found-world (err (value_error r), w) = refl
or_not_found-world (err (timeout_error r), w) = refl
or_not_found-world (err (argument_type_error r), w) = refl
or_not_found-world (err assertion_error, w) = refl
or_not_found-world (err resource_exists, w) = refl
or_not_found-world (err os_error, w) = refl
or_not_found-world (err other, w) = refl

module _ {W : Type 0} {Q : W → Type 0} where
  removed-Q :
      {A : Type 0} (remove : W → W) (o : Result A × W)
      → ((w : W) → Q w → Q (remove w))
      → Q (world o)
      → Q (world (removed remove o))
  removed-Q remove (r, w) kept q = kept w q

  Keeps-within_directory :
      {A : Type 0} (temporary : Temporary W) (body : PathNames → Exec W A)
      → Keeps Q temporary.make
      → ((path : PathNames) (w : W) → Q w → Q (temporary.remove path w))
      → ((path : PathNames) → Keeps Q (body path))
      → Keeps Q (within_directory temporary body)
  unfolding within_directory
  Keeps-within_directory temporary body made removed_kept inside = Keeps-bind _ _ made (λ path.
      record {
        at = λ w q.
            removed-Q (temporary.remove path) (body path w) (removed_kept path)
              ((inside path).at w q);
      })

  module _ (environments : Environments W)
      (got : (name version : Text) → Keeps Q (environments.get name version))
      (created : (x : Environment) → Keeps Q (environments.create_or_update x)) where
    Keeps-existing :
        (name version : Text) → Keeps Q (existing_workspace_environment environments name version)
    unfolding existing_workspace_environment
    Keeps-existing name version = record {
      at = λ w q.
          subst Q (sym (or_not_found-world (environments.get name version w)))
            ((got name version).at w q);
    }

    Keeps-reuse_or_create :
        (new : Environment) (check_existing check_created : Environment → Result Environment)
        (existing : Option Environment)
        → Keeps Q (reuse_or_create environments new check_existing check_created existing)
    Keeps-reuse_or_create new check_existing check_created none =
        Keeps-bind _ _ (created new) (λ x. Keeps-lift _)
    Keeps-reuse_or_create new check_existing check_created (some x) = Keeps-lift _

    Keeps-find_or_create :
        (new : Environment) (check_existing check_created : Environment → Result Environment)
        (name version : Text)
        → Keeps Q (find_or_create environments new check_existing check_created name version)
    unfolding find_or_create
    Keeps-find_or_create new check_existing check_created name version =
        Keeps-bind _ _ (Keeps-existing name version)
          (Keeps-reuse_or_create new check_existing check_created)

module _ {W P C M : Type 0} (platform : Platform W P C M) {Q : W → Type 0}
    (kept : IsKeptBy platform Q) (ml_client : M) where
  Keeps-materialize_build :
      (found : Found M) (requested workspace_name : Text)
      → Keeps Q (
          materialize_build_environment platform ml_client found.registry_client found.environment
            found.registry_name found.environment_name found.version requested workspace_name)
  unfolding materialize_build_environment materialize_build import_build
  Keeps-materialize_build found requested workspace_name = Keeps-then _ _ (Keeps-lift _) (
      Keeps-within_directory platform.temporary _ kept.make kept.remove (λ directory.
        Keeps-bind _ _
          (download_registry_build_context-Keeps platform.urls platform.digests platform.disk
            platform.http platform.storage directory
            (record {
              open_url = kept.open_url;
              read = kept.read;
              helper = kept.helper;
              mkdir = λ names plain. kept.mkdir _;
              write_bytes = λ names body plain. kept.write_bytes _ body;
            })
            platform.decoders found.registry_client found.registry_name found.environment_name
            found.version _)
          (λ answer. Keeps-then _ _ (Keeps-lift _) (
            Keeps-find_or_create (platform.environments ml_client) (kept.get_environment ml_client)
              (kept.create_environment ml_client) _ _ _ _ _))))

  Keeps-materialize_image :
      (found : Found M) (requested workspace_name : Text)
      → Keeps Q (
          materialize_image_environment platform.digests.sha256_hex
            (platform.environments ml_client)
            found.environment
            found.registry_name
            found.environment_name
            found.version
            requested
            workspace_name)
  unfolding materialize_image_environment import_image
  Keeps-materialize_image found requested workspace_name = Keeps-then _ _ (Keeps-lift _) (
      Keeps-find_or_create (platform.environments ml_client) (kept.get_environment ml_client)
        (kept.create_environment ml_client) _ _ _ _ _)

  Keeps-materialize :
      (requested workspace_name : Text) (found : Found M)
      → Keeps Q (materialize platform ml_client requested workspace_name found)
  unfolding materialize
  Keeps-materialize requested workspace_name found =
      let environment = found.environment in
      let build = is_given environment.build in
      let image = truthy environment.image in
      let conda_file = truthy environment.conda_file in
      Keeps-if (build && (image || conda_file)) _ _ (Keeps-raise (runtime_error build_conflict)) (
        Keeps-if (image && conda_file) _ _ (Keeps-raise (runtime_error image_conflict)) (
          Keeps-if build _ _ (Keeps-materialize_build found requested workspace_name) (
            Keeps-if image _ _ (Keeps-materialize_image found requested workspace_name)
              (Keeps-raise (runtime_error source_unsupported)))))

  Keeps-resolve_parsed :
      (requested : Text) (o : Option RegistryReference)
      → Keeps Q (resolve_parsed platform ml_client requested o)
  unfolding resolve_parsed
  Keeps-resolve_parsed requested none = Keeps-pure _
  Keeps-resolve_parsed requested (some reference) =
      Keeps-bind _ _
        (Keeps-get_registry_environment platform.sdk platform.registry kept.get_registry ml_client
          requested)
        (λ found. Keeps-bind _ _ (Keeps-lift _) (λ workspace_name.
          Keeps-bind _ _ (Keeps-materialize requested workspace_name found) (λ x. Keeps-pure _)))

  pub resolve_batch_environment-Keeps :
      (requested : Text) → Keeps Q (resolve_batch_environment platform ml_client requested)
  unfolding resolve_batch_environment
  resolve_batch_environment-Keeps requested =
      Keeps-resolve_parsed requested (parse_registry_environment_reference requested)
