-- ===== src/Batch/BuildImport.antt =====
-- `_materialize_build_environment` of src/python-sdk-v2/create_batch_deployment.py.
pub mod Imported
mod Tests
use mlops_templates.Prelude.{
  Bool, true, false, not, ◌||◌, Option, none, some, List, [], ◌∷◌, if◌then◌else◌,
}
use mlops_templates.Text.{Text, is_empty, or_empty, truthy, one_of}
use mlops_templates.Outcome.{
  Exn, Result, ok, err, raise_if, Exec, lift, continue, ◌>>=◌, ◌>>◌, Reason, runtime_error,
  build_source_unsafe, dockerfile_missing, existing_not_build, created_not_build,
}
use mlops_templates.Azure.{Environment, Build, Dict}
use mlops_templates.Posix.{parts, is_absolute, as_posix, dot_dot, join_slash}
use mlops_templates.Batch.Import.{Environments, find_or_create}
use mlops_templates.Batch.Provenance.{registry_provenance, validate_workspace_environment}
use mlops_templates.Batch.ScoringCode.{PathNames}

-- `TemporaryDirectory(prefix="azureml-registry-environment-")`: its path, and its removal, which
-- is taken not to raise.
pub record Temporary (W : Type 0) : Type 0 where
  pub make : Exec W PathNames
  pub remove : PathNames → W → W

-- A `with` block over the directory.
abbrev pub removed : {W A : Type 0} → (W → W) → Result A × W → Result A × W
removed remove (r, w) = (r, remove w)

unfoldable pub within_directory : {W A : Type 0} → Temporary W → (PathNames → Exec W A) → Exec W A
within_directory temporary body =
    temporary.make >>= λ directory w. removed (temporary.remove directory) (body directory w)

-- `str(path)`, of an absolute path
abbrev pub path_text : PathNames → Text
path_text names = b'/' ∷ join_slash names

abbrev pub is_given : Option Build → Bool
is_given none = false
is_given (some build) = true

-- `getattr(build, …, "")`, where `build` may be None
abbrev pub source_uri_of : Option Build → Text
source_uri_of none = []
source_uri_of (some build) = or_empty build.path

abbrev pub dockerfile_of : Option Build → Text
dockerfile_of none = []
dockerfile_of (some build) = or_empty build.dockerfile_path

-- The tests on the build source, any of which turns it down.
unfoldable pub is_unsafe_build : Option Build → Bool
is_unsafe_build build =
    is_empty (source_uri_of build)
    || is_empty (dockerfile_of build)
    || is_absolute (dockerfile_of build)
    || one_of dot_dot (parts (dockerfile_of build))

-- `if getattr(validated, "image", None) or not getattr(validated, "build", None): raise`, after the
-- validation
abbrev pub as_build : Reason → Result Environment → Result Environment
as_build reason (err exn) = err exn
as_build reason (ok validated) =
    if truthy validated.image || not (is_given validated.build)
    then err (runtime_error reason)
    else ok validated

unfoldable pub check_build_import : Text → Text → Dict → Reason → Environment → Result Environment
check_build_import workspace_name version provenance reason environment =
    as_build reason (validate_workspace_environment environment workspace_name version provenance)

-- `Environment(name=…, version=…, build=BuildContext(…), tags=…, properties=…)`
abbrev pub new_build_environment : Text → Text → PathNames → Text → Dict → Environment
new_build_environment workspace_name version directory dockerfile provenance = record {
  name = some workspace_name;
  version = some version;
  id = none;
  image = none;
  conda_file = none;
  build = some (record { path = some (path_text directory); dockerfile_path = some dockerfile });
  tags = some provenance;
  properties = some provenance;
}

-- `download` is `_download_registry_build_context` for the source, by the destination.
module _ {W : Type 0} (environments : Environments W) (temporary : Temporary W)
    (download : Text → PathNames → Exec W (Text × List Text))
    (registry_name environment_name version reference workspace_name : Text) where
  -- The block under `with`, by the normalized path of the Dockerfile.
  unfoldable pub import_build : Text → Text → PathNames → Exec W Environment
  import_build source_uri dockerfile directory = do
    (manifest, downloaded_paths) ← download source_uri directory
    lift (raise_if (not (one_of dockerfile downloaded_paths)) (runtime_error dockerfile_missing))
    let provenance = registry_provenance registry_name environment_name version reference manifest
    find_or_create environments
        (new_build_environment workspace_name version directory dockerfile provenance)
        (check_build_import workspace_name version provenance existing_not_build)
        (check_build_import workspace_name version provenance created_not_build) workspace_name
        version

  unfoldable pub materialize_build : Environment → Exec W Environment
  materialize_build registry_environment = do
    let build = registry_environment.build
    lift (raise_if (is_unsafe_build build) (runtime_error build_source_unsafe))
    within_directory temporary (import_build (source_uri_of build) (as_posix (dockerfile_of build)))
