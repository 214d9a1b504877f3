-- ===== src/Batch/ImageImport.antt =====
-- `_materialize_image_environment` of src/python-sdk-v2/create_batch_deployment.py.
pub mod Imported
mod Tests
use mlops_templates.Prelude.{Bool, true, false, not, Option, none, some, if◌then◌else◌}
use mlops_templates.Text.{Text, str_eq, or_empty}
use mlops_templates.Outcome.{
  Exn, Result, ok, err, raise_if, Exec, lift, ◌>>=◌, ◌>>◌, Reason, runtime_error,
  resource_not_found, image_not_by_digest, existing_image_differs, created_image_differs,
}
use mlops_templates.Azure.{Environment, Dict}
use mlops_templates.Batch.Import.{Environments, find_or_create}
use mlops_templates.Batch.Reference.Patterns.{is_immutable_image}
use mlops_templates.Batch.Provenance.{registry_provenance, validate_workspace_environment}

-- What the registry environment is imported as: the four texts of its source, the name in the
-- workspace and the image.
pub record Source : Type 0 where
  pub registry_name : Text
  pub environment_name : Text
  pub version : Text
  pub reference : Text
  pub workspace_name : Text
  pub image : Text

-- `if str(getattr(validated, "image", "") or "") != image: raise`, after the validation
abbrev pub with_image : Text → Reason → Result Environment → Result Environment
with_image image reason (err exn) = err exn
with_image image reason (ok validated) =
    if not (str_eq (or_empty validated.image) image)
    then err (runtime_error reason)
    else ok validated

-- The two statements that follow a lookup and a creation alike.
unfoldable pub check_import : Source → Dict → Reason → Environment → Result Environment
check_import source provenance reason environment =
    with_image source.image reason
      (validate_workspace_environment environment source.workspace_name source.version provenance)

-- `Environment(name=…, version=…, image=…, tags=…, properties=…)`
abbrev pub new_environment : Source → Dict → Environment
new_environment source provenance = record {
  name = some source.workspace_name;
  version = some source.version;
  id = none;
  image = some source.image;
  conda_file = none;
  build = none;
  tags = some provenance;
  properties = some provenance;
}

-- `sha256_hex` is as in Naming.
unfoldable pub image_provenance : (Text → Text) → Source → Dict
image_provenance sha256_hex source =
    registry_provenance source.registry_name source.environment_name source.version source.reference
      (sha256_hex source.image)

module _ {W : Type 0} (sha256_hex : Text → Text) (environments : Environments W) where
  unfoldable pub import_image : Source → Exec W Environment
  import_image source = do
    lift (raise_if (not (is_immutable_image source.image)) (runtime_error image_not_by_digest))
    let provenance = image_provenance sha256_hex source
    find_or_create environments (new_environment source provenance)
        (check_import source provenance existing_image_differs)
        (check_import source provenance created_image_differs) source.workspace_name source.version

  unfoldable pub materialize_image_environment :
      Environment → Text → Text → Text → Text → Text → Exec W Environment
  materialize_image_environment registry_environment registry_name environment_name version
        reference workspace_name =
      import_image (record {
        registry_name = registry_name;
        environment_name = environment_name;
        version = version;
        reference = reference;
        workspace_name = workspace_name;
        image = or_empty registry_environment.image;
      })
