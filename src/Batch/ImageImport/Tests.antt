-- ===== src/Batch/ImageImport/Tests.antt =====
-- The import of an image into a workspace that keeps one environment.
use mlops_templates.Prelude.{ℕ, zero, suc, ◌≡◌, ◌↔◌, refl, true, Option, none, some, [], ◌∷◌}
use mlops_templates.Text.{Text, str, str_eq, is_digit, is_hex, is_space, lower, ends_with, or_empty}
use mlops_templates.Outcome.{
  Result, ok, err, runtime_error, resource_not_found, image_not_by_digest, workspace_collision,
}
use mlops_templates.Pattern.{ignoring_case, after_literal, span, fullmatch}
use mlops_templates.Azure.{Environment}
use mlops_templates.Batch.Reference.{environment_matches, rstrip_slash}
use mlops_templates.Batch.Reference.Patterns.{
  is_name_char, is_segment_char, is_image_char, is_immutable_image,
}
use mlops_templates.Batch.Provenance.{
  lookup, registry_provenance, environment_properties, collect_keys, environment_provenance,
  differs, validate_workspace_environment,
}
use mlops_templates.Batch.Import.{Environments, find_or_create}
use mlops_templates.Batch.ImageImport.{
  check_import, image_provenance, import_image, materialize_image_environment,
}
use mlops_templates.Batch.ImageImport.Imported.{
  IsImageImport, ObtainedFor, source_of, materialize_image_environment_iff,
  materialize_image_environment_idem,
}

abbrev copies : ℕ → Text
copies zero = []
copies (suc n) = b'0' ∷ copies n

digest : Text → Text
digest s = copies 64

abbrev World : Type 0
World = Option Environment

abbrev found_or_missing : World → Result Environment × World
found_or_missing none = (err resource_not_found, none)
found_or_missing (some environment) = (ok environment, some environment)

abbrev saved : Environment → Environment
saved environment = record environment { id = some (str "azureml:registry-r-e:7") }

abbrev service : Environments World
service = record {
  get = λ name version w. found_or_missing w;
  create_or_update = λ environment w. (ok (saved environment), some (saved environment));
}

abbrev requested : Text
requested = str "azureml://registries/r/environments/e/versions/7"

abbrev with_image : Text → Environment
with_image image = record {
  name = some (str "e");
  version = some (str "7");
  id = some requested;
  image = some image;
  conda_file = none;
  build = none;
  tags = none;
  properties = none;
}

abbrev by_digest : Environment
by_digest =
    with_image
      (str "mcr.io/e@sha256:0123456789abcdef0123456789abcdef0123456789abcdef0123456789abcdef")

abbrev run : Environment → World → Result Environment × World
run environment w =
    materialize_image_environment digest service environment (str "r") (str "e") (str "7") requested
      (str "registry-r-e") w

imported : Environment
imported = saved (record {
  name = some (str "registry-r-e");
  version = some (str "7");
  id = none;
  image = by_digest.image;
  conda_file = none;
  build = none;
  tags = some (registry_provenance (str "r") (str "e") (str "7") requested (copies 64));
  properties = some (registry_provenance (str "r") (str "e") (str "7") requested (copies 64));
})

created : run by_digest none ≡ (ok imported, some imported)
unfolding materialize_image_environment import_image find_or_create image_provenance check_import
    digest imported is_immutable_image fullmatch after_literal span ignoring_case is_image_char
    is_space is_hex validate_workspace_environment environment_provenance environment_properties
    collect_keys differs registry_provenance lookup str_eq environment_matches rstrip_slash
    is_name_char is_segment_char is_digit lower ends_with
created = refl

by_tag : run (with_image (str "mcr.io/e:7")) none ≡ (err (runtime_error image_not_by_digest), none)
unfolding materialize_image_environment import_image is_immutable_image fullmatch after_literal span
    ignoring_case is_image_char is_space is_hex
by_tag = refl

collides :
    run by_digest (some by_digest) ≡ (err (runtime_error workspace_collision), some by_digest)
unfolding materialize_image_environment import_image find_or_create image_provenance check_import
    is_immutable_image fullmatch after_literal span ignoring_case is_image_char is_space is_hex
    validate_workspace_environment str_eq
collides = refl

materialize_image_environment_iff_example : (run by_digest none ≡ (ok imported, some imported)) ↔ (
    (is_immutable_image (or_empty by_digest.image) ≡ true)
    × ObtainedFor digest service
        (source_of by_digest (str "r") (str "e") (str "7") requested (str "registry-r-e"))
        none
        imported
        (some imported)
    × IsImageImport
        (source_of by_digest (str "r") (str "e") (str "7") requested (str "registry-r-e"))
        (image_provenance digest
          (source_of by_digest (str "r") (str "e") (str "7") requested (str "registry-r-e")))
        imported)
materialize_image_environment_iff_example =
    materialize_image_environment_iff by_digest (str "r") (str "e") (str "7") requested
      (str "registry-r-e") digest service none (some imported) imported

materialize_image_environment_idem_example :
    run by_digest (some imported) ≡ (ok imported, some imported)
materialize_image_environment_idem_example =
    materialize_image_environment_idem by_digest (str "r") (str "e") (str "7") requested
      (str "registry-r-e") digest service none (some imported) imported created refl
