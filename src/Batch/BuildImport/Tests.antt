-- ===== src/Batch/BuildImport/Tests.antt =====
-- The import of a build context that holds its Dockerfile, and of one that does not.
use mlops_templates.Prelude.{◌≡◌, ◌↔◌, refl, false, some, none, List, [], ◌∷◌}
use mlops_templates.Text.{Text, str, str_eq, lower, is_digit, ends_with}
use mlops_templates.Outcome.{
  Result, ok, err, runtime_error, Exec, build_source_unsafe, dockerfile_missing,
}
use mlops_templates.Pattern.{ignoring_case, after_literal, span, fullmatch}
use mlops_templates.Posix.{parts, is_absolute, as_posix}
use mlops_templates.Azure.{Environment}
use mlops_templates.Batch.Reference.{environment_matches, rstrip_slash}
use mlops_templates.Batch.Reference.Patterns.{is_segment_char, is_name_char}
use mlops_templates.Batch.Provenance.{
  lookup, registry_provenance, environment_properties, collect_keys, environment_provenance,
  differs, validate_workspace_environment,
}
use mlops_templates.Batch.ScoringCode.{PathNames}
use mlops_templates.Batch.Import.{find_or_create}
use mlops_templates.Batch.BuildImport.{
  source_uri_of, dockerfile_of, is_unsafe_build, within_directory, check_build_import, import_build,
  materialize_build,
}
use mlops_templates.Batch.BuildImport.Imported.{ImportedIn, materialize_build_iff}
use mlops_templates.Batch.Fixture.{World, start, temporary, environments, built, requested, saved}

-- The two files of the build context are written into the directory.
abbrev download : Text → PathNames → Exec World (Text × List Text)
download source_uri directory w =
    (ok (str "digest", str "b" ∷ str "x/a" ∷ []), record w { written = directory ∷ w.written })

abbrev run : Environment → Result Environment × World
run environment =
    materialize_build environments temporary download (str "r") (str "e") (str "7") requested
      (str "registry-r-e") environment start

abbrev imported : Environment
imported = saved (record {
  name = some (str "registry-r-e");
  version = some (str "7");
  id = none;
  image = none;
  conda_file = none;
  build = some (record { path = some (str "/tmp"); dockerfile_path = some (str "x/a") });
  tags = some (registry_provenance (str "r") (str "e") (str "7") requested (str "digest"));
  properties = some (registry_provenance (str "r") (str "e") (str "7") requested (str "digest"));
})

abbrev after : World
after = record start { environment = some imported }

imports : run built ≡ (ok imported, after)
unfolding materialize_build is_unsafe_build within_directory import_build find_or_create
    check_build_import parts is_absolute as_posix str_eq validate_workspace_environment
    environment_provenance environment_properties collect_keys differs registry_provenance lookup
    environment_matches rstrip_slash fullmatch after_literal span ignoring_case is_name_char
    is_segment_char is_digit lower ends_with
imports = refl

abbrev with_dockerfile : Text → Environment
with_dockerfile path = record built {
  build = some (record { path = some (str "source"); dockerfile_path = some path });
}

lacks : run (with_dockerfile (str "Dockerfile")) ≡ (err (runtime_error dockerfile_missing), start)
unfolding materialize_build is_unsafe_build within_directory import_build parts is_absolute as_posix
    str_eq
lacks = refl

escapes : run (with_dockerfile (str "x/../a")) ≡ (err (runtime_error build_source_unsafe), start)
unfolding materialize_build is_unsafe_build parts is_absolute str_eq
escapes = refl

materialize_build_iff_example : (run built ≡ (ok imported, after)) ↔ (
    (is_unsafe_build built.build ≡ false)
    × (directory : PathNames) × (w1 : World) × (v : World) × (temporary.make start
        ≡ (ok directory, w1))
    × ImportedIn environments temporary download
        (str "r")
        (str "e")
        (str "7")
        requested
        (str "registry-r-e")
        (source_uri_of built.build)
        (as_posix (dockerfile_of built.build))
        directory
        w1
        imported
        v
    × (after ≡ temporary.remove directory v))
materialize_build_iff_example =
    materialize_build_iff environments temporary download (str "r") (str "e") (str "7") requested
      (str "registry-r-e") built start after imported
