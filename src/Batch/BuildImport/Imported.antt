-- ===== src/Batch/BuildImport/Imported.antt =====
-- What `_materialize_build_environment` returns.
use mlops_templates.Prelude.{◌≡◌, ◌↔◌, refl, true, false, not, List, sym, subst, arith}
use mlops_templates.Text.{Text, truthy, one_of}
use mlops_templates.Outcome.{
  Result, ok, err, Exec, Reason, raise_if, runtime_error, build_source_unsafe, dockerfile_missing,
  existing_not_build, created_not_build,
}
use mlops_templates.Outcome.Laws.{lift-continue, raise_if-eq-ok, continue-eq-ok}
use mlops_templates.Azure.{Environment, Dict}
use mlops_templates.Posix.{as_posix}
use mlops_templates.Batch.Provenance.{registry_provenance, validate_workspace_environment}
use mlops_templates.Batch.Provenance.Collision.{IsImport, validate_workspace_environment_iff}
use mlops_templates.Batch.Import.{Environments, find_or_create}
use mlops_templates.Batch.Import.Obtained.{Obtained, find_or_create_iff}
use mlops_templates.Batch.ScoringCode.{PathNames}
use mlops_templates.Batch.BuildImport.{
  Temporary, removed, within_directory, is_given, source_uri_of, dockerfile_of, is_unsafe_build,
  as_build, check_build_import, new_build_environment, import_build, materialize_build,
}

-- The environment has the name, version, provenance and ID of the import, and a build in the place
-- of an image.
abbrev pub IsBuildImport : Text → Text → Dict → Environment → Type 0
IsBuildImport workspace_name version provenance environment =
    IsImport environment workspace_name version provenance
    × (truthy environment.image ≡ false)
    × (is_given environment.build ≡ true)

as_build-eq-ok :
    (reason : Reason) (r : Result Environment) {x : Environment}
    → as_build reason r ≡ ok x
    → (r ≡ ok x) × (truthy x.image ≡ false) × (is_given x.build ≡ true)
as_build-eq-ok reason (err exn) e = absurd (ground arith)
as_build-eq-ok reason (ok y) {x} e =
    let same : y ≡ x = ground arith in
    subst (λ z. (ok y ≡ ok z) × (truthy z.image ≡ false) × (is_given z.build ≡ true)) same
      (refl, ground arith, ground arith)

module _ (workspace_name version : Text) (provenance : Dict) (reason : Reason) where
  check_build_import_iff :
      (environment x : Environment)
      → (check_build_import workspace_name version provenance reason environment ≡ ok x)
        ↔ ((x ≡ environment) × IsBuildImport workspace_name version provenance x)
  unfolding check_build_import
  check_build_import_iff environment x = (
    λ h.
        let (validated, image, build) =
          as_build-eq-ok reason
            (validate_workspace_environment environment workspace_name version provenance) h in
        let (same, imported) =
          (validate_workspace_environment_iff environment x workspace_name version provenance).0
            validated in
        (
          same,
          (
            subst (λ z. IsImport z workspace_name version provenance) (sym same) imported,
            image,
            build,
          ),
        ),
    λ h. rw (
      (validate_workspace_environment_iff environment x workspace_name version provenance).1
          (h.0, subst (λ z. IsImport z workspace_name version provenance) h.0 h.1.0),
      h.1.1,
      h.1.2,
    ),
  )

removed-eq-ok :
    {W A : Type 0} (remove : W → W) (o : Result A × W) {a : A} {u : W}
    → removed remove o ≡ (ok a, u)
    → (v : W) × (o ≡ (ok a, v)) × (u ≡ remove v)
removed-eq-ok remove (r, v) e = (v, ground arith, ground arith)

module _ {W : Type 0} (environments : Environments W) (temporary : Temporary W)
    (download : Text → PathNames → Exec W (Text × List Text))
    (registry_name environment_name version reference workspace_name : Text) where
  -- The environment was in the workspace or is created from the directory.
  abbrev pub ObtainedFrom : PathNames → Text → Dict → W → Environment → W → Type 0
  ObtainedFrom directory dockerfile provenance =
      Obtained environments workspace_name version
        (new_build_environment workspace_name version directory dockerfile provenance)

  abbrev pub provenance_of : Text → Dict
  provenance_of manifest =
      registry_provenance registry_name environment_name version reference manifest

  -- The lookup and what follows it.
  finish_iff :
      (dockerfile : Text) (directory : PathNames) (manifest : Text) (v u : W) (x : Environment)
      → (find_or_create environments
            (new_build_environment workspace_name version directory dockerfile
              (provenance_of manifest))
            (check_build_import workspace_name version (provenance_of manifest) existing_not_build)
            (check_build_import workspace_name version (provenance_of manifest) created_not_build)
            workspace_name
            version
            v
          ≡ (ok x, u))
        ↔ (ObtainedFrom directory dockerfile (provenance_of manifest) v x u
            × IsBuildImport workspace_name version (provenance_of manifest) x)
  finish_iff dockerfile directory manifest v u x =
      find_or_create_iff environments workspace_name version
        (new_build_environment workspace_name version directory dockerfile (provenance_of manifest))
        (IsBuildImport workspace_name version (provenance_of manifest))
        (check_build_import workspace_name version (provenance_of manifest) existing_not_build)
        (check_build_import workspace_name version (provenance_of manifest) created_not_build)
        (check_build_import_iff workspace_name version (provenance_of manifest) existing_not_build)
        (check_build_import_iff workspace_name version (provenance_of manifest) created_not_build) v
        u x

  -- What the block under `with` returns from the download.
  abbrev pub ImportedIn : Text → Text → PathNames → W → Environment → W → Type 0
  ImportedIn source_uri dockerfile directory w x u =
      (manifest : Text) × (paths : List Text) × (v : W) × (download source_uri directory w
        ≡ (ok (manifest, paths), v))
      × (one_of dockerfile paths ≡ true)
      × ObtainedFrom directory dockerfile (provenance_of manifest) v x u
      × IsBuildImport workspace_name version (provenance_of manifest) x

  import_build_iff :
      (source_uri dockerfile : Text) (directory : PathNames) (w u : W) (x : Environment)
      → (import_build environments temporary download registry_name environment_name version
            reference workspace_name source_uri dockerfile directory w
          ≡ (ok x, u))
        ↔ ImportedIn source_uri dockerfile directory w x u
  unfolding import_build
  import_build_iff source_uri dockerfile directory w u x = (
    λ e.
        let (answer, v, got, e1) = continue-eq-ok _ (download source_uri directory w) e in
        let (_, has, e2) =
          lift-continue _
            (raise_if (not (one_of dockerfile answer.1)) (runtime_error dockerfile_missing)) v e1 in
        let there = raise_if-eq-ok _ _ tt has in
        let (obtained, good) = (finish_iff dockerfile directory answer.0 v u x).0 e2 in
        (answer.0, answer.1, v, got, ground (arith, there), obtained, good),
    λ h.
        let (manifest, paths, v, got, there, obtained, good) = h in
        rw (got, there, (finish_iff dockerfile directory manifest v u x).1 (obtained, good)),
  )

  -- `_materialize_build_environment` returns an environment exactly where the build source is a
  -- complete and safe one, a temporary directory was made, the build context was downloaded into
  -- it and has the Dockerfile, and the environment has a build, no image, the expected name,
  -- version and ID, and the provenance of the registry environment with the digest of the
  -- download. It was in the workspace, and nothing was created, or it was created from the
  -- directory. The directory is removed at the end.
  pub materialize_build_iff :
      (registry_environment : Environment) (w u : W) (x : Environment)
      → (materialize_build environments temporary download registry_name environment_name version
            reference workspace_name registry_environment w
          ≡ (ok x, u))
        ↔ ((is_unsafe_build registry_environment.build ≡ false)
            × (directory : PathNames) × (w1 : W) × (v : W) × (temporary.make w ≡ (ok directory, w1))
            × ImportedIn
                (source_uri_of registry_environment.build)
                (as_posix (dockerfile_of registry_environment.build))
                directory
                w1
                x
                v
            × (u ≡ temporary.remove directory v))
  unfolding materialize_build within_directory
  materialize_build_iff registry_environment w u x = (
    λ e.
        let (_, safe, e1) =
          lift-continue _
            (raise_if (is_unsafe_build registry_environment.build)
              (runtime_error build_source_unsafe))
            w e in
        let (directory, w1, made, e2) = continue-eq-ok _ (temporary.make w) e1 in
        let (v, inside, last) = removed-eq-ok (temporary.remove directory) _ e2 in
        (
          raise_if-eq-ok _ _ tt safe,
          directory,
          w1,
          v,
          made,
          (import_build_iff _ _ directory w1 v x).0 inside,
          last,
        ),
    λ h.
        let (safe, directory, w1, v, made, inside, last) = h in
        rw (safe, made, (import_build_iff _ _ directory w1 v x).1 inside, last),
  )
