-- ===== src/Batch/ImageImport/Imported.antt =====
-- What `_materialize_image_environment` returns.
use mlops_templates.Prelude.{◌≡◌, ◌↔◌, inl, sym, subst, ap, true, not, arith}
use mlops_templates.Text.{Text, or_empty}
use mlops_templates.Text.Laws.{str_eq→eq, str_eq_iff}
use mlops_templates.Outcome.{
  Result, ok, err, Reason, raise_if, runtime_error, image_not_by_digest, existing_image_differs,
  created_image_differs,
}
use mlops_templates.Outcome.Laws.{lift-continue, raise_if-eq-ok}
use mlops_templates.Azure.{Environment, Dict}
use mlops_templates.Batch.Reference.Patterns.{is_immutable_image}
use mlops_templates.Batch.Provenance.{validate_workspace_environment}
use mlops_templates.Batch.Provenance.Collision.{IsImport, validate_workspace_environment_iff}
use mlops_templates.Batch.Import.{Environments}
use mlops_templates.Batch.Import.Obtained.{Obtained, find_or_create_iff}
use mlops_templates.Batch.ImageImport.{
  Source, with_image, check_import, new_environment, image_provenance, import_image,
  materialize_image_environment,
}

-- The environment has the name, version, provenance and ID of the import, and the source's image.
abbrev pub IsImageImport : Source → Dict → Environment → Type 0
IsImageImport source provenance environment =
    IsImport environment source.workspace_name source.version provenance
    × (or_empty environment.image ≡ source.image)

with_image-eq-ok :
    (image : Text) (reason : Reason) (r : Result Environment) {x : Environment}
    → with_image image reason r ≡ ok x
    → (r ≡ ok x) × (or_empty x.image ≡ image)
with_image-eq-ok image reason (err exn) e = absurd (ground arith)
with_image-eq-ok image reason (ok y) {x} e =
    let same : y ≡ x = ground arith in
    (
      ap ok same,
      subst (λ z. or_empty z.image ≡ image) same
          (str_eq→eq (or_empty y.image) image (ground arith)),
    )

module _ (source : Source) (provenance : Dict) (reason : Reason) where
  check_import_iff :
      (environment x : Environment)
      → (check_import source provenance reason environment ≡ ok x)
        ↔ ((x ≡ environment) × IsImageImport source provenance x)
  unfolding check_import
  check_import_iff environment x = (
    λ h.
        let (validated, image) =
          with_image-eq-ok source.image reason
            (validate_workspace_environment environment source.workspace_name source.version
              provenance)
            h in
        let (same, imported) =
          (validate_workspace_environment_iff environment x source.workspace_name source.version
              provenance).0
            validated in
        (
          same,
          (
            subst (λ z. IsImport z source.workspace_name source.version provenance) (sym same)
                imported,
            image,
          ),
        ),
    λ h. rw (
      (validate_workspace_environment_iff environment x source.workspace_name source.version
            provenance).1
          (h.0, subst (λ z. IsImport z source.workspace_name source.version provenance) h.0 h.1.0),
      (str_eq_iff (or_empty x.image) source.image).1 h.1.1,
    ),
  )

module _ {W : Type 0} (sha256_hex : Text → Text) (environments : Environments W)
    (source : Source) where
  -- The environment was in the workspace or is created for the source.
  abbrev pub ObtainedFor : W → Environment → W → Type 0
  ObtainedFor =
      Obtained environments source.workspace_name source.version
        (new_environment source (image_provenance sha256_hex source))

  import_image_iff :
      (w u : W) (x : Environment)
      → (import_image sha256_hex environments source w ≡ (ok x, u)) ↔ (
          (is_immutable_image source.image ≡ true)
          × ObtainedFor w x u
          × IsImageImport source (image_provenance sha256_hex source) x)
  unfolding import_image
  import_image_iff w u x =
      let provenance = image_provenance sha256_hex source in
      let reuse_or_create_iff =
        find_or_create_iff environments source.workspace_name source.version
          (new_environment source provenance) (IsImageImport source provenance)
          (check_import source provenance existing_image_differs)
          (check_import source provenance created_image_differs)
          (check_import_iff source provenance existing_image_differs)
          (check_import_iff source provenance created_image_differs) w u x in
      (
        λ e.
            let (_, digest, e1) =
              lift-continue _
                (raise_if (not (is_immutable_image source.image))
                  (runtime_error image_not_by_digest))
                w e in
            let is_digest = raise_if-eq-ok _ _ tt digest in
            let (obtained, good) = reuse_or_create_iff.0 e1 in
            (ground (arith, is_digest), obtained, good),
        λ h. rw h.0 (reuse_or_create_iff.1 (h.1, h.2)),
      )

module _ (registry_environment : Environment)
    (registry_name environment_name version reference workspace_name : Text) where
  abbrev pub source_of : Source
  source_of = record {
    registry_name = registry_name;
    environment_name = environment_name;
    version = version;
    reference = reference;
    workspace_name = workspace_name;
    image = or_empty registry_environment.image;
  }

  module _ {W : Type 0} (sha256_hex : Text → Text) (environments : Environments W) where
    -- `_materialize_image_environment` returns an environment exactly where the registry environment
    -- is an image by digest, and the environment has that image, the expected name, version and ID,
    -- and the provenance of the registry environment with the digest of its image. It was in the
    -- workspace, and nothing was created, or the lookup said that there is none, and the service
    -- returned it for the new one.
    pub materialize_image_environment_iff :
        (w u : W) (x : Environment)
        → (materialize_image_environment sha256_hex environments registry_environment registry_name
              environment_name version reference workspace_name w
            ≡ (ok x, u))
          ↔ ((is_immutable_image source_of.image ≡ true)
              × ObtainedFor sha256_hex environments source_of w x u
              × IsImageImport source_of (image_provenance sha256_hex source_of) x)
    unfolding materialize_image_environment
    materialize_image_environment_iff w u x =
        import_image_iff sha256_hex environments source_of w u x

    -- A second import finds what the first one returned and creates nothing, where the service finds
    -- an environment that it has just returned under its name and version.
    pub materialize_image_environment_idem :
        (w u : W) (x : Environment)
        → materialize_image_environment sha256_hex environments registry_environment registry_name
            environment_name version reference workspace_name w
          ≡ (ok x, u)
        → environments.get workspace_name version u ≡ (ok x, u)
        → materialize_image_environment sha256_hex environments registry_environment registry_name
            environment_name version reference workspace_name u
          ≡ (ok x, u)
    materialize_image_environment_idem w u x first law =
        let (digest, obtained, imported) = (materialize_image_environment_iff w u x).0 first in
        (materialize_image_environment_iff u u x).1 (digest, inl law, imported)
