-- ===== src/Batch/Resolve/Resolved.antt =====
-- What `resolve_batch_environment` returns.
use mlops_templates.Prelude.{
  ◌≡◌, ◌⊎◌, ◌∙◌, Bool-cases, inl, inr, refl, true, false, ◌&&◌, ◌||◌, Option, none, some, arith,
  sym, subst, List,
}
use mathlib.Core.Option.{some-injective}
use mlops_templates.Text.{Text, or_empty, truthy}
use mlops_templates.Outcome.{ok, runtime_error, build_conflict, image_conflict, Exec}
use mlops_templates.Outcome.Laws.{continue-eq-ok, lift-continue, if_raise-eq-ok, pure-eq-ok}
use mlops_templates.Azure.{Environment}
use mlops_templates.Batch.Reference.{RegistryReference, parse_registry_environment_reference}
use mlops_templates.Batch.Reference.Patterns.{is_immutable_image}
use mlops_templates.Batch.Naming.{workspace_environment_name}
use mlops_templates.Batch.Provenance.{registry_provenance}
use mlops_templates.Batch.Provenance.Collision.{IsImport}
use mlops_templates.Batch.RegistryEnvironment.{Found, get_registry_environment}
use mlops_templates.Batch.RegistryEnvironment.Located.{Ran, get_registry_environment-IsLocated}
use mlops_templates.Batch.Download.{manifest_text, download_registry_build_context}
use mlops_templates.Batch.Download.Fetched.{download_registry_build_context-IsDownloaded}
use mlops_templates.Batch.ImageImport.{image_provenance, materialize_image_environment}
use mlops_templates.Batch.ImageImport.Imported.{materialize_image_environment_iff}
use mlops_templates.Batch.BuildImport.{is_given, source_uri_of}
use mlops_templates.Batch.BuildImport.Imported.{materialize_build_iff}
use mlops_templates.Batch.Live.{WorkspaceEnvironment, reference, entity}
use mlops_templates.Batch.Platform.{Platform}
use mlops_templates.Batch.Resolve.{
  materialize_build_environment, materialize, resolve_parsed, resolve_batch_environment,
}

-- The import has the kind of source of the registry environment, which has no other: a build, or
-- an image by digest, the same one.
abbrev pub SameSource : Environment → Environment → Type 0
SameSource registry x =
    (is_given registry.build ≡ true)
      × (truthy registry.image ≡ false)
      × (truthy x.image ≡ false)
      × (is_given x.build ≡ true)
    ⊎ (is_given registry.build ≡ false)
      × (is_immutable_image (or_empty registry.image) ≡ true)
      × (or_empty x.image ≡ or_empty registry.image)

module _ {W P C M : Type 0} (platform : Platform W P C M) (ml_client : M) where
  -- The environment is an import of the one that the reference names and that its registry returned.
  pub record IsImportOf (requested : Text) (ref : RegistryReference) (w : W) (x : Environment)
      : Type 0 where
    pub found : Found M
    pub v : W
    pub workspace_name : Text
    pub digested : Text
    pub located : Ran platform.sdk platform.registry ml_client requested w found v
    pub named :
        workspace_environment_name platform.digests.sha256_hex ref.registry_name
          ref.environment_name
        ≡ ok workspace_name
    pub imported : IsImport x workspace_name ref.version (
        registry_provenance ref.registry_name ref.environment_name ref.version requested
          (platform.digests.sha256_hex digested))
    pub no_conda : truthy found.environment.conda_file ≡ false
    pub source : SameSource found.environment x

  module _ (requested workspace_name : Text) (found : Found M) (w u : W) (x : Environment) where
    abbrev Materialized : Type 0
    Materialized =
        (digested : Text) × IsImport x workspace_name found.version (
          registry_provenance found.registry_name found.environment_name found.version requested
            (platform.digests.sha256_hex digested))
        × SameSource found.environment x

    from_build :
        (is_given found.environment.build ≡ true)
        → (truthy found.environment.image ≡ false)
        → materialize_build_environment platform ml_client found.registry_client found.environment
            found.registry_name found.environment_name found.version requested workspace_name w
          ≡ (ok x, u)
        → Materialized
    unfolding materialize_build_environment
    from_build given no_image e =
        let download : Text → List Text → Exec W (Text × List Text) =
          download_registry_build_context platform.urls platform.digests platform.disk platform.http
            platform.decoders platform.storage found.registry_client found.registry_name
            found.environment_name found.version in
        let (safe, directory, w1, v, made, inside, last) =
          (materialize_build_iff (platform.environments ml_client) platform.temporary download
              found.registry_name found.environment_name found.version requested workspace_name
              found.environment w u x).0
            e in
        let (manifest, paths, v1, got, there, obtained, imported) = inside in
        let downloaded =
          download_registry_build_context-IsDownloaded platform.urls platform.digests platform.disk
            platform.http platform.decoders platform.storage found.registry_client
            found.registry_name found.environment_name found.version
            (source_uri_of found.environment.build) directory w1 v1 manifest paths got in
        (
          manifest_text downloaded.manifest,
          subst
              (λ m. IsImport x workspace_name found.version (
                registry_provenance found.registry_name found.environment_name found.version
                  requested m))
              downloaded.digest_is imported.0,
          inl (given, no_image, imported.1, imported.2),
        )

    from_image :
        (is_given found.environment.build ≡ false)
        → materialize_image_environment platform.digests.sha256_hex
            (platform.environments ml_client)
            found.environment
            found.registry_name
            found.environment_name
            found.version
            requested
            workspace_name
            w
          ≡ (ok x, u)
        → Materialized
    unfolding image_provenance
    from_image no_build e =
        let (digest, obtained, imported) =
          (materialize_image_environment_iff found.environment found.registry_name
              found.environment_name found.version requested workspace_name
              platform.digests.sha256_hex (platform.environments ml_client) w u x).0
            e in
        (or_empty found.environment.image, imported.0, inr (no_build, digest, imported.1))

    -- The tests that `resolve_batch_environment` makes leave the two kinds of sources.
    materialize-Materialized :
        materialize platform ml_client requested workspace_name found w ≡ (ok x, u)
        → Materialized × (truthy found.environment.conda_file ≡ false)
    unfolding materialize
    materialize-Materialized e =
        let environment = found.environment in
        let (no_conflict, e1) =
          if_raise-eq-ok
            (is_given environment.build
              && (truthy environment.image || truthy environment.conda_file))
            (runtime_error build_conflict) _ w e in
        let (one_image, e2) =
          if_raise-eq-ok (truthy environment.image && truthy environment.conda_file)
            (runtime_error image_conflict) _ w e1 in
        elim (Bool-cases (is_given environment.build)) [
          | inl given ↦ (
            from_build given (ground (arith, given, no_conflict)) (ground (arith, given, e2)),
            ground (arith, given, no_conflict),
          )
          | inr no_build ↦ elim (Bool-cases (truthy environment.image)) [
            | inl image ↦ (
              from_image no_build (ground (arith, no_build, image, e2)),
              ground (arith, image, one_image),
            )
            | inr no_image ↦ absurd (ground (arith, no_build, no_image, e2))
          ]
        ]

  -- By the parse of the reference.
  abbrev pub IsResolved : Text → Option RegistryReference → W → WorkspaceEnvironment → W → Type 0
  IsResolved requested none w environment u = (environment ≡ reference requested) × (w ≡ u)
  IsResolved requested (some ref) w environment u =
      (x : Environment) × (environment ≡ entity x) × IsImportOf requested ref w x

  resolve_parsed-IsResolved :
      (requested : Text) (o : Option RegistryReference) (w u : W)
      (environment : WorkspaceEnvironment)
      → parse_registry_environment_reference requested ≡ o
      → resolve_parsed platform ml_client requested o w ≡ (ok environment, u)
      → IsResolved requested o w environment u
  unfolding resolve_parsed
  resolve_parsed-IsResolved requested none w u environment parsed e = (ground arith, ground arith)
  resolve_parsed-IsResolved requested (some ref) w u environment parsed e =
      let (found, v, got, e1) =
        continue-eq-ok _
          (get_registry_environment platform.sdk platform.registry ml_client requested w) e in
      let (workspace_name, named, e2) =
        lift-continue _
          (workspace_environment_name platform.digests.sha256_hex found.registry_name
            found.environment_name)
          v e1 in
      let (x, last, made, e3) =
        continue-eq-ok _ (materialize platform ml_client requested workspace_name found v) e2 in
      let ran =
        get_registry_environment-IsLocated platform.sdk platform.registry ml_client requested w
          got in
      let (r, parsed_r, client, there, located) = ran in
      let same : r ≡ ref = some-injective _ _ (sym parsed_r ∙ parsed) in
      let ((digested, imported, source), no_conda) =
        materialize-Materialized requested workspace_name found v last x made in
      (
        x,
        sym (pure-eq-ok (entity x) last e3).0,
        record {
          found = found;
          v = v;
          workspace_name = workspace_name;
          digested = digested;
          located = ran;
          named = rw (sym same, sym located.registry_name, sym located.environment_name) named;
          imported =
              rw
                (
                  sym same,
                  sym located.registry_name,
                  sym located.environment_name,
                  sym located.version,
                )
                imported;
          no_conda = no_conda;
          source = source;
        },
      )

  -- A reference that names no registry environment is returned as it is, and the world is left as
  -- it was. For one that does, whatever is returned is an import of the environment that the
  -- registry returned for it: its name is the workspace name of the two, its provenance is that of
  -- the reference with a SHA-256 digest, it has a build where the registry environment has one and
  -- no image, and the same image by digest where that has an image and no build, and the registry
  -- environment has no Conda file.
  pub resolve_batch_environment-IsResolved :
      (requested : Text) (w u : W) (environment : WorkspaceEnvironment)
      → resolve_batch_environment platform ml_client requested w ≡ (ok environment, u)
      → IsResolved requested (parse_registry_environment_reference requested) w environment u
  unfolding resolve_batch_environment
  resolve_batch_environment-IsResolved requested w u environment e =
      resolve_parsed-IsResolved requested (parse_registry_environment_reference requested) w u
        environment refl e
