-- ===== src/Batch/Live/Verified.antt =====
-- What `verify_live_deployment` lets through.
use mlops_templates.Prelude.{
  ◌≡◌, ◌↔◌, refl, Bool, true, false, not, Option, none, some, arith, length, all, ==_iff,
}
use mlops_templates.Text.{Text, or_empty, truthy}
use mlops_templates.Text.Laws.{str_eq→eq, str_eq_iff}
use mlops_templates.Outcome.{
  Result, Exn, ok, err, raise_if, runtime_error, live_environment_differs,
}
use mlops_templates.Outcome.Laws.{bind-eq-ok}
use mlops_templates.Outcome.Pure.{◌>>◌}
use mlops_templates.Azure.{Dict, BatchDeployment, CodeConfiguration}
use mlops_templates.Posix.{as_posix}
use mlops_templates.Batch.Reference.{
  RegistryReference, parse_registry_environment_reference, environment_matches,
}
use mlops_templates.Batch.Provenance.{lookup, registry_provenance, source_manifest}
use mlops_templates.Batch.Provenance.Collision.{Holds, differs→Holds, Holds→differs}
use mlops_templates.Batch.Live.{
  WorkspaceEnvironment, expected_environment_id, live_provenance, is_lower_hex, is_manifest,
  check_provenance, check_source, check_code, is_live_environment, verify_live_deployment,
}

-- The provenance is that of the registry environment, with a digest of its source.
abbrev pub IsFrom : WorkspaceEnvironment → Text → Option RegistryReference → Type 0
IsFrom environment requested_source none = Unit
IsFrom environment requested_source (some ref) =
    (provenance : Dict) × (manifest : Text) × (live_provenance environment ≡ ok provenance)
    × (length manifest ≡ 64)
    × (all is_lower_hex manifest ≡ true)
    × Holds provenance (
        registry_provenance ref.registry_name ref.environment_name ref.version requested_source
          manifest)

-- The code configuration is there, names code, and has the script.
abbrev pub HasScript : Text → Option CodeConfiguration → Type 0
HasScript scoring_script none = ⊥
HasScript scoring_script (some configuration) =
    (truthy configuration.code ≡ true)
    × (as_posix (or_empty configuration.scoring_script) ≡ scoring_script)

pub record IsVerified (deployment : BatchDeployment) (environment : WorkspaceEnvironment)
    (requested_source scoring_script : Text) : Type 0 where
  pub given : truthy deployment.environment ≡ true
  pub matched :
      environment_matches (expected_environment_id environment) (or_empty deployment.environment)
      ≡ true
  pub source :
      IsFrom environment requested_source (parse_registry_environment_reference requested_source)
  pub script : HasScript scoring_script deployment.code_configuration

check_code_iff :
    (scoring_script : Text) (o : Option CodeConfiguration)
    → (check_code scoring_script o ≡ ok tt) ↔ HasScript scoring_script o
unfolding check_code
check_code_iff scoring_script none = (λ h. absurd (ground arith), λ h. absurd h)
check_code_iff scoring_script (some configuration) = (
  λ h. (
    ground arith,
    str_eq→eq (as_posix (or_empty configuration.scoring_script)) scoring_script (ground arith),
  ),
  λ h.
      rw
        (h.0, (str_eq_iff (as_posix (or_empty configuration.scoring_script)) scoring_script).1 h.1),
)

module _ (ref : RegistryReference) (requested_source : Text) (provenance : Dict) where
  check_provenance→Holds :
      check_provenance ref requested_source provenance ≡ ok tt
      → (manifest : Text) × (length manifest ≡ 64)
        × (all is_lower_hex manifest ≡ true)
        × Holds provenance (
            registry_provenance ref.registry_name ref.environment_name ref.version requested_source
              manifest)
  unfolding is_manifest
  check_provenance→Holds h = (
    or_empty (lookup source_manifest provenance),
    ground arith,
    ground arith,
    differs→Holds provenance
        (registry_provenance ref.registry_name ref.environment_name ref.version requested_source
          (or_empty (lookup source_manifest provenance)))
        (ground arith),
  )

  Holds→check_provenance :
      (manifest : Text)
      → length manifest ≡ 64
      → all is_lower_hex manifest ≡ true
      → Holds provenance (
          registry_provenance ref.registry_name ref.environment_name ref.version requested_source
            manifest)
      → check_provenance ref requested_source provenance ≡ ok tt
  unfolding is_manifest registry_provenance
  Holds→check_provenance manifest hl ha holds =
      let found : lookup source_manifest provenance ≡ some manifest = holds.1.1.1.1.0 in
      let agrees =
        Holds→differs provenance
          (registry_provenance ref.registry_name ref.environment_name ref.version requested_source
            manifest)
          holds in
      rw (found, (==_iff (length manifest) 64).1 hl, ha, agrees)

check_source_iff :
    (environment : WorkspaceEnvironment) (requested_source : Text) (o : Option RegistryReference)
    → (check_source environment requested_source o ≡ ok tt) ↔ IsFrom environment requested_source o
unfolding check_source
check_source_iff environment requested_source none = (λ h. tt, λ h. refl)
check_source_iff environment requested_source (some ref) = (
  λ h.
      let (provenance, got, checked) =
        bind-eq-ok (live_provenance environment) (check_provenance ref requested_source) h in
      let (manifest, hl, ha, holds) =
        check_provenance→Holds ref requested_source provenance checked in
      (provenance, manifest, got, hl, ha, holds),
  λ h.
      let (provenance, manifest, got, hl, ha, holds) = h in
      rw (got, Holds→check_provenance ref requested_source provenance manifest hl ha holds),
)

-- Of three checks in a row each has passed.
all_passed :
    (b : Bool) (exn : Exn) (second third : Result (Unit {0}))
    → (raise_if (not b) exn >> (second >> third)) ≡ ok tt
    → (b ≡ true) × (second ≡ ok tt) × (third ≡ ok tt)
all_passed true exn (ok _) third h = (refl, refl, h)
all_passed true exn (err caught) third h = absurd (ground arith)
all_passed false exn second third h = absurd (ground arith)

-- `verify_live_deployment` passes a deployment exactly where the deployment has an environment that
-- matches the ID of the one that it was given, its code configuration names code and has the
-- scoring script, and, where the requested source is a registry environment, the provenance of
-- the environment is without conflict that of this source, with a manifest of 64 lower-case
-- hexadecimal digits.
pub verify_live_deployment_iff :
    (deployment : BatchDeployment) (environment : WorkspaceEnvironment)
    (requested_source scoring_script : Text)
    → (verify_live_deployment deployment environment requested_source scoring_script ≡ ok tt)
      ↔ IsVerified deployment environment requested_source scoring_script
unfolding verify_live_deployment is_live_environment
verify_live_deployment_iff deployment environment requested_source scoring_script =
    let from_source =
      check_source_iff environment requested_source
        (parse_registry_environment_reference requested_source) in
    let from_code = check_code_iff scoring_script deployment.code_configuration in
    (
      λ h.
          let (live, source, code) =
            all_passed
              (is_live_environment (expected_environment_id environment) deployment.environment)
              (runtime_error live_environment_differs)
              (check_source environment requested_source
                (parse_registry_environment_reference requested_source))
              (check_code scoring_script deployment.code_configuration) h in
          record {
            given = ground arith;
            matched = ground arith;
            source = from_source.0 source;
            script = from_code.0 code;
          },
      λ h. rw (h.given, h.matched, from_source.1 h.source, from_code.1 h.script),
    )
