-- ===== src/Batch/Live/Accepted.antt =====
-- A deployment of an import passes the checks.
use mlops_templates.Prelude.{◌≡◌, refl, true, false, Option, none, some, arith, subst, sym}
use mlops_templates.Text.{Text, is_empty, or_empty, truthy, lower}
use mlops_templates.Text.Laws.{str_eq_refl}
use mlops_templates.Outcome.{Result, ok, err}
use mlops_templates.Azure.{Environment, Dict, BatchDeployment}
use mlops_templates.Batch.Reference.{
  RegistryReference, parse_registry_environment_reference, environment_matches, rstrip_slash,
}
use mlops_templates.Batch.Naming.Bounds.{IsHexDigest}
use mlops_templates.Batch.Provenance.{
  lookup, environment_provenance, registry_provenance, or_no_provenance,
}
use mlops_templates.Batch.Provenance.Collision.{Holds, IsImport}
use mlops_templates.Batch.Live.{
  entity, reference, verify_live_deployment, expected_environment_id, live_provenance,
}
use mlops_templates.Batch.Live.Verified.{IsFrom, HasScript, verify_live_deployment_iff}

-- Provenance that has the expected items has been read without a conflict.
read_without_conflict :
    (r : Result Dict) (registry_name environment_name version reference manifest : Text)
    → Holds
        (or_no_provenance r)
        (registry_provenance registry_name environment_name version reference manifest)
    → (provenance : Dict) × (r ≡ ok provenance)
      × Holds provenance
          (registry_provenance registry_name environment_name version reference manifest)
unfolding registry_provenance lookup
read_without_conflict (ok d) a b c e m holds = (d, refl, holds)
read_without_conflict (err exn) a b c e m holds = absurd (ground arith)

environment_matches_refl : (s : Text) → environment_matches s s ≡ true
unfolding environment_matches
environment_matches_refl s = rw (str_eq_refl (lower (rstrip_slash s)))

given_id : (o : Option Text) → is_empty (or_empty o) ≡ false → truthy o ≡ true
given_id none h = absurd (ground arith)
given_id (some s) h = ground arith

module _ (requested scoring_script : Text) (deployment : BatchDeployment)
    (script : HasScript scoring_script deployment.code_configuration) where
  -- It kept the ID of an environment that has the provenance of the requested reference.
  pub verify_live_deployment-IsImport :
      (ref : RegistryReference) (workspace_name manifest : Text) (x : Environment)
      → parse_registry_environment_reference requested ≡ some ref
      → IsImport x workspace_name ref.version (
          registry_provenance ref.registry_name ref.environment_name ref.version requested manifest)
      → IsHexDigest manifest
      → deployment.environment ≡ x.id
      → verify_live_deployment deployment (entity x) requested scoring_script ≡ ok tt
  unfolding expected_environment_id live_provenance
  verify_live_deployment-IsImport ref workspace_name manifest x parsed imported hex kept =
      let (provenance, read, holds) =
        read_without_conflict (environment_provenance x) ref.registry_name ref.environment_name
          ref.version requested manifest imported.provenance in
      let from : IsFrom (entity x) requested (some ref) =
        (provenance, manifest, read, hex.count, hex.digits, holds) in
      (verify_live_deployment_iff deployment (entity x) requested scoring_script).1 (record {
        given = rw kept (given_id x.id imported.identified);
        matched = rw kept (environment_matches_refl (or_empty x.id));
        source = subst (IsFrom (entity x) requested) (sym parsed) from;
        script = script;
      })

  -- It kept a reference that is not one of a registry environment.
  pub verify_live_deployment-reference :
      parse_registry_environment_reference requested ≡ none
      → is_empty requested ≡ false
      → deployment.environment ≡ some requested
      → verify_live_deployment deployment (reference requested) requested scoring_script ≡ ok tt
  unfolding expected_environment_id
  verify_live_deployment-reference parsed given kept =
      (verify_live_deployment_iff deployment (reference requested) requested scoring_script).1
        (record {
          given = rw (kept, given);
          matched = rw kept (environment_matches_refl requested);
          source = subst (IsFrom (reference requested) requested) (sym parsed) tt;
          script = script;
        })
