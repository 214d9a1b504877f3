-- ===== src/Batch/Resolve/Accepted.antt =====
-- A resolved environment passes the checks on the live deployment.
use mlops_templates.Prelude.{◌≡◌, ◌∙◌, refl, false, Option, none, some, sym, ap, subst}
use mlops_templates.Text.{Text, is_empty}
use mlops_templates.Outcome.{ok}
use mlops_templates.Azure.{BatchDeployment}
use mlops_templates.Batch.Reference.{RegistryReference, parse_registry_environment_reference}
use mlops_templates.Batch.Naming.Bounds.{IsHexDigest}
use mlops_templates.Batch.Live.{WorkspaceEnvironment, reference, entity, verify_live_deployment}
use mlops_templates.Batch.Live.Verified.{HasScript}
use mlops_templates.Batch.Live.Accepted.{
  verify_live_deployment-IsImport, verify_live_deployment-reference,
}
use mlops_templates.Batch.Platform.{Platform}
use mlops_templates.Batch.Resolve.{resolve_batch_environment}
use mlops_templates.Batch.Resolve.Resolved.{IsResolved, resolve_batch_environment-IsResolved}

-- What a deployment that is given the environment names.
abbrev pub environment_id : WorkspaceEnvironment → Option Text
environment_id (reference s) = some s
environment_id (entity x) = x.id

module _ {W P C M : Type 0} (platform : Platform W P C M) (ml_client : M) where
  module _ (requested scoring_script : Text) (deployment : BatchDeployment)
      (script : HasScript scoring_script deployment.code_configuration)
      (digests : (s : Text) → IsHexDigest (platform.digests.sha256_hex s))
      (given : is_empty requested ≡ false) (w u : W) (environment : WorkspaceEnvironment)
      (kept : deployment.environment ≡ environment_id environment) where
    accepted :
        (o : Option RegistryReference)
        → parse_registry_environment_reference requested ≡ o
        → IsResolved platform ml_client requested o w environment u
        → verify_live_deployment deployment environment requested scoring_script ≡ ok tt
    accepted none parsed (same, last) =
        subst (λ e. verify_live_deployment deployment e requested scoring_script ≡ ok tt) (sym same)
          (verify_live_deployment-reference requested scoring_script deployment script parsed given
            (kept ∙ ap environment_id same))
    accepted (some ref) parsed (x, same, import) =
        subst (λ e. verify_live_deployment deployment e requested scoring_script ≡ ok tt) (sym same)
          (verify_live_deployment-IsImport requested scoring_script deployment script ref
            import.workspace_name (platform.digests.sha256_hex import.digested) x parsed
            import.imported (digests import.digested) (kept ∙ ap environment_id same))

    -- After a reference was resolved, `verify_live_deployment` passes every deployment that kept the
    -- environment which the resolution returned (its ID, or the reference itself) and has a code
    -- configuration with code and the scoring script: the reference must not be empty, and any
    -- function may stand for SHA-256 whose digests are 64 lower-case hexadecimal digits.
    pub verify_live_deployment-resolved :
        resolve_batch_environment platform ml_client requested w ≡ (ok environment, u)
        → verify_live_deployment deployment environment requested scoring_script ≡ ok tt
    verify_live_deployment-resolved e =
        accepted (parse_registry_environment_reference requested) refl
          (resolve_batch_environment-IsResolved platform ml_client requested w u environment e)
