-- ===== src/Batch/RegistryEnvironment/Kept.antt =====
-- What the lookup of a registry environment keeps of the world.
use mlops_templates.Prelude.{Option, none, some}
use mlops_templates.Text.{Text}
use mlops_templates.Outcome.Keeps.{
  Keeps, Keeps-pure, Keeps-raise, Keeps-lift, Keeps-rescue, Keeps-bind, Keeps-then,
}
use mlops_templates.Client.Credential.{Sdk}
use mlops_templates.Batch.Reference.{RegistryReference, parse_registry_environment_reference}
use mlops_templates.Batch.RegistryEnvironment.{
  Registry, get_parsed, get_if_parsed, get_registry_environment,
}

module _ {W C M : Type 0} {Q : W → Type 0} (sdk : Sdk W C M) (registry : Registry W M)
    (kept : (client : M) (name version : Text) → Keeps Q (registry.get client name version))
    (ml_client : M) (requested : Text) where
  Keeps-get_parsed :
      (reference : RegistryReference)
      → Keeps Q (get_parsed sdk registry ml_client requested reference)
  unfolding get_parsed
  Keeps-get_parsed reference = Keeps-then _ _ (Keeps-lift _) (
      Keeps-bind _ _ (Keeps-lift _) (λ client.
        Keeps-bind _ _
          (Keeps-rescue _ _ (kept client reference.environment_name reference.version)
            (λ exn. Keeps-raise _))
          (λ environment.
            Keeps-then _ _ (Keeps-lift _) (Keeps-then _ _ (Keeps-lift _) (Keeps-pure _)))))

  Keeps-get_if_parsed :
      (o : Option RegistryReference) → Keeps Q (get_if_parsed sdk registry ml_client requested o)
  Keeps-get_if_parsed none = Keeps-raise _
  Keeps-get_if_parsed (some reference) = Keeps-get_parsed reference

  pub Keeps-get_registry_environment :
      Keeps Q (get_registry_environment sdk registry ml_client requested)
  unfolding get_registry_environment
  Keeps-get_registry_environment =
      Keeps-get_if_parsed (parse_registry_environment_reference requested)
