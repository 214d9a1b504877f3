-- ===== src/Batch/Source/Access/Kept.antt =====
-- The access to a source changes no more of the world than the helper does.
use mlops_templates.Prelude.{◌≡◌, some}
use mlops_templates.Text.{Text}
use mlops_templates.Outcome.Keeps.{
  Keeps, Keeps-raise, Keeps-lift, Keeps-if, Keeps-rescue, Keeps-bind, Keeps-bind_lift,
}
use mlops_templates.Batch.Source.{Urls}
use mlops_templates.Batch.Source.Access.{
  Storage, Helper, validate_sdk_registry_helper, authenticated_container_url,
}
use mlops_templates.Batch.Source.Access.Trusted.{validate_sdk_registry_helper-eq-ok}

module _ {W M : Type 0} {Q : W → Type 0} (urls : Urls) (storage : Storage W M)
    (kept : (helper : Helper W M) (client : M) (name version group registry uri : Text)
      → storage.helper ≡ some helper
      → Keeps Q (helper client name version group registry uri)) where
  pub Keeps-authenticated_container_url :
      (client : M) (registry_name environment_name version source_uri : Text)
      → Keeps Q (
          authenticated_container_url urls storage client registry_name environment_name version
            source_uri)
  unfolding authenticated_container_url
  Keeps-authenticated_container_url client registry_name environment_name version source_uri =
      Keeps-bind_lift (validate_sdk_registry_helper storage) _ (λ helper e.
        Keeps-if _ _ _ (Keeps-raise _) (
          Keeps-bind _ _
            (Keeps-rescue _ _
              (kept helper client environment_name version _ registry_name source_uri
                (validate_sdk_registry_helper-eq-ok storage e).0)
              (λ exn. Keeps-raise _))
            (λ answer. Keeps-lift _)))
