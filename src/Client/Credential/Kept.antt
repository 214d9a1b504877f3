-- ===== src/Client/Credential/Kept.antt =====
-- What the creation of a client keeps of the world.
use mlops_templates.Text.{Text}
use mlops_templates.Outcome.Keeps.{
  Keeps, Keeps-pure, Keeps-raise, Keeps-lift, Keeps-rescue, Keeps-bind, Keeps-then,
}
use mlops_templates.Client.Environ.{Environ}
use mlops_templates.Client.Credential.{
  Sdk, management_scope, choose_credential, create_azure_credential, create_ml_client,
}

module _ {W C M : Type 0} {Q : W → Type 0} (sdk : Sdk W C M)
    (kept : (credential : C) (scope : Text) → Keeps Q (sdk.get_token credential scope)) where
  pub Keeps-create_ml_client :
      (environ : Environ) (subscription_id resource_group workspace_name : Text)
      → Keeps Q (create_ml_client sdk environ subscription_id resource_group workspace_name)
  unfolding create_ml_client create_azure_credential
  Keeps-create_ml_client environ subscription_id resource_group workspace_name =
      Keeps-bind _ _
        (Keeps-bind _ _ (Keeps-lift (choose_credential sdk environ)) (λ credential.
          Keeps-then _ _
            (Keeps-rescue _ _ (kept credential management_scope) (λ exn. Keeps-raise _))
            (Keeps-pure credential)))
        (λ credential. Keeps-pure _)
