-- ===== src/Client/Credential/Policy.antt =====
-- Which credential is used: never a fallback in CI.
use mlops_templates.Prelude.{◌≡◌, refl, true, false, arith, ◌⊎◌}
use mlops_templates.Text.{str_eq}
use mlops_templates.Outcome.{Result, ok, err}
use mlops_templates.Client.Environ.{Environ}
use mlops_templates.Client.Credential.{
  Sdk, is_ci, credential_mode, choose_credential, create_azure_credential, azure_cli_mode,
  default_mode, management_scope,
}

module _ {W C M : Type 0} (sdk : Sdk W C M) where
  -- The credential that the environment selects.
  abbrev pub IsSelected : Environ → C → Type 0
  IsSelected environ c =
      (str_eq (credential_mode environ) azure_cli_mode ≡ true) × (c ≡ sdk.cli_credential)
      ⊎ (str_eq (credential_mode environ) default_mode ≡ true)
        × (is_ci environ ≡ false)
        × (c ≡ sdk.default_credential true true)

  choose-IsSelected :
      (environ : Environ) {c : C} → choose_credential sdk environ ≡ ok c → IsSelected environ c
  unfolding choose_credential
  choose-IsSelected environ {c} e = ground arith

  token_then_ok :
      (environ : Environ) (w : W) {c : C} {u : W} (r : Result C)
      → choose_credential sdk environ ≡ r
      → create_azure_credential sdk environ w ≡ (ok c, u)
      → (choose_credential sdk environ ≡ ok c) × (sdk.get_token c management_scope w ≡ (ok tt, u))
  unfolding create_azure_credential
  token_then_ok environ w (err exn) h e = ground arith
  token_then_ok environ w (ok d) h e = ground arith

  -- A credential that is returned has obtained a management token. It is the one of the Azure CLI,
  -- selected by the mode, or the local default one with its two exclusions: that only outside CI.
  pub create_azure_credential-IsSelected :
      (environ : Environ) (w : W) {c : C} {u : W}
      → create_azure_credential sdk environ w ≡ (ok c, u)
      → (sdk.get_token c management_scope w ≡ (ok tt, u)) × IsSelected environ c
  create_azure_credential-IsSelected environ w e =
      let (chosen, token) = token_then_ok environ w (choose_credential sdk environ) refl e in
      (token, choose-IsSelected environ chosen)
