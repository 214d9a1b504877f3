-- ===== src/Client/Identity/Tests.antt =====
-- Identities that are accepted, left out and turned down.
use mlops_templates.Prelude.{◌≡◌, ◌↔◌, refl, false, List, [], ◌∷◌, none, some}
use mlops_templates.Text.{Text, str, str_eq, is_empty, strip}
use mlops_templates.Outcome.{ok, err, runtime_error, malformed_identity}
use mlops_templates.Pattern.{ignoring_case, after_literal, span, fullmatch}
use mlops_templates.Pattern.Decides.{Matches}
use mlops_templates.Azure.{IdentityConfiguration}
use mlops_templates.Client.Identity.{
  get_user_assigned_identity_configuration, identity_pattern, is_not_slash,
  identity_configuration_iff,
}

abbrev id : Text
id =
    str
      "/subscriptions/s/resourcegroups/g/providers/microsoft.managedidentity/userAssignedIdentities/i"

abbrev configuration : IdentityConfiguration
configuration = record { type = str "user_assigned"; user_assigned_identities = id ∷ [] }

accepts : get_user_assigned_identity_configuration (some id) ≡ ok (some configuration)
unfolding get_user_assigned_identity_configuration strip str_eq fullmatch after_literal span
    ignoring_case is_not_slash
accepts = refl

blank : get_user_assigned_identity_configuration (some (str "  ")) ≡ ok none
unfolding get_user_assigned_identity_configuration strip
blank = refl

padded :
    get_user_assigned_identity_configuration (some (str " x"))
    ≡ err (runtime_error malformed_identity)
unfolding get_user_assigned_identity_configuration strip str_eq
padded = refl

identity_configuration_iff_example :
    (get_user_assigned_identity_configuration (some id) ≡ ok (some configuration)) ↔ (
      (is_empty (strip id) ≡ false)
      × (strip id ≡ id)
      × (configuration ≡ record { type = str "user_assigned"; user_assigned_identities = id ∷ [] })
      × ((groups : List Text) × Matches ignoring_case identity_pattern id groups))
identity_configuration_iff_example = identity_configuration_iff id configuration
