-- ===== src/Client/Identity.antt =====
-- `get_user_assigned_identity_configuration` of src/python-sdk-v2/aml_client.py.
mod Tests
use mlops_templates.Prelude.{
  ℕ, ◌≡◌, ◌↔◌, refl, Bool, true, false, not, ◌&&◌, ◌||◌, Option, none, some, List, [], ◌∷◌, ◌++◌,
  arith, ◌==◌, if◌then◌else◌, inl, inr, ap, ◌∙◌, sym,
}
use mlops_templates.Text.{Text, str, str_eq, is_empty, strip, lower_char}
use mlops_templates.Text.Laws.{str_eq→eq, str_eq_refl}
use mlops_templates.Outcome.{Result, ok, err, runtime_error, malformed_identity}
use mlops_templates.Pattern.{Piece, lit, run, ignoring_case, fullmatch}
use mlops_templates.Pattern.Decides.{Matches, Delimited, fullmatch_sound, fullmatch_complete}
use mlops_templates.Azure.{IdentityConfiguration}

-- `[^/]`
unfoldable pub is_not_slash : ℕ → Bool
is_not_slash c = not (c == b'/')

-- USER_ASSIGNED_IDENTITY_RESOURCE_ID_PATTERN; under `fullmatch` its anchors add nothing.
abbrev pub identity_pattern : List Piece
identity_pattern =
    lit (str "/subscriptions/")
    ∷ run is_not_slash
    ∷ lit (str "/resourceGroups/")
    ∷ run is_not_slash
    ∷ lit (str "/providers/Microsoft.ManagedIdentity/userAssignedIdentities/")
    ∷ run is_not_slash
    ∷ []

abbrev is_some : Option (List Text) → Bool
is_some none = false
is_some (some groups) = true

unfoldable pub get_user_assigned_identity_configuration :
    Option Text → Result (Option IdentityConfiguration)
get_user_assigned_identity_configuration none = ok none
get_user_assigned_identity_configuration (some resource_id) =
    if is_empty (strip resource_id)
    then ok none
    else if not (str_eq resource_id (strip resource_id))
        || not (is_some (fullmatch ignoring_case identity_pattern resource_id))
    then err (runtime_error malformed_identity)
    else ok
        (some (record { type = str "user_assigned"; user_assigned_identities = resource_id ∷ [] }))

slash_apart : (d : ℕ) → ignoring_case b'/' d ≡ true → is_not_slash d ≡ false
unfolding ignoring_case lower_char is_not_slash
slash_apart d h = ground arith

identity-Delimited : Delimited ignoring_case identity_pattern
identity-Delimited = (slash_apart, (slash_apart, tt))

accepted_parts :
    (s : Text) (gs : Option (List Text)) {c : IdentityConfiguration}
    → fullmatch ignoring_case identity_pattern s ≡ gs
    → get_user_assigned_identity_configuration (some s) ≡ ok (some c)
    → (is_empty (strip s) ≡ false)
      × (strip s ≡ s)
      × (c ≡ record { type = str "user_assigned"; user_assigned_identities = s ∷ [] })
      × ((groups : List Text) × (gs ≡ some groups))
unfolding get_user_assigned_identity_configuration
accepted_parts s none {c} m e = ground arith
accepted_parts s (some groups) {c} m e =
    (ground arith, ground (arith, str_eq→eq s (strip s)), ground arith, (groups, refl))

-- A configuration is returned exactly for a text with no space around it that the pattern of a
-- full user-assigned identity ID matches, and it holds that text as its one identity.
pub identity_configuration_iff :
    (s : Text) (c : IdentityConfiguration)
    → (get_user_assigned_identity_configuration (some s) ≡ ok (some c)) ↔ (
        (is_empty (strip s) ≡ false)
        × (strip s ≡ s)
        × (c ≡ record { type = str "user_assigned"; user_assigned_identities = s ∷ [] })
        × ((groups : List Text) × Matches ignoring_case identity_pattern s groups))
unfolding get_user_assigned_identity_configuration
identity_configuration_iff s c = (
  λ e.
      let (filled, stripped, is, found) =
        accepted_parts s (fullmatch ignoring_case identity_pattern s) refl e in
      (
        filled,
        stripped,
        is,
        (found.0, fullmatch_sound ignoring_case identity_pattern s found.0 found.1),
      ),
  λ h.
      let m = fullmatch_complete ignoring_case identity_pattern identity-Delimited h.3.1 in
      rw (h.0, h.1, m, str_eq_refl, h.2),
)
