-- ===== src/Client/Wait/States.antt =====
-- The provisioning states and the defaults at the top of src/python-sdk-v2/aml_client.py.
use mlops_templates.Prelude.{ℕ, Bool, List, [], ◌∷◌}
use mlops_templates.Text.{Text, str, one_of, str_eq}

abbrev pub success_provisioning_states : List Text
success_provisioning_states = str "Succeeded" ∷ []

abbrev pub failed_provisioning_states : List Text
failed_provisioning_states = str "Failed" ∷ str "Canceled" ∷ str "Cancelled" ∷ []

abbrev pub default_resource_poll_interval_seconds : ℕ
default_resource_poll_interval_seconds = 5

abbrev pub default_resource_max_polls : ℕ
default_resource_max_polls = 120

abbrev pub default_resource_update_attempts : ℕ
default_resource_update_attempts = 3

-- `state in SUCCESS_PROVISIONING_STATES`
unfoldable pub is_success_state : Text → Bool
unfolding str_eq
is_success_state state = one_of state success_provisioning_states

-- `state in FAILED_PROVISIONING_STATES`
unfoldable pub is_failed_state : Text → Bool
unfolding str_eq
is_failed_state state = one_of state failed_provisioning_states
