-- ===== src/Client/Jobs/Paths/Tests.antt =====
-- Names of jobs that would lead elsewhere, and log files.
use mlops_templates.Prelude.{◌≡◌, refl, true, false, [], ◌∷◌}
use mlops_templates.Text.{
  str, str_eq, lower, lower_char, is_lower, is_upper, is_ascii_digit, strip_of, drop_while,
  drop_end_while, strip_prefix,
}
use mlops_templates.Client.Checks.{contains}
use mlops_templates.Client.Jobs.Paths.{
  is_component_char, replace_runs, safe_path_component, last_dot, suffix, file_name, is_log_file,
  contains_log_file,
}
use mlops_templates.Client.Jobs.Paths.Component.{IsComponent, safe_path_component-IsComponent}

leads_up : safe_path_component (str "../a b//c.") ≡ str "a_b_c"
unfolding safe_path_component strip_of drop_while drop_end_while replace_runs is_component_char
    is_lower is_upper is_ascii_digit
leads_up = refl

nothing_left : safe_path_component (str "..") ≡ str "unknown-job"
unfolding safe_path_component strip_of drop_while drop_end_while replace_runs is_component_char
    is_lower is_upper is_ascii_digit
nothing_left = refl

logs : contains_log_file ((str "x.log" ∷ str "a.b.ERR" ∷ []) ∷ []) ≡ true
unfolding is_log_file suffix last_dot file_name lower lower_char is_upper str_eq contains
    strip_prefix
logs = refl

no_logs : contains_log_file ((str "logs" ∷ str ".log" ∷ []) ∷ (str "log." ∷ []) ∷ []) ≡ false
unfolding is_log_file suffix last_dot file_name lower lower_char is_upper str_eq contains
    strip_prefix
no_logs = refl

safe_path_component-IsComponent_example : IsComponent (safe_path_component (str "../a b//c."))
safe_path_component-IsComponent_example = safe_path_component-IsComponent (str "../a b//c.")
