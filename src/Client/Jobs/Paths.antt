-- ===== src/Client/Jobs/Paths.antt =====
-- `_safe_path_component` and `_contains_log_file` of src/python-sdk-v2/aml_client.py.
pub mod Component
mod Tests
use mlops_templates.Prelude.{
  ℕ, Bool, true, false, not, ◌&&◌, ◌||◌, List, [], ◌∷◌, ◌==◌, if◌then◌else◌, any,
}
use mlops_templates.Text.{
  Text, str, str_eq, is_empty, is_lower, is_upper, is_ascii_digit, lower, strip_of, one_of,
}
use mlops_templates.Client.Checks.{contains}

-- `[A-Za-z0-9._-]`
unfoldable pub is_component_char : ℕ → Bool
is_component_char c =
    is_lower c || is_upper c || is_ascii_digit c || c == b'.' || c == b'_' || c == b'-'

-- `re.sub(r"[^A-Za-z0-9._-]+", "_", s)`; `in_run` says that the character before was replaced.
unfoldable pub replace_runs : Bool → Text → Text
unfolding is_component_char
replace_runs in_run [] = []
replace_runs in_run (c ∷ s) =
    let rest = replace_runs (not (is_component_char c)) s in
    if is_component_char c then c ∷ rest else if in_run then rest else b'_' ∷ rest

abbrev pub is_dot_or_underscore : ℕ → Bool
is_dot_or_underscore c = c == b'.' || c == b'_'

abbrev pub or_unknown : Text → Text
or_unknown [] = str "unknown-job"
or_unknown (c ∷ s) = c ∷ s

unfoldable pub safe_path_component : Text → Text
unfolding replace_runs
safe_path_component value = or_unknown (strip_of is_dot_or_underscore (replace_runs false value))

-- A relative path, as its parts.
abbrev pub Parts : Type 0
Parts = List Text

-- `path.name`
unfoldable pub file_name : Parts → Text
file_name [] = []
file_name (part ∷ []) = part
file_name (part ∷ next ∷ parts) = file_name (next ∷ parts)

-- What begins at the last dot, where a character follows it.
unfoldable pub last_dot : Text → Text
last_dot [] = []
last_dot (c ∷ s) =
    let rest = last_dot s in
    if is_empty rest && c == b'.' && not (is_empty s) && not (any (λ d. d == b'.') s)
    then c ∷ s
    else rest

-- `path.suffix`, of a name
unfoldable pub suffix : Text → Text
unfolding last_dot
suffix [] = []
suffix (c ∷ s) = last_dot s

unfoldable pub is_log_file : Parts → Bool
unfolding suffix file_name
is_log_file path =
    one_of (lower (suffix (file_name path)))
      (str ".err" ∷ str ".log" ∷ str ".out" ∷ str ".txt" ∷ [])
    || contains (str "stderr") (lower (file_name path))
    || contains (str "stdout") (lower (file_name path))

abbrev pub contains_log_file : List Parts → Bool
contains_log_file files = any is_log_file files
