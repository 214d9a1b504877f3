-- ===== src/Batch/Naming.antt =====
-- `_workspace_environment_name` of src/python-sdk-v2/create_batch_deployment.py.
pub mod Dashes
pub mod Bounds
mod Tests
use mlops_templates.Prelude.{
  ℕ, Bool, true, false, not, ◌&&◌, ◌||◌, List, [], ◌∷◌, ◌++◌, ◌==◌, leb, if◌then◌else◌, length,
  take,
}
use mlops_templates.Text.{
  Text, str, is_empty, lower, is_lower, is_ascii_digit, strip_of, drop_end_while,
}
use mlops_templates.Outcome.{Result, ok, err, runtime_error, workspace_name_empty}

abbrev pub is_dash : ℕ → Bool
is_dash c = c == b'-'

-- `[a-z0-9-]`
unfoldable pub is_safe_char : ℕ → Bool
unfolding is_lower is_ascii_digit
is_safe_char c = is_lower c || is_ascii_digit c || is_dash c

-- `re.sub(r"[…]+", "-", s)`: every run of the class becomes one dash. `inside` says that the
-- character before is of the class.
unfoldable pub dash_runs : (ℕ → Bool) → Bool → Text → Text
dash_runs p inside [] = []
dash_runs p inside (c ∷ s) =
    let rest = dash_runs p (p c) s in
    if p c then (if inside then rest else b'-' ∷ rest) else c ∷ rest

-- `registry-{registry_name}-{environment_name}` in lower case
unfoldable pub raw_name : Text → Text → Text
unfolding lower
raw_name registry_name environment_name =
    lower (str "registry-" ++ (registry_name ++ (str "-" ++ environment_name)))

unfoldable pub safe_name : Text → Text
unfolding is_safe_char dash_runs strip_of
safe_name raw =
    dash_runs is_dash false (strip_of is_dash (dash_runs (λ c. not (is_safe_char c)) false raw))

-- `sha256_hex raw` is `hashlib.sha256(raw.encode("utf-8")).hexdigest()`.
module _ (sha256_hex : Text → Text) where
  unfoldable pub workspace_environment_name : Text → Text → Result Text
  workspace_environment_name registry_name environment_name =
      let raw = raw_name registry_name environment_name in
      let safe = safe_name raw in
      if is_empty safe
      then err (runtime_error workspace_name_empty)
      else if leb (length safe) 255
      then ok safe
      else ok (drop_end_while is_dash (take 242 safe) ++ (b'-' ∷ take 12 (sha256_hex raw)))
