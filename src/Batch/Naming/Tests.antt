-- ===== src/Batch/Naming/Tests.antt =====
-- Names of imported environments.
use mlops_templates.Prelude.{ℕ, zero, suc, ◌≡◌, refl, [], ◌∷◌}
use mlops_templates.Text.{Text, str, lower_char, drop_while, drop_end_while, is_ascii_digit}
use mlops_templates.Outcome.{ok}
use mlops_templates.Batch.Naming.{raw_name, safe_name, workspace_environment_name}
use mlops_templates.Batch.Naming.Bounds.{IsName, IsHexDigest, workspace_environment_name-IsName}

abbrev copies : ℕ → Text → Text
copies zero s = s
copies (suc n) s = b'0' ∷ copies n s

digest : Text → Text
digest s = copies 64 []

digest-IsHexDigest : (s : Text) → IsHexDigest (digest s)
unfolding digest is_ascii_digit
digest-IsHexDigest s = record { count = refl; digits = refl }

punctuation :
    workspace_environment_name digest (str "Azure_ML") (str "--Env__1.5--")
    ≡ ok (str "registry-azure-ml-env-1-5")
unfolding workspace_environment_name raw_name safe_name lower_char drop_while drop_end_while
punctuation = refl

workspace_environment_name-IsName_example :
    (name : Text) × (workspace_environment_name digest (str "Azure_ML") (str "--Env__1.5--")
      ≡ ok name)
    × IsName name
workspace_environment_name-IsName_example =
    workspace_environment_name-IsName digest (str "Azure_ML") (str "--Env__1.5--")
      digest-IsHexDigest
