-- ===== src/Batch/ScoringCode/Tests.antt =====
-- A repository with a scoring directory, and one whose directory is a link that leads out.
use mlops_templates.Prelude.{◌≡◌, refl, true, [], ◌∷◌}
use mlops_templates.Text.{str, str_eq}
use mlops_templates.Outcome.{ok, err, value_error, code_outside_root, code_from_sdk}
use mlops_templates.Posix.{parts, is_absolute, join_slash}
use mlops_templates.Batch.ScoringCode.{
  FileSystem, is_traversing, check_inputs, relative_to, resolve_scoring_code,
}
use mlops_templates.Batch.ScoringCode.Inside.{IsInside, resolve_scoring_code-IsInside}

-- Every path is its own resolution, and all are directories and files.
abbrev plain : FileSystem
plain = record {
  resolve_root = λ s. ok (str "repo" ∷ []);
  resolve = λ path. ok path;
  is_dir = λ path. true;
  is_file = λ path. true;
}

abbrev linked : FileSystem
linked = record plain { resolve = λ path. ok (str "etc" ∷ []) }

inside :
    resolve_scoring_code plain (str "/repo") (str "ml/./scoring") (str "src//score.py")
    ≡ ok (str "repo" ∷ str "ml" ∷ str "scoring" ∷ [], str "src/score.py")
unfolding resolve_scoring_code check_inputs is_traversing relative_to parts is_absolute str_eq
    join_slash
inside = refl

outside :
    resolve_scoring_code linked (str "/repo") (str "scoring") (str "score.py")
    ≡ err (value_error code_outside_root)
unfolding resolve_scoring_code check_inputs is_traversing relative_to parts is_absolute str_eq
    join_slash
outside = refl

reusable :
    resolve_scoring_code plain (str "/repo") (str ".mlops-python-sdk/src") (str "score.py")
    ≡ err (value_error code_from_sdk)
unfolding resolve_scoring_code check_inputs is_traversing relative_to parts is_absolute str_eq
    join_slash
reusable = refl

resolve_scoring_code-IsInside_example :
    IsInside plain
      (str "/repo")
      (str "ml/./scoring")
      (str "src//score.py")
      (str "repo" ∷ str "ml" ∷ str "scoring" ∷ [])
      (str "src/score.py")
resolve_scoring_code-IsInside_example =
    resolve_scoring_code-IsInside plain (str "/repo") (str "ml/./scoring") (str "src//score.py")
      inside
