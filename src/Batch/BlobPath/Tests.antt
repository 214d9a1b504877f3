-- ===== src/Batch/BlobPath/Tests.antt =====
-- Blob names that are kept and turned down. `unquote` leaves a text without `%` alone.
use mlops_templates.Prelude.{◌≡◌, refl, [], ◌∷◌, ◌++◌, All}
use mlops_templates.Text.{Text, str, str_eq, strip_prefix}
use mlops_templates.Outcome.{ok, err, runtime_error, blob_path_unsafe}
use mlops_templates.Posix.{parts, is_absolute}
use mlops_templates.Batch.BlobPath.{is_unsafe, safe_blob_relative_path}
use mlops_templates.Batch.BlobPath.Containment.{IsPlainPart, safe_blob_relative_path-IsPlainPart}

unquote : Text → Text
unquote s = s

kept :
    safe_blob_relative_path unquote (str "c/a//b.txt") (str "c/") ≡ ok (str "a" ∷ str "b.txt" ∷ [])
unfolding safe_blob_relative_path unquote str_eq strip_prefix is_unsafe is_absolute parts
kept = refl

traversal :
    safe_blob_relative_path unquote (str "c/a/../../b") (str "c/")
    ≡ err (runtime_error blob_path_unsafe)
unfolding safe_blob_relative_path unquote str_eq strip_prefix is_unsafe is_absolute parts
traversal = refl

backslash :
    safe_blob_relative_path unquote (str "c/a\\b") (str "c/") ≡ err (runtime_error blob_path_unsafe)
unfolding safe_blob_relative_path unquote str_eq strip_prefix is_unsafe is_absolute parts
backslash = refl

-- A blob whose name behind the prefix is a dot has the empty path, that of the directory itself.
lone_dot : safe_blob_relative_path unquote (str "c/.") (str "c/") ≡ ok []
unfolding safe_blob_relative_path unquote str_eq strip_prefix is_unsafe is_absolute parts
lone_dot = refl

safe_blob_relative_path-IsPlainPart_example :
    (name : Text) × (str "c/a//b.txt" ≡ str "c/" ++ name)
    × (unquote (str "c/a//b.txt") ≡ str "c/a//b.txt")
    × (str "a" ∷ str "b.txt" ∷ [] ≡ parts name)
    × All IsPlainPart (str "a" ∷ str "b.txt" ∷ [])
safe_blob_relative_path-IsPlainPart_example =
    safe_blob_relative_path-IsPlainPart unquote (str "c/a//b.txt") (str "c/") kept
