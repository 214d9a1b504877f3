-- ===== src/Batch/BlobPath.antt =====
-- `_safe_blob_relative_path` of src/python-sdk-v2/create_batch_deployment.py. The path that it
-- returns is the list of its parts.
pub mod Containment
mod Tests
use mlops_templates.Prelude.{
  ℕ, Bool, true, false, not, ◌||◌, Option, none, some, List, [], ◌∷◌, ◌==◌, ltb, if◌then◌else◌, any,
}
use mlops_templates.Text.{Text, str_eq, is_empty, strip_prefix, one_of}
use mlops_templates.Outcome.{Result, ok, err, runtime_error, blob_outside_prefix, blob_path_unsafe}
use mlops_templates.Posix.{parts, is_absolute, dot, dot_dot}

abbrev pub RelativePath : Type 0
RelativePath = List Text

-- The tests on the name behind the prefix, any of which turns it down.
unfoldable pub is_unsafe : Text → Bool
is_unsafe name =
    is_empty name
    || is_absolute name
    || one_of dot_dot (parts name)
    || any (λ c. c == b'\\') name
    || any (λ c. ltb c 32) name
    || any (λ part. is_empty part || str_eq part dot || str_eq part dot_dot) (parts name)

abbrev pub relative_path : Option Text → Result RelativePath
relative_path none = err (runtime_error blob_outside_prefix)
relative_path (some name) =
    if is_unsafe name then err (runtime_error blob_path_unsafe) else ok (parts name)

-- `unquote` is urllib.parse.unquote.
module _ (unquote : Text → Text) where
  unfoldable pub safe_blob_relative_path : Text → Text → Result RelativePath
  safe_blob_relative_path blob_name prefix =
      let decoded = unquote blob_name in
      if not (str_eq decoded blob_name)
      then err (runtime_error blob_outside_prefix)
      else relative_path (strip_prefix prefix decoded)
