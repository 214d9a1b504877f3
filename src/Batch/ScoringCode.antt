-- ===== src/Batch/ScoringCode.antt =====
-- `resolve_scoring_code` of src/python-sdk-v2/create_batch_deployment.py. An absolute path is the
-- list of its names behind the root.
pub mod Inside
mod Tests
use mlops_templates.Prelude.{
  Bool, true, false, not, ◌&&◌, ◌||◌, Option, none, some, List, [], ◌∷◌, ◌++◌, if◌then◌else◌,
}
use mlops_templates.Text.{Text, str, str_eq, is_empty, one_of}
use mlops_templates.Outcome.{
  Exn, Result, ok, err, raise_if, value_error, root_missing, code_not_relative, script_not_relative,
  code_not_dedicated, code_from_sdk, code_outside_root, code_missing, script_outside_code,
  script_missing,
}
use mlops_templates.Outcome.Pure.{◌>>=◌, ◌>>◌}
use mlops_templates.Posix.{parts, is_absolute, dot, dot_dot, join_slash}

abbrev pub PathNames : Type 0
PathNames = List Text

-- What pathlib does with the file system, which is read and not changed.
pub record FileSystem : Type 0 where
  -- Path(s).expanduser().resolve()
  pub resolve_root : Text → Result PathNames
  -- path.resolve(), of an absolute path
  pub resolve : PathNames → Result PathNames
  pub is_dir : PathNames → Bool
  pub is_file : PathNames → Bool

abbrev pub sdk_directory : Text
sdk_directory = str ".mlops-python-sdk"

-- `path.is_absolute() or ".." in path.parts`
unfoldable pub is_traversing : Text → Bool
is_traversing path = is_absolute path || one_of dot_dot (parts path)

-- The two tests on the parts of the code directory.
abbrev pub check_dedicated : List Text → Result (Unit {0})
check_dedicated [] = err (value_error code_not_dedicated)
check_dedicated (first ∷ rest) = raise_if (str_eq first sdk_directory) (value_error code_from_sdk)

unfoldable pub check_inputs : Text → Text → Result (Unit {0})
check_inputs scoring_code_directory scoring_script =
    if is_traversing scoring_code_directory
    then err (value_error code_not_relative)
    else if is_traversing scoring_script
    then err (value_error script_not_relative)
    else check_dedicated (parts scoring_code_directory)

-- `path.relative_to(directory)`; none where it raises ValueError
unfoldable pub relative_to : PathNames → PathNames → Option PathNames
relative_to [] path = some path
relative_to (name ∷ names) [] = none
relative_to (name ∷ names) (part ∷ path) =
    let rest = relative_to names path in if str_eq name part then rest else none

abbrev pub or_raise : Exn → Option PathNames → Result PathNames
or_raise exn none = err exn
or_raise exn (some path) = ok path

-- `as_posix()` of a relative path
abbrev pub relative_posix : PathNames → Text
relative_posix names = if is_empty (join_slash names) then dot else join_slash names

module _ (files : FileSystem) where
  unfoldable pub resolve_scoring_code : Text → Text → Text → Result (PathNames × Text)
  resolve_scoring_code repository_root scoring_code_directory scoring_script = do
    root ← files.resolve_root repository_root
    raise_if (not (files.is_dir root)) (value_error root_missing)
    check_inputs scoring_code_directory scoring_script
    code_directory ← files.resolve (root ++ parts scoring_code_directory)
    _ ← or_raise (value_error code_outside_root) (relative_to root code_directory)
    raise_if (not (files.is_dir code_directory)) (value_error code_missing)
    script_path ← files.resolve (code_directory ++ parts scoring_script)
    relative_script ←
        or_raise (value_error script_outside_code) (relative_to code_directory script_path)
    raise_if (not (files.is_file script_path)) (value_error script_missing)
    ok (code_directory, relative_posix relative_script)
