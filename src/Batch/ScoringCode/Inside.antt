-- ===== src/Batch/ScoringCode/Inside.antt =====
-- Where the scoring code and its script lie.
use mlops_templates.Prelude.{
  ◌≡◌, refl, sym, subst, true, false, not, Option, none, some, List, [], ◌∷◌, ◌++◌, arith,
}
use mathlib.Core.Option.{some-injective}
use mlops_templates.Text.{Text, str_eq, one_of}
use mlops_templates.Text.Laws.{str_eq→eq}
use mlops_templates.Outcome.{
  Exn, ok, raise_if, value_error, root_missing, code_outside_root, code_missing, code_from_sdk,
  script_outside_code, script_missing,
}
use mlops_templates.Outcome.Laws.{bind-eq-ok, raise_if-eq-ok}
use mlops_templates.Posix.{parts, is_absolute, dot_dot}
use mlops_templates.Batch.ScoringCode.{
  PathNames, FileSystem, sdk_directory, is_traversing, check_inputs, check_dedicated, relative_to,
  or_raise, relative_posix, resolve_scoring_code,
}

relative_to-eq-some :
    (directory path : PathNames) {rest : PathNames}
    → relative_to directory path ≡ some rest
    → path ≡ directory ++ rest
unfolding relative_to
relative_to-eq-some [] path {rest} e = some-injective path rest e
relative_to-eq-some (name ∷ names) [] e = absurd (ground arith)
relative_to-eq-some (name ∷ names) (part ∷ path) {rest} e =
    let same : name ≡ part = str_eq→eq name part (ground arith) in
    let below : path ≡ names ++ rest = relative_to-eq-some names path (ground arith) in
    rw (sym same, below)

or_raise-eq-ok :
    (exn : Exn) (o : Option PathNames) {rest : PathNames} → or_raise exn o ≡ ok rest → o ≡ some rest
or_raise-eq-ok exn none e = absurd (ground arith)
or_raise-eq-ok exn (some path) e = ground arith

-- The directory that is named is neither the checkout itself nor the one of the reusable scripts.
abbrev pub IsDedicated : List Text → Type 0
IsDedicated [] = ⊥
IsDedicated (first ∷ rest) = str_eq first sdk_directory ≡ false

-- What is returned: the code directory and its script, which are there and lie under the
-- repository's root.
pub record IsInside (files : FileSystem)
    (repository_root scoring_code_directory scoring_script : Text) (code_directory : PathNames)
    (script : Text) : Type 0 where
  pub root : PathNames
  pub below_root : PathNames
  pub below_code : PathNames
  pub resolved : files.resolve_root repository_root ≡ ok root
  pub contained : code_directory ≡ root ++ below_root
  pub code_resolved : files.resolve (root ++ parts scoring_code_directory) ≡ ok code_directory
  pub code_there : files.is_dir code_directory ≡ true
  pub script_resolved :
      files.resolve (code_directory ++ parts scoring_script) ≡ ok (code_directory ++ below_code)
  pub script_there : files.is_file (code_directory ++ below_code) ≡ true
  pub named : script ≡ relative_posix below_code
  pub code_relative : is_absolute scoring_code_directory ≡ false
  pub code_forward : one_of dot_dot (parts scoring_code_directory) ≡ false
  pub script_relative : is_absolute scoring_script ≡ false
  pub script_forward : one_of dot_dot (parts scoring_script) ≡ false
  pub dedicated : IsDedicated (parts scoring_code_directory)

forward :
    (path : Text)
    → is_traversing path ≡ false
    → (is_absolute path ≡ false) × (one_of dot_dot (parts path) ≡ false)
unfolding is_traversing
forward path h = (ground arith, ground arith)

check_dedicated-IsDedicated :
    (names : List Text) → check_dedicated names ≡ ok tt → IsDedicated names
check_dedicated-IsDedicated [] h = absurd (ground arith)
check_dedicated-IsDedicated (first ∷ rest) h = raise_if-eq-ok _ (value_error code_from_sdk) tt h

check_inputs-eq-ok :
    (code script : Text)
    → check_inputs code script ≡ ok tt
    → (is_traversing code ≡ false) × (is_traversing script ≡ false) × IsDedicated (parts code)
unfolding check_inputs
check_inputs-eq-ok code script h =
    (ground arith, ground arith, check_dedicated-IsDedicated (parts code) (ground arith))

-- What the run found, put together.
found-IsInside :
    (files : FileSystem) (repository_root code script : Text)
    (root found path below rest : PathNames)
    → files.resolve_root repository_root ≡ ok root
    → check_inputs code script ≡ ok tt
    → files.resolve (root ++ parts code) ≡ ok found
    → relative_to root found ≡ some below
    → files.is_dir found ≡ true
    → files.resolve (found ++ parts script) ≡ ok path
    → relative_to found path ≡ some rest
    → files.is_file path ≡ true
    → IsInside files repository_root code script found (relative_posix rest)
found-IsInside files repository_root code script root found path below rest e0 e2 e3 e4 e5 e6 e7
      e8 =
    let (code_traverses, script_traverses, dedicated) = check_inputs-eq-ok code script e2 in
    let below_code : path ≡ found ++ rest = relative_to-eq-some found path e7 in
    record {
      root = root;
      below_root = below;
      below_code = rest;
      resolved = e0;
      contained = relative_to-eq-some root found e4;
      code_resolved = e3;
      code_there = e5;
      script_resolved = subst (λ p. files.resolve (found ++ parts script) ≡ ok p) below_code e6;
      script_there = subst (λ p. files.is_file p ≡ true) below_code e8;
      named = refl;
      code_relative = (forward code code_traverses).0;
      code_forward = (forward code code_traverses).1;
      script_relative = (forward script script_traverses).0;
      script_forward = (forward script script_traverses).1;
      dedicated = dedicated;
    }

-- The code directory that `resolve_scoring_code` returns is a directory under the resolved root of
-- the repository, and the script is a file under that directory, of which the path from there is
-- returned. Both were named by relative paths without two dots, and the code directory neither by
-- an empty path nor by one into the checked-out scripts.
pub resolve_scoring_code-IsInside :
    (files : FileSystem) (repository_root scoring_code_directory scoring_script : Text)
    {code_directory : PathNames} {name : Text}
    → resolve_scoring_code files repository_root scoring_code_directory scoring_script
      ≡ ok (code_directory, name)
    → IsInside files repository_root scoring_code_directory scoring_script code_directory name
unfolding resolve_scoring_code
resolve_scoring_code-IsInside files repository_root code script {code_directory} {name} h =
    let (root, e0, h1) = bind-eq-ok (files.resolve_root repository_root) _ h in
    let (_, e1, h2) =
      bind-eq-ok (raise_if (not (files.is_dir root)) (value_error root_missing)) _ h1 in
    let (_, e2, h3) = bind-eq-ok (check_inputs code script) _ h2 in
    let (found, e3, h4) = bind-eq-ok (files.resolve (root ++ parts code)) _ h3 in
    let (below, e4, h5) =
      bind-eq-ok (or_raise (value_error code_outside_root) (relative_to root found)) _ h4 in
    let (_, e5, h6) =
      bind-eq-ok (raise_if (not (files.is_dir found)) (value_error code_missing)) _ h5 in
    let (path, e6, h7) = bind-eq-ok (files.resolve (found ++ parts script)) _ h6 in
    let (rest, e7, h8) =
      bind-eq-ok (or_raise (value_error script_outside_code) (relative_to found path)) _ h7 in
    let (_, e8, h9) =
      bind-eq-ok (raise_if (not (files.is_file path)) (value_error script_missing)) _ h8 in
    subst (λ d. IsInside files repository_root code script d name) (ground (arith, h9))
      (subst (IsInside files repository_root code script found) (ground (arith, h9)) (
        found-IsInside files repository_root code script root found path below rest e0 e2 e3
          (or_raise-eq-ok _ (relative_to root found) e4) (ground (arith, raise_if-eq-ok _ _ tt e5))
          e6 (or_raise-eq-ok _ (relative_to found path) e7)
          (ground (arith, raise_if-eq-ok _ _ tt e8))))
