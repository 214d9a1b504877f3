-- ===== src/Client/Jobs/Paths/Component.antt =====
-- A component that is made of any text is a plain one.
use mlops_templates.Prelude.{◌≡◌, refl, ℕ, Bool, true, false, not, [], ◌∷◌, arith, all}
use mlops_templates.Text.{
  Text, is_empty, drop_while, drop_end_while, strip_of, is_lower, is_upper, is_ascii_digit,
}
use mlops_templates.Text.Laws.{all-drop_while, all-drop_end_while}
use mlops_templates.Client.Jobs.Paths.{
  is_component_char, replace_runs, is_dot_or_underscore, or_unknown, safe_path_component,
}

abbrev pub begins : (ℕ → Bool) → Text → Bool
begins p [] = false
begins p (c ∷ s) = p c

-- It is not empty, has letters, digits, dots, underscores and dashes alone, and does not begin with
-- a dot or an underscore: so it is no way up, no hidden file, and no path of several names.
pub record IsComponent (s : Text) : Type 0 where
  pub filled : is_empty s ≡ false
  pub plain : all is_component_char s ≡ true
  pub first : begins is_dot_or_underscore s ≡ false

underscore : is_component_char b'_' ≡ true
unfolding is_component_char is_lower is_upper is_ascii_digit
underscore = refl

replace_runs-plain :
    (in_run : Bool) (s : Text) → all is_component_char (replace_runs in_run s) ≡ true
unfolding replace_runs
replace_runs-plain in_run [] = refl
replace_runs-plain in_run (c ∷ s) =
    ground (arith, underscore, replace_runs-plain (not (is_component_char c)) s)

module _ (p : ℕ → Bool) where
  drop_while-begins : (s : Text) → begins p (drop_while p s) ≡ false
  unfolding drop_while
  drop_while-begins [] = refl
  drop_while-begins (c ∷ s) = ground (arith, drop_while-begins s)

  drop_end_while-begins : (s : Text) → begins p s ≡ false → begins p (drop_end_while p s) ≡ false
  unfolding drop_end_while
  drop_end_while-begins [] h = refl
  drop_end_while-begins (c ∷ s) h = rw h h

or_unknown-IsComponent :
    (s : Text)
    → all is_component_char s ≡ true
    → begins is_dot_or_underscore s ≡ false
    → IsComponent (or_unknown s)
unfolding is_component_char is_lower is_upper is_ascii_digit
or_unknown-IsComponent [] plain first = record { filled = refl; plain = refl; first = refl }
or_unknown-IsComponent (c ∷ s) plain first = record { filled = refl; plain = plain; first = first }

-- Whatever a job is called, the name of its directory is not empty, has ASCII letters, digits, dots,
-- underscores and dashes alone, and begins with no dot and no underscore: so it is one plain name,
-- and no path that leads out of the directory of the diagnostics.
pub safe_path_component-IsComponent : (value : Text) → IsComponent (safe_path_component value)
unfolding safe_path_component strip_of
safe_path_component-IsComponent value =
    let replaced = replace_runs false value in
    let dropped = drop_while is_dot_or_underscore replaced in
    or_unknown-IsComponent (drop_end_while is_dot_or_underscore dropped)
      (all-drop_end_while is_component_char is_dot_or_underscore dropped (
        all-drop_while is_component_char is_dot_or_underscore replaced
          (replace_runs-plain false value)))
      (drop_end_while-begins is_dot_or_underscore dropped
        (drop_while-begins is_dot_or_underscore replaced))
