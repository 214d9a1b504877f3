-- ===== src/Client/Jobs/Excerpt/Tests.antt =====
-- Lines around two errors, and the end of a log without one.
use mlops_templates.Prelude.{none, ◌≡◌, refl, ◌∷◌, []}
use mlops_templates.Text.{Text, str, lower, strip_prefix, is_upper, lower_char}
use mlops_templates.Client.Checks.{contains}
use mlops_templates.Client.Jobs.Excerpt.{
  is_error_line, splitlines_from, splitlines, range, error_indexes, select, selected_indexes,
  line_at, select_lines, join_lines,
}

abbrev excerpt : Text → Text
excerpt content =
    let lines = splitlines content in join_lines (select_lines lines none (selected_indexes lines))

splits : splitlines (str "a\r\n\nb\r\u{b}c\n") ≡ str "a" ∷ [] ∷ str "b" ∷ [] ∷ str "c" ∷ []
unfolding splitlines splitlines_from
splits = refl

skips :
    excerpt (str "Error\n1\n2\n3\n4\n5\n6\n7\n8\n9\na\nb fatal")
    ≡ str "Error\n1\n2\n3\n4\n...\n7\n8\n9\na\nb fatal"
unfolding splitlines splitlines_from selected_indexes error_indexes is_error_line contains
    strip_prefix lower lower_char is_upper range select select_lines line_at join_lines
skips = refl

ends : excerpt (str "0\n1\n2\n3\n4\n5\n6\n7\n8\n9\n") ≡ str "1\n2\n3\n4\n5\n6\n7\n8\n9"
unfolding splitlines splitlines_from selected_indexes error_indexes is_error_line contains
    strip_prefix lower lower_char is_upper range select select_lines line_at join_lines
ends = refl
