-- ===== src/Client/Jobs/Excerpt.antt =====
-- `_diagnostic_excerpt` of src/python-sdk-v2/aml_client.py.
mod Tests
use mlops_templates.Prelude.{
  ℕ, zero, suc, ◌+◌, ◌-◌, ◌*◌, Bool, true, false, not, ◌&&◌, ◌||◌, Option, none, some, List, [],
  ◌∷◌, ◌++◌, ◌==◌, leb, ltb, if◌then◌else◌, length, any,
}
use mlops_templates.Text.{Text, str, lower, is_empty}
use mlops_templates.Client.Checks.{contains}
use mlops_templates.Client.Jobs.Redaction.{bounded_redacted_text}

abbrev pub diagnostic_context_lines : ℕ
diagnostic_context_lines = 4

-- `ERROR_LINE_PATTERN.search(line)`
unfoldable pub is_error_line : Text → Bool
is_error_line line =
    any (λ part. contains part (lower line))
      (str "traceback"
        ∷ str "exception"
        ∷ str "error"
        ∷ str "failed"
        ∷ str "fatal"
        ∷ str "stderr"
        ∷ str "exit code"
        ∷ [])

abbrev is_line_end : ℕ → Bool
is_line_end c = any (λ d. c == d) (10 ∷ 11 ∷ 12 ∷ 13 ∷ 28 ∷ 29 ∷ 30 ∷ 0x85 ∷ 0x2028 ∷ 0x2029 ∷ [])

abbrev begin_with : ℕ → List Text → List Text
begin_with c [] = (c ∷ []) ∷ []
begin_with c (line ∷ lines) = (c ∷ line) ∷ lines

-- `s.splitlines()`; `after_return` says that the character before is a carriage return, to which a
-- line feed belongs, and `is_open` that a line has begun.
unfoldable pub splitlines_from : Bool → Bool → Text → List Text
splitlines_from after_return is_open [] = if is_open then [] ∷ [] else []
splitlines_from after_return is_open (c ∷ s) =
    let rest = splitlines_from (c == 13) (not (is_line_end c)) s in
    if after_return && c == 10 then rest else if is_line_end c then [] ∷ rest else begin_with c rest

unfoldable pub splitlines : Text → List Text
unfolding splitlines_from
splitlines s = splitlines_from false false s

-- `range(start, start + count)`
unfoldable pub range : ℕ → ℕ → List ℕ
range start zero = []
range start (suc count) = start ∷ range (suc start) count

-- The indexes of the lines that the pattern finds.
unfoldable pub error_indexes : ℕ → List Text → List ℕ
unfolding is_error_line
error_indexes index [] = []
error_indexes index (line ∷ lines) =
    let rest = error_indexes (suc index) lines in if is_error_line line then index ∷ rest else rest

-- `start <= i < end`, for the range around an index
abbrev is_near : ℕ → ℕ → Bool
is_near i index =
    leb (index - diagnostic_context_lines) i && ltb i (index + diagnostic_context_lines + 1)

unfoldable pub select : (ℕ → Bool) → List ℕ → List ℕ
select test [] = []
select test (i ∷ is) = let rest = select test is in if test i then i ∷ rest else rest

abbrev or_last : ℕ → List ℕ → List ℕ
or_last count [] =
    let start = count - (diagnostic_context_lines * 2 + 1) in range start (count - start)
or_last count (i ∷ is) = i ∷ is

-- `sorted(selected_indexes)`: the ranges lie below the number of lines, so the set in order is what
-- is near to an error.
unfoldable pub selected_indexes : List Text → List ℕ
unfolding error_indexes select range
selected_indexes lines =
    or_last (length lines)
      (select (λ i. any (is_near i) (error_indexes 0 lines)) (range 0 (length lines)))

-- `lines[index]`, of an index below the number of lines
unfoldable pub line_at : List Text → ℕ → Text
line_at [] index = []
line_at (line ∷ lines) zero = line
line_at (line ∷ lines) (suc index) = line_at lines index

abbrev follows_gap : Option ℕ → ℕ → Bool
follows_gap none index = false
follows_gap (some previous) index = ltb (previous + 1) index

-- The loop over the indexes, with `previous_index`.
unfoldable pub select_lines : List Text → Option ℕ → List ℕ → List Text
unfolding line_at
select_lines lines previous [] = []
select_lines lines previous (index ∷ is) =
    let rest = line_at lines index ∷ select_lines lines (some index) is in
    if follows_gap previous index then str "..." ∷ rest else rest

-- `"\n".join(lines)`
unfoldable pub join_lines : List Text → Text
join_lines [] = []
join_lines (line ∷ []) = line
join_lines (line ∷ next ∷ lines) = line ++ (10 ∷ join_lines (next ∷ lines))

-- `is_alphanumeric` is as in Redaction.
module _ (is_alphanumeric : ℕ → Bool) where
  unfoldable pub diagnostic_excerpt : Text → ℕ → Text
  diagnostic_excerpt content max_chars =
      let lines = splitlines content in
      bounded_redacted_text is_alphanumeric
        (join_lines (select_lines lines none (selected_indexes lines))) max_chars
