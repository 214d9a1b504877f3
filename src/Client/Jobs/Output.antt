-- ===== src/Client/Jobs/Output.antt =====
-- How much the diagnostics of a job print of its files.
pub mod Total
use mlops_templates.Prelude.{
  ℕ, zero, suc, ◌+◌, ◌-◌, ◌≤◌, ◌≡◌, refl, Bool, true, false, Option, none, some, List, [], ◌∷◌,
  ◌++◌, ◌==◌, ltb, arith, leb, leb→le, length, length-append, length-take, take, if◌then◌else◌,
  Bool-cases, inl, inr, sym, subst, ==_iff,
}
use mlops_templates.Text.{Text, is_empty}
use mlops_templates.Outcome.{
  Exn, Result, ok, err, Exec, world, continue, rescue, act, pure, handle, ◌>>=◌, ◌>>◌,
}
use mlops_templates.Outcome.Keeps.{
  Keeps, Keeps-pure, Keeps-act, Keeps-if, Keeps-rescue, Keeps-bind, Keeps-then,
}
use mlops_templates.Client.Jobs.Adding.{
  Adds, Adds-pure, Adds-if, Adds-cases, Adds-bind, Adds-attempt, Adds-zero,
}
use mlops_templates.Client.Host.{
  Host, Directory, Line, file_unread, excerpt_header, excerpt, no_log_files, full_not_downloaded,
  files_limited, output_limited, no_files, downloading_diagnostics, not_downloaded,
}
use mlops_templates.Client.Jobs.Redaction.{
  bounded, bounded_redacted_text, max_diagnostic_line_chars, truncated, redacted,
}
use mlops_templates.Client.Jobs.Excerpt.{diagnostic_excerpt}
use mlops_templates.Client.Jobs.Paths.{Parts, contains_log_file}
use mlops_templates.Client.Jobs.{
  Job, Jobs, max_diagnostic_files, max_diagnostic_output_chars, max_diagnostic_file_bytes, branch,
  show_excerpt, print_files, files_or_all, print_limits, print_downloaded,
  download_and_print_job_diagnostics,
}

-- The characters of an excerpt; the other lines have none.
abbrev pub excerpt_length : Line → ℕ
excerpt_length (excerpt text) = length text
excerpt_length line = 0

-- `printed` counts the characters of the excerpts on the terminal: no call but `print` adds any.
pub record IsExcerptCount {W : Type 0} (host : Host W) (jobs : Jobs W) (printed : W → ℕ)
    : Type 0 where
  pub print : (line : Line) (w : W) → printed (host.print line w) ≡ printed w + excerpt_length line
  pub download :
      (name : Text) (directory : Directory) (all : Bool) (w : W)
      → printed (world (jobs.download name directory all w)) ≡ printed w
  pub mkdir : (directory : Directory) (w : W) → printed (world (jobs.mkdir directory w)) ≡ printed w
  pub files : (directory : Directory) (w : W) → printed (world (jobs.files directory w)) ≡ printed w
  pub read_text :
      (directory : Directory) (path : Parts) (n : ℕ) (w : W)
      → printed (world (jobs.read_text directory path n w)) ≡ printed w

-- The marker of a truncated text.
abbrev pub marker_length : ℕ
marker_length = length truncated

bounded-length :
    (is_alphanumeric : ℕ → Bool) (n : ℕ) (s : Text)
    → length (bounded is_alphanumeric n s) ≤ n + marker_length
unfolding bounded
bounded-length is_alphanumeric n s = elim (Bool-cases (leb (length s) n)) [
  | inl short ↦ rw short (omega (arith, leb→le (length s) n short))
  | inr long ↦ rw long (omega (arith, length-append (take n s) truncated, length-take n s))
]

excerpt-bounded :
    (is_alphanumeric : ℕ → Bool) (content : Text) (n : ℕ)
    → length (diagnostic_excerpt is_alphanumeric content n) ≤ n + marker_length
unfolding diagnostic_excerpt bounded_redacted_text
excerpt-bounded is_alphanumeric content n = bounded-length is_alphanumeric n _

-- What may still be printed: nothing once the limit is reached.
abbrev pub allowance : ℕ → ℕ
allowance remaining = if remaining == 0 then 0 else remaining + marker_length

allowance-step :
    (remaining n : ℕ)
    → (remaining == 0) ≡ false
    → n ≤ remaining + marker_length
    → n + allowance (remaining - n) ≤ allowance remaining
allowance-step remaining n h k = ground arith

module _ {W : Type 0} (host : Host W) (jobs : Jobs W) {printed : W → ℕ}
    (counts : IsExcerptCount host jobs printed) where
  -- A line that is no excerpt.
  pub Adds-say : (line : Line) → excerpt_length line ≡ 0 → Adds printed 0 (act (host.print line))
  Adds-say line h = record { at = λ w. omega (arith, counts.print line w, h) }

  Adds-excerpt : (text : Text) → Adds printed (length text) (act (host.print (excerpt text)))
  Adds-excerpt text = record { at = λ w. omega (arith, counts.print (excerpt text) w) }

module _ {W : Type 0} (host : Host W) (jobs : Jobs W) (is_alphanumeric : ℕ → Bool) {printed : W → ℕ}
    (counts : IsExcerptCount host jobs printed) (job_name : Text) where
  abbrev redact : Text → Text
  redact text = bounded_redacted_text is_alphanumeric text max_diagnostic_line_chars

  module _ (directory : Directory) where
    -- A round whose file was read; `next` is the rest of the loop.
    Adds-show_excerpt :
        (path : Parts) (remaining : ℕ) (next : ℕ → Exec W ℕ) (content : Text)
        → (remaining == 0) ≡ false
        → ((left : ℕ) → Adds printed (allowance left) (next left))
        → Adds printed
            (allowance remaining)
            (show_excerpt host jobs is_alphanumeric job_name path remaining next content)
    unfolding show_excerpt
    Adds-show_excerpt path remaining next content h rest =
        let text = diagnostic_excerpt is_alphanumeric content remaining in
        let left = allowance (remaining - length text) in
        Adds-if printed (allowance remaining) (is_empty text) _ _ (rest remaining) (
          Adds-bind printed 0 (allowance remaining) (allowance remaining) _ _ (omega arith)
            (Adds-say host jobs counts (excerpt_header job_name path) refl)
            (λ done.
              Adds-bind printed (length text) left (allowance remaining) _ _
                (allowance-step remaining (length text) h
                  (excerpt-bounded is_alphanumeric content remaining))
                (Adds-excerpt host jobs counts text) (λ done. rest (remaining - length text))))

    -- What a round does whose file was not read.
    abbrev unread : Parts → ℕ → List Parts → Exn → Exec W ℕ
    unread path remaining paths exn =
        act (host.print (file_unread directory path (redact (jobs.message exn))))
        >> print_files host jobs is_alphanumeric job_name directory remaining paths

    pub Adds-print_files :
        (paths : List Parts) (remaining : ℕ)
        → Adds printed
            (allowance remaining)
            (print_files host jobs is_alphanumeric job_name directory remaining paths)
    unfolding print_files
    Adds-print_files [] remaining = Adds-zero printed _ _ (Adds-pure printed remaining)
    Adds-print_files (path ∷ paths) remaining =
        let rest : ℕ → Exec W ℕ =
          λ left. print_files host jobs is_alphanumeric job_name directory left paths in
        Adds-cases printed (allowance remaining) (remaining == 0) (pure remaining) _
          (λ done. Adds-zero printed _ _ (Adds-pure printed remaining))
          (λ more.
            Adds-attempt printed (allowance remaining)
              (jobs.read_text directory path max_diagnostic_file_bytes)
              (unread path remaining paths)
              (show_excerpt host jobs is_alphanumeric job_name path remaining rest)
              (record {
                at =
                    λ w. omega (arith, counts.read_text directory path max_diagnostic_file_bytes w);
              })
              (λ exn.
                Adds-bind printed 0 (allowance remaining) (allowance remaining) _ _ (omega arith)
                  (Adds-say host jobs counts
                    (file_unread directory path (redact (jobs.message exn))) refl)
                  (λ done. Adds-print_files paths remaining))
              (λ content.
                Adds-show_excerpt path remaining rest content more
                  (λ left. Adds-print_files paths left)))
