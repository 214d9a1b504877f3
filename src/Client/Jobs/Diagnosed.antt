-- ===== src/Client/Jobs/Diagnosed.antt =====
-- What the diagnostics of a failed job may raise.
use mlops_templates.Prelude.{
  ◌≡◌, refl, ℕ, ◌-◌, Bool, true, false, Option, none, some, List, [], ◌∷◌, ◌==◌, ltb, take, length,
}
use mlops_templates.Text.{Text, is_empty}
use mlops_templates.Outcome.{Exn, Result, ok, err, Exec, act}
use mlops_templates.Outcome.Raises.{
  RaisesOnly, RaisesOnly-pure, RaisesOnly-if, RaisesOnly-rescue, RaisesOnly-act, RaisesOnly-bind,
  RaisesOnly-then, IsOnly,
}
use mlops_templates.Client.Environ.{Environ}
use mlops_templates.Client.Host.{
  Host, Directory, Line, job_error, children_unlisted, child_job, diagnostics_directory,
  downloading_diagnostics, not_downloaded, full_not_downloaded, no_log_files, no_files, file_unread,
  excerpt_header, excerpt, files_limited, output_limited,
}
use mlops_templates.Client.Jobs.Redaction.{bounded_redacted_text, max_diagnostic_line_chars}
use mlops_templates.Client.Jobs.Paths.{Parts, contains_log_file}
use mlops_templates.Client.Jobs.Excerpt.{diagnostic_excerpt}
use mlops_templates.Client.Jobs.{
  Job, Jobs, below, or_itself, redact_error, diagnostics_root, max_diagnostic_files,
  max_diagnostic_output_chars, say_error, branch, attempt, show_excerpt, print_files, files_or_all,
  print_limits, print_downloaded, download_and_print_job_diagnostics, print_children, children_of,
  download_all, print_job_diagnostics,
}

branch-IsOnly :
    {E : Exn → Type 0} {W A B : Type 0} (handler : Exn → Exec W B) (next : A → Exec W B)
    (o : Result A × W)
    → ((exn : Exn) → RaisesOnly E (handler exn))
    → ((a : A) → RaisesOnly E (next a))
    → IsOnly E (branch handler next o)
branch-IsOnly handler next (ok a, w) rh rn = (rn a).at w
branch-IsOnly handler next (err exn, w) rh rn = (rh exn).at w

RaisesOnly-attempt :
    {E : Exn → Type 0} {W A B : Type 0} (call : Exec W A) (handler : Exn → Exec W B)
    (next : A → Exec W B)
    → ((exn : Exn) → RaisesOnly E (handler exn))
    → ((a : A) → RaisesOnly E (next a))
    → RaisesOnly E (attempt call handler next)
RaisesOnly-attempt call handler next rh rn = record {
  at = λ w. branch-IsOnly handler next (call w) rh rn;
}

module _ {W : Type 0} (jobs : Jobs W) where
  -- The exceptions of the two calls that no `except` guards: the `mkdir` of a directory and the
  -- `rglob` over one.
  pub data IsFileError : Exn → Type 0 where
    not_made :
        {exn : Exn} {u : W} (directory : Directory) (w : W)
        → jobs.mkdir directory w ≡ (err exn, u)
        → IsFileError exn
    not_listed :
        {exn : Exn} {u : W} (directory : Directory) (w : W)
        → jobs.files directory w ≡ (err exn, u)
        → IsFileError exn

  made_in :
      (directory : Directory) (w : W) (o : Result (Unit {0}) × W)
      → jobs.mkdir directory w ≡ o
      → IsOnly IsFileError o
  made_in directory w (ok done, u) e = tt
  made_in directory w (err exn, u) e = not_made directory w e

  listed_in :
      (directory : Directory) (w : W) (o : Result (List Parts) × W)
      → jobs.files directory w ≡ o
      → IsOnly IsFileError o
  listed_in directory w (ok files, u) e = tt
  listed_in directory w (err exn, u) e = not_listed directory w e

  made : (directory : Directory) → RaisesOnly IsFileError (jobs.mkdir directory)
  made directory = record { at = λ w. made_in directory w (jobs.mkdir directory w) refl }

  listed : (directory : Directory) → RaisesOnly IsFileError (jobs.files directory)
  listed directory = record { at = λ w. listed_in directory w (jobs.files directory w) refl }

module _ {W : Type 0} (host : Host W) (jobs : Jobs W) (is_alphanumeric : ℕ → Bool) where
  abbrev E : Exn → Type 0
  E = IsFileError jobs

  abbrev redact : Text → Text
  redact text = bounded_redacted_text is_alphanumeric text max_diagnostic_line_chars

  said : (line : Line) → RaisesOnly E (act (host.print line))
  said line = RaisesOnly-act (host.print line)

  RaisesOnly-print_files :
      (job_name : Text) (directory : Directory) (paths : List Parts) (remaining : ℕ)
      → RaisesOnly E (print_files host jobs is_alphanumeric job_name directory remaining paths)
  unfolding print_files show_excerpt
  RaisesOnly-print_files job_name directory [] remaining = RaisesOnly-pure remaining
  RaisesOnly-print_files job_name directory (path ∷ paths) remaining =
      RaisesOnly-if (remaining == 0) _ _ (RaisesOnly-pure remaining) (
        RaisesOnly-attempt _ _ _
          (λ exn.
            RaisesOnly-then _ _ (said (file_unread directory path (redact (jobs.message exn))))
              (RaisesOnly-print_files job_name directory paths remaining))
          (λ content.
            let text = diagnostic_excerpt is_alphanumeric content remaining in
            RaisesOnly-if (is_empty text) _ _
              (RaisesOnly-print_files job_name directory paths remaining)
              (RaisesOnly-then _ _ (said (excerpt_header job_name path)) (
                RaisesOnly-then _ _ (said (excerpt text))
                  (RaisesOnly-print_files job_name directory paths (remaining - length text))))))

  RaisesOnly-files_or_all :
      (job_name : Text) (directory : Directory) (files : List Parts)
      → RaisesOnly E (files_or_all host jobs is_alphanumeric job_name directory files)
  unfolding files_or_all
  RaisesOnly-files_or_all job_name directory files =
      RaisesOnly-if (contains_log_file files) _ _ (RaisesOnly-pure files) (
        RaisesOnly-then _ _ (said (no_log_files job_name)) (
          RaisesOnly-then _ _
            (RaisesOnly-rescue (jobs.download job_name directory true) _
              (λ exn. said (full_not_downloaded job_name (redact (jobs.message exn)))))
            (listed jobs directory)))

  RaisesOnly-print_limits :
      (job_name : Text) (count remaining : ℕ)
      → RaisesOnly E (print_limits host jobs is_alphanumeric job_name count remaining)
  unfolding print_limits
  RaisesOnly-print_limits job_name count remaining =
      RaisesOnly-then _ _
        (RaisesOnly-if (ltb max_diagnostic_files count) _ _
          (said (files_limited max_diagnostic_files count job_name)) (RaisesOnly-pure tt))
        (RaisesOnly-if (remaining == 0) _ _
          (said (output_limited max_diagnostic_output_chars job_name)) (RaisesOnly-pure tt))

  RaisesOnly-print_downloaded :
      (job_name : Text) (directory : Directory)
      → RaisesOnly E (print_downloaded host jobs is_alphanumeric job_name directory)
  unfolding print_downloaded
  RaisesOnly-print_downloaded job_name directory =
      RaisesOnly-bind _ _ (listed jobs directory) (λ downloaded.
        RaisesOnly-bind _ _ (RaisesOnly-files_or_all job_name directory downloaded) (λ files.
          RaisesOnly-if (length files == 0) _ _ (said (no_files job_name)) (
            RaisesOnly-bind _ _
              (RaisesOnly-print_files job_name directory (take max_diagnostic_files files)
                max_diagnostic_output_chars)
              (λ remaining. RaisesOnly-print_limits job_name (length files) remaining))))

  RaisesOnly-download_and_print :
      (job : Job) (directory : Directory)
      → RaisesOnly E (download_and_print_job_diagnostics host jobs is_alphanumeric job directory)
  unfolding download_and_print_job_diagnostics
  RaisesOnly-download_and_print job parent =
      let directory = below parent job.name in
      RaisesOnly-then _ _ (made jobs directory) (
        RaisesOnly-then _ _ (said (downloading_diagnostics job.name directory)) (
          RaisesOnly-attempt (jobs.download job.name directory false) _ _
            (λ exn. said (not_downloaded job.name (redact (jobs.message exn))))
            (λ done. RaisesOnly-print_downloaded job.name directory)))

  RaisesOnly-download_all :
      (directory : Directory) (rest : List Job)
      → RaisesOnly E (download_all host jobs is_alphanumeric directory rest)
  unfolding download_all
  RaisesOnly-download_all directory [] = RaisesOnly-pure tt
  RaisesOnly-download_all directory (job ∷ rest) =
      RaisesOnly-then _ _ (RaisesOnly-download_and_print job directory)
        (RaisesOnly-download_all directory rest)

  RaisesOnly-print_children :
      (children : List Job) → RaisesOnly E (print_children host jobs is_alphanumeric children)
  unfolding print_children
  RaisesOnly-print_children [] = RaisesOnly-pure []
  RaisesOnly-print_children (child ∷ children) =
      RaisesOnly-then _ _
        (said (child_job child.name child.status (redact_error is_alphanumeric child.error)))
        (RaisesOnly-bind _ _ (RaisesOnly-print_children children) (λ failed. RaisesOnly-pure _))

  RaisesOnly-say_error : (o : Option Text) → RaisesOnly E (say_error host jobs is_alphanumeric o)
  RaisesOnly-say_error none = RaisesOnly-pure tt
  RaisesOnly-say_error (some error) = said (job_error (redact error))

  -- `print_job_diagnostics` raises nothing but what `mkdir` and `rglob` raise, whatever the job
  -- service raises.
  pub print_job_diagnostics-RaisesOnly :
      (environ : Environ) (job : Job)
      → RaisesOnly E (print_job_diagnostics host jobs is_alphanumeric environ job)
  unfolding print_job_diagnostics children_of
  print_job_diagnostics-RaisesOnly environ job =
      let directory = below (diagnostics_root environ, []) job.name in
      RaisesOnly-then _ _ (RaisesOnly-say_error job.error) (
        RaisesOnly-bind _ _
          (RaisesOnly-rescue (jobs.children job.name) _ (λ exn.
            RaisesOnly-then _ _ (said (children_unlisted (redact (jobs.message exn))))
              (RaisesOnly-pure [])))
          (λ children. RaisesOnly-bind _ _ (RaisesOnly-print_children children) (λ failed.
            RaisesOnly-then _ _ (said (diagnostics_directory directory))
              (RaisesOnly-download_all directory (or_itself job failed)))))
