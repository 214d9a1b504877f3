-- ===== src/Client/Jobs/Output/Total.antt =====
-- What the diagnostics of one job print of its files, all of them together.
use mlops_templates.Prelude.{
  ℕ, ◌+◌, ◌≤◌, refl, Bool, true, false, List, ◌==◌, ltb, arith, length, take,
}
use mlops_templates.Text.{Text}
use mlops_templates.Outcome.{world}
use mlops_templates.Client.Jobs.Adding.{
  Adds, Adds-pure, Adds-if, Adds-bind, Adds-attempt, Adds-rescue, Adds-zero,
}
use mlops_templates.Client.Host.{
  Host, Directory, no_log_files, full_not_downloaded, files_limited, output_limited, no_files,
  downloading_diagnostics, not_downloaded,
}
use mlops_templates.Client.Jobs.Redaction.{
  bounded_redacted_text, max_diagnostic_line_chars, truncated,
}
use mlops_templates.Client.Jobs.Paths.{Parts, contains_log_file}
use mlops_templates.Client.Jobs.{
  Job, Jobs, below, max_diagnostic_files, max_diagnostic_output_chars, files_or_all, print_limits,
  print_downloaded, download_and_print_job_diagnostics,
}
use mlops_templates.Client.Jobs.Output.{IsExcerptCount, marker_length, Adds-say, Adds-print_files}

abbrev limit : ℕ
limit = max_diagnostic_output_chars + marker_length

module _ {W : Type 0} (host : Host W) (jobs : Jobs W) (is_alphanumeric : ℕ → Bool) {printed : W → ℕ}
    (counts : IsExcerptCount host jobs printed) (job_name : Text) where
  abbrev redact : Text → Text
  redact text = bounded_redacted_text is_alphanumeric text max_diagnostic_line_chars

  downloaded :
      (directory : Directory) (all : Bool) → Adds printed 0 (jobs.download job_name directory all)
  downloaded directory all = record {
    at = λ w. omega (arith, counts.download job_name directory all w);
  }

  Adds-files : (directory : Directory) → Adds printed 0 (jobs.files directory)
  Adds-files directory = record { at = λ w. omega (arith, counts.files directory w) }

  Adds-mkdir : (directory : Directory) → Adds printed 0 (jobs.mkdir directory)
  Adds-mkdir directory = record { at = λ w. omega (arith, counts.mkdir directory w) }

  Adds-files_or_all :
      (directory : Directory) (files : List Parts)
      → Adds printed 0 (files_or_all host jobs is_alphanumeric job_name directory files)
  unfolding files_or_all
  Adds-files_or_all directory files =
      Adds-if printed 0 (contains_log_file files) _ _ (Adds-pure printed files) (
        Adds-bind printed 0 0 0 _ _ (omega arith)
          (Adds-say host jobs counts (no_log_files job_name) refl)
          (λ done.
            Adds-bind printed 0 0 0 _ _ (omega arith)
              (Adds-rescue printed (jobs.download job_name directory true) _
                (downloaded directory true)
                (λ exn.
                  Adds-say host jobs counts
                    (full_not_downloaded job_name (redact (jobs.message exn))) refl))
              (λ done. Adds-files directory)))

  Adds-print_limits :
      (count remaining : ℕ)
      → Adds printed 0 (print_limits host jobs is_alphanumeric job_name count remaining)
  unfolding print_limits
  Adds-print_limits count remaining =
      Adds-bind printed 0 0 0 _ _ (omega arith)
        (Adds-if printed 0 (ltb max_diagnostic_files count) _ _
          (Adds-say host jobs counts (files_limited max_diagnostic_files count job_name) refl)
          (Adds-pure printed tt))
        (λ done.
          Adds-if printed 0 (remaining == 0) _ _
            (Adds-say host jobs counts (output_limited max_diagnostic_output_chars job_name) refl)
            (Adds-pure printed tt))

  Adds-print_downloaded :
      (directory : Directory)
      → Adds printed limit (print_downloaded host jobs is_alphanumeric job_name directory)
  unfolding print_downloaded
  Adds-print_downloaded directory =
      Adds-bind printed 0 limit limit _ _ (omega arith) (Adds-files directory) (λ downloaded.
        Adds-bind printed 0 limit limit _ _ (omega arith) (Adds-files_or_all directory downloaded)
          (λ files.
            Adds-if printed limit (length files == 0) _ _
              (Adds-zero printed limit _ (Adds-say host jobs counts (no_files job_name) refl))
              (Adds-bind printed limit 0 limit _ _ (omega arith)
                (Adds-print_files host jobs is_alphanumeric counts job_name directory
                  (take max_diagnostic_files files) max_diagnostic_output_chars)
                (λ remaining. Adds-print_limits (length files) remaining))))

module _ {W : Type 0} (host : Host W) (jobs : Jobs W) (is_alphanumeric : ℕ → Bool) {printed : W → ℕ}
    (counts : IsExcerptCount host jobs printed) (job : Job) (parent_directory : Directory) where
  -- Whatever the files of a job hold, and however the download and the reads of them end, the
  -- excerpts that are printed for the job have at most 20000 characters together, and the marker of
  -- a truncated text.
  pub download_and_print_job_diagnostics-printed :
      (w : W)
      → printed (
          world
            (download_and_print_job_diagnostics host jobs is_alphanumeric job parent_directory w))
        ≤ printed w + (max_diagnostic_output_chars + length truncated)
  unfolding download_and_print_job_diagnostics
  download_and_print_job_diagnostics-printed =
      let directory = below parent_directory job.name in
      (Adds-bind printed 0 limit limit _ _ (omega arith)
        (Adds-mkdir host jobs is_alphanumeric counts job.name directory)
        (λ done.
          Adds-bind printed 0 limit limit _ _ (omega arith)
            (Adds-say host jobs counts (downloading_diagnostics job.name directory) refl)
            (λ done.
              Adds-attempt printed limit (jobs.download job.name directory false) _ _
                (downloaded host jobs is_alphanumeric counts job.name directory false)
                (λ exn. Adds-zero printed limit _ (
                  Adds-say host jobs counts
                    (not_downloaded job.name (
                      bounded_redacted_text is_alphanumeric (jobs.message exn)
                        max_diagnostic_line_chars))
                    refl))
                (λ done.
                  Adds-print_downloaded host jobs is_alphanumeric counts job.name directory)))).at
