-- ===== src/Client/Jobs.antt =====
-- `wait_for_job`, `print_job_diagnostics` and `_download_and_print_job_diagnostics` of
-- src/python-sdk-v2/aml_client.py.
pub mod Redaction
pub mod Excerpt
pub mod Paths
pub mod Adding
pub mod Output
pub mod Diagnosed
pub mod Waiting
mod Tests
use mlops_templates.Prelude.{
  ℕ, zero, suc, ◌-◌, Bool, true, false, not, ◌++◌, Option, none, some, List, [], ◌∷◌, ◌==◌, ltb,
  if◌then◌else◌, length, take,
}
use mlops_templates.Text.{Text, str, is_empty, one_of}
use mlops_templates.Outcome.{
  Exn, Result, ok, err, Exec, pure, raise, rescue, act, ◌>>=◌, ◌>>◌, runtime_error, job_failed,
}
use mlops_templates.Client.Environ.{Environ}
use mlops_templates.Client.Host.{
  Host, Directory, Line, job_status, job_error, children_unlisted, child_job, diagnostics_directory,
  downloading_diagnostics, not_downloaded, full_not_downloaded, no_log_files, no_files, file_unread,
  excerpt_header, excerpt, files_limited, output_limited,
}
use Redaction.{bounded_redacted_text, max_diagnostic_line_chars}
use Excerpt.{diagnostic_excerpt}
use Paths.{Parts, safe_path_component, contains_log_file}

abbrev pub success_job_statuses : List Text
success_job_statuses = str "Completed" ∷ []

abbrev pub failed_job_statuses : List Text
failed_job_statuses = str "Failed" ∷ str "Canceled" ∷ str "Cancelled" ∷ str "NotResponding" ∷ []

abbrev pub terminal_job_statuses : List Text
terminal_job_statuses =
    str "Completed"
    ∷ str "Failed"
    ∷ str "Canceled"
    ∷ str "Cancelled"
    ∷ str "NotResponding"
    ∷ str "Paused"
    ∷ []

abbrev pub max_diagnostic_files : ℕ
max_diagnostic_files = 20

abbrev pub max_diagnostic_file_bytes : ℕ
max_diagnostic_file_bytes = 256000

abbrev pub max_diagnostic_output_chars : ℕ
max_diagnostic_output_chars = 20000

-- A job, by `str` of its status and of its error, which is none where it is false.
pub record Job : Type 0 where
  pub name : Text
  pub status : Text
  pub error : Option Text

-- `ml_client.jobs`, and the files that it downloads.
pub record Jobs (W : Type 0) : Type 0 where
  pub get : Text → Exec W Job
  -- list(ml_client.jobs.list(parent_job_name=…))
  pub children : Text → Exec W (List Job)
  -- ml_client.jobs.download(name=…, download_path=…, all=…)
  pub download : Text → Directory → Bool → Exec W (Unit {0})
  -- directory.mkdir(parents=True, exist_ok=True)
  pub mkdir : Directory → Exec W (Unit {0})
  -- sorted(path for path in directory.rglob("*") if path.is_file()), relative to the directory
  pub files : Directory → Exec W (List Parts)
  -- the first bytes of a file, read and decoded with errors="replace"
  pub read_text : Directory → Parts → ℕ → Exec W Text
  -- str(exc)
  pub message : Exn → Text

-- `try: call except Exception as exc: handler`, with what follows where the handler returns early
abbrev pub branch :
    {W A B : Type 0} → (Exn → Exec W B) → (A → Exec W B) → Result A × W → Result B × W
branch handler next (ok a, w) = next a w
branch handler next (err exn, w) = handler exn w

abbrev pub attempt : {W A B : Type 0} → Exec W A → (Exn → Exec W B) → (A → Exec W B) → Exec W B
attempt call handler next w = branch handler next (call w)

abbrev pub diagnostics_directory_name : Text
diagnostics_directory_name = str "aml-diagnostics"

-- `os.environ.get("AML_DIAGNOSTICS_DIR", DIAGNOSTICS_DIRECTORY)`
abbrev root_or : Option Text → Text
root_or none = diagnostics_directory_name
root_or (some root) = root

abbrev pub diagnostics_root : Environ → Text
diagnostics_root environ = root_or (environ (str "AML_DIAGNOSTICS_DIR"))

abbrev pub or_itself : Job → List Job → List Job
or_itself job [] = job ∷ []
or_itself job (child ∷ children) = child ∷ children

-- `directory / _safe_path_component(name)`
abbrev pub below : Directory → Text → Directory
below (root, names) name = (root, names ++ (safe_path_component name ∷ []))

abbrev pub redact_error : (ℕ → Bool) → Option Text → Option Text
redact_error is_alphanumeric none = none
redact_error is_alphanumeric (some error) =
    some (bounded_redacted_text is_alphanumeric error max_diagnostic_line_chars)

-- `is_alphanumeric` is as in Redaction.
module _ {W : Type 0} (host : Host W) (jobs : Jobs W) (is_alphanumeric : ℕ → Bool) where
  abbrev say : Line → Exec W (Unit {0})
  say line = act (host.print line)

  abbrev redact : Text → Text
  redact text = bounded_redacted_text is_alphanumeric text max_diagnostic_line_chars

  -- The end of a round, once the file was read: `next` is the rest of the loop.
  unfoldable pub show_excerpt : Text → Parts → ℕ → (ℕ → Exec W ℕ) → Text → Exec W ℕ
  show_excerpt job_name path remaining next content =
      let text = diagnostic_excerpt is_alphanumeric content remaining in
      if is_empty text then next remaining else (do
        say (excerpt_header job_name path)
        say (excerpt text)
        next (remaining - length text))

  -- The loop over the files, with `remaining_chars`; a number below zero is zero, which the tests
  -- do not tell from it.
  unfoldable pub print_files : Text → Directory → ℕ → List Parts → Exec W ℕ
  unfolding show_excerpt
  print_files job_name directory remaining [] = pure remaining
  print_files job_name directory remaining (path ∷ paths) =
      if remaining == 0
      then pure remaining
      else attempt (jobs.read_text directory path max_diagnostic_file_bytes)
          (λ exn. do
            say (file_unread directory path (redact (jobs.message exn)))
            print_files job_name directory remaining paths)
          (show_excerpt job_name path remaining (λ left. print_files job_name directory left paths))

  -- The files of the first download, or of the full one where there is no log file among them.
  unfoldable pub files_or_all : Text → Directory → List Parts → Exec W (List Parts)
  files_or_all job_name directory files = if contains_log_file files then pure files else (do
    say (no_log_files job_name)
    rescue (jobs.download job_name directory true)
        (λ exn. say (full_not_downloaded job_name (redact (jobs.message exn))))
    jobs.files directory)

  unfoldable pub print_limits : Text → ℕ → ℕ → Exec W (Unit {0})
  print_limits job_name count remaining = do
    if ltb max_diagnostic_files count
        then say (files_limited max_diagnostic_files count job_name)
        else pure tt
    if remaining == 0 then say (output_limited max_diagnostic_output_chars job_name) else pure tt

  -- What follows the first download.
  unfoldable pub print_downloaded : Text → Directory → Exec W (Unit {0})
  print_downloaded job_name directory = do
    downloaded ← jobs.files directory
    files ← files_or_all job_name directory downloaded
    if length files == 0 then say (no_files job_name) else (do
      remaining ←
          print_files job_name directory max_diagnostic_output_chars
            (take max_diagnostic_files files)
      print_limits job_name (length files) remaining)

  unfoldable pub download_and_print_job_diagnostics : Job → Directory → Exec W (Unit {0})
  download_and_print_job_diagnostics job parent_directory = do
    let directory = below parent_directory job.name
    jobs.mkdir directory
    say (downloading_diagnostics job.name directory)
    attempt (jobs.download job.name directory false)
        (λ exn. say (not_downloaded job.name (redact (jobs.message exn))))
        (λ done. print_downloaded job.name directory)

  -- The loop over the children; returns the failed ones.
  unfoldable pub print_children : List Job → Exec W (List Job)
  print_children [] = pure []
  print_children (child ∷ children) = do
    say (child_job child.name child.status (redact_error is_alphanumeric child.error))
    failed ← print_children children
    pure (if one_of child.status failed_job_statuses then child ∷ failed else failed)

  unfoldable pub children_of : Job → Exec W (List Job)
  children_of job =
      rescue (jobs.children job.name)
        (λ exn. do say (children_unlisted (redact (jobs.message exn))); pure [])

  unfoldable pub download_all : Directory → List Job → Exec W (Unit {0})
  download_all parent_directory [] = pure tt
  download_all parent_directory (job ∷ rest) = do
    download_and_print_job_diagnostics job parent_directory
    download_all parent_directory rest

  abbrev pub say_error : Option Text → Exec W (Unit {0})
  say_error none = pure tt
  say_error (some error) = say (job_error (redact error))

  module _ (environ : Environ) where
    unfoldable pub print_job_diagnostics : Job → Exec W (Unit {0})
    print_job_diagnostics job = do
      say_error job.error
      children ← children_of job
      failed_children ← print_children children
      let parent_directory = below (diagnostics_root environ, []) job.name
      say (diagnostics_directory parent_directory)
      download_all parent_directory (or_itself job failed_children)

    module _ (job_name : Text) (interval : ℕ) where
      -- `while True`, for so many rounds; none where the job is still not in a terminal status.
      unfoldable pub poll_job : ℕ → Exec W (Option Job)
      poll_job zero = pure none
      poll_job (suc rounds) = do
        job ← jobs.get job_name
        say (job_status job_name job.status)
        if one_of job.status terminal_job_statuses
            then pure (some job)
            else (do act (host.sleep interval); poll_job rounds)

      -- What follows the loop.
      unfoldable pub finish : Option Job → Exec W (Option Job)
      finish none = pure none
      finish (some job) =
          if not (one_of job.status success_job_statuses)
          then (do print_job_diagnostics job; raise (runtime_error job_failed))
          else pure (some job)

      unfoldable pub wait_for_job : ℕ → Exec W (Option Job)
      wait_for_job rounds = do found ← poll_job rounds; finish found
