-- ===== src/Client/Jobs/Tests.antt =====
-- A job that fails in the third round, over a world that counts the rounds and the characters of
-- the excerpts.
use mlops_templates.Prelude.{
  ℕ, ◌+◌, ◌≤◌, refl, Bool, ◌||◌, none, some, [], ◌∷◌, length, arith, ltb, if◌then◌else◌,
}
use mlops_templates.Text.{Text, str, str_eq, is_lower, is_upper, is_ascii_digit}
use mlops_templates.Outcome.{ok, err, result, world, other}
use mlops_templates.Client.Environ.{Environ}
use mlops_templates.Client.Host.{Host}
use mlops_templates.Client.Jobs.{
  Job, Jobs, download_and_print_job_diagnostics, wait_for_job, max_diagnostic_output_chars,
}
use mlops_templates.Client.Jobs.Redaction.{truncated}
use mlops_templates.Client.Jobs.Output.{IsExcerptCount, excerpt_length}
use mlops_templates.Client.Jobs.Output.Total.{download_and_print_job_diagnostics-printed}
use mlops_templates.Client.Jobs.Waiting.{Ending, Running, now, later, wait_for_job-ends}

abbrev is_alphanumeric : ℕ → Bool
is_alphanumeric c = is_lower c || is_upper c || is_ascii_digit c

record World : Type 0 where
  rounds : ℕ
  printed : ℕ

abbrev start : World
start = record { rounds = 0; printed = 0 }

abbrev host : Host World
host = record {
  print = λ line w. record w { printed = w.printed + excerpt_length line };
  sleep = λ n w. record w { rounds = w.rounds + 1 };
}

abbrev job : Text → Job
job status = record { name = str "job/1"; status = status; error = some (str "token=abc") }

abbrev status_after : ℕ → Text
status_after rounds = if ltb rounds 2 then str "Running" else str "Failed"

-- The children cannot be listed, and the download leaves one log.
abbrev jobs : Jobs World
jobs = record {
  get = λ name w. (ok (job (status_after w.rounds)), w);
  children = λ name w. (err other, w);
  download = λ name directory all w. (ok tt, w);
  mkdir = λ directory w. (ok tt, w);
  files = λ directory w. (ok ((str "logs" ∷ str "std_log.txt" ∷ []) ∷ []), w);
  read_text = λ directory path n w. (ok (str "start\nERROR: it failed"), w);
  message = λ exn. str "unavailable";
}

abbrev environ : Environ
environ name = none

running :
    Running host jobs is_alphanumeric environ
      (str "job/1")
      15
      2
      start
      (record { rounds = 2; printed = 0 })
unfolding str_eq
running = later (job (str "Running")) refl refl (later (job (str "Running")) refl refl now)

wait_for_job-ends_example :
    Ending host jobs is_alphanumeric environ
      (str "job/1")
      15
      (job (str "Failed"))
      (result (wait_for_job host jobs is_alphanumeric environ (str "job/1") 15 5 start))
unfolding str_eq
wait_for_job-ends_example =
    wait_for_job-ends host jobs is_alphanumeric environ (str "job/1") 15 5 (job (str "Failed"))
      (omega arith) running refl refl

counts : IsExcerptCount host jobs (λ w. w.printed)
counts = record {
  print = λ line w. refl;
  download = λ name directory all w. refl;
  mkdir = λ directory w. refl;
  files = λ directory w. refl;
  read_text = λ directory path n w. refl;
}

download_and_print_job_diagnostics-printed_example :
    (world (
      download_and_print_job_diagnostics host jobs is_alphanumeric
        (job (str "Failed"))
        (str "aml-diagnostics", [])
        start)).printed
    ≤ 0 + (max_diagnostic_output_chars + length truncated)
download_and_print_job_diagnostics-printed_example =
    download_and_print_job_diagnostics-printed host jobs is_alphanumeric counts (job (str "Failed"))
      (str "aml-diagnostics", []) start
