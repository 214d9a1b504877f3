-- ===== src/Client/Jobs/Waiting.antt =====
-- `wait_for_job` ends, and what it ends with.
use mlops_templates.Prelude.{
  ℕ, zero, suc, ◌<◌, ◌≡◌, ◌≢◌, ◌↔◌, refl, Bool, true, false, Option, some, arith, Bool-cases, inl,
  inr,
}
use mlops_templates.Text.{Text, str, one_of}
use mlops_templates.Text.Laws.{str_eq_iff}
use mlops_templates.Outcome.{
  Exn, Result, ok, err, result, runtime_error, job_failed, continue, raise,
}
use mlops_templates.Outcome.Raises.{IsOnly}
use mlops_templates.Client.Environ.{Environ}
use mlops_templates.Client.Host.{Host, job_status}
use mlops_templates.Client.Jobs.{
  Job, Jobs, success_job_statuses, terminal_job_statuses, print_job_diagnostics, poll_job, finish,
  wait_for_job,
}
use mlops_templates.Client.Jobs.Diagnosed.{IsFileError, print_job_diagnostics-RaisesOnly}

module _ {W : Type 0} (host : Host W) (jobs : Jobs W) (is_alphanumeric : ℕ → Bool)
    (environ : Environ) (job_name : Text) (interval : ℕ) where
  abbrev pub IsTerminal : Job → Type 0
  IsTerminal job = one_of job.status terminal_job_statuses ≡ true

  -- the world after a round has shown the status
  abbrev shown : Job → W → W
  shown job w = host.print (job_status job_name job.status) w

  -- `Running k w v`: from `w`, `k` rounds in a row read a status that is not terminal, showed it and
  -- slept, and left the world `v`.
  pub data Running : ℕ → W → W → Type 0 where
    now : {w : W} → Running zero w w
    later :
        {k : ℕ} {w u v : W} (job : Job)
        → jobs.get job_name w ≡ (ok job, u)
        → one_of job.status terminal_job_statuses ≡ false
        → Running k (host.sleep interval (shown job u)) v
        → Running (suc k) w v

  poll_job-ends :
      (rounds : ℕ) {k : ℕ} {w v u : W} (job : Job)
      → k < rounds
      → Running k w v
      → jobs.get job_name v ≡ (ok job, u)
      → IsTerminal job
      → poll_job host jobs is_alphanumeric environ job_name interval rounds w
        ≡ (ok (some job), shown job u)
  unfolding poll_job
  poll_job-ends zero job h running got terminal = absurd (omega arith)
  poll_job-ends (suc rounds) job h now got terminal = rw (got, terminal) refl
  poll_job-ends (suc rounds) job h (later before seen running next) got terminal =
      rw (seen, running) (poll_job-ends rounds job (omega arith) next got terminal)

  -- What a wait makes of a job in a terminal status: it returns a completed job; for any other it
  -- raises RuntimeError, or what `mkdir` or `rglob` raised while the diagnostics were printed.
  pub data Ending (job : Job) : Result (Option Job) → Type 0 where
    completed : job.status ≡ str "Completed" → Ending job (ok (some job))
    failed : job.status ≢ str "Completed" → Ending job (err (runtime_error job_failed))
    disturbed :
        {exn : Exn} → job.status ≢ str "Completed" → IsFileError jobs exn → Ending job (err exn)

  is_completed_iff : (s : Text) → (one_of s success_job_statuses ≡ true) ↔ (s ≡ str "Completed")
  is_completed_iff s = ground (arith, str_eq_iff s (str "Completed"))

  raised :
      (job : Job) (o : Result (Unit {0}) × W)
      → job.status ≢ str "Completed"
      → IsOnly (IsFileError jobs) o
      → Ending job (result (continue (λ _. raise (runtime_error job_failed)) o))
  raised job (ok done, v) h only = failed h
  raised job (err exn, v) h only = disturbed h only

  finish-Ending :
      (job : Job) (w : W)
      → Ending job
          (result (finish host jobs is_alphanumeric environ job_name interval (some job) w))
  unfolding finish
  finish-Ending job w = elim (Bool-cases (one_of job.status success_job_statuses)) [
    | inl passed ↦ rw passed (completed ((is_completed_iff job.status).0 passed))
    | inr other ↦ rw other (
        raised job (print_job_diagnostics host jobs is_alphanumeric environ job w)
          (λ e. absurd (ground (arith, other, (is_completed_iff job.status).1 e)))
          ((print_job_diagnostics-RaisesOnly host jobs is_alphanumeric environ job).at w))
  ]

  -- A wait ends, with any number of rounds that is above the number of times that the job is found
  -- in a status that is not terminal. It returns the job where its status is `Completed`. For any
  -- other terminal status it raises: RuntimeError, or an exception that the `mkdir` of a directory
  -- or the `rglob` over one raises, whatever else the services raise while the diagnostics are
  -- printed.
  pub wait_for_job-ends :
      (rounds : ℕ) {k : ℕ} {w v u : W} (job : Job)
      → k < rounds
      → Running k w v
      → jobs.get job_name v ≡ (ok job, u)
      → IsTerminal job
      → Ending job
          (result (wait_for_job host jobs is_alphanumeric environ job_name interval rounds w))
  unfolding wait_for_job
  wait_for_job-ends rounds {k} {w} {v} {u} job h running got terminal =
      rw (poll_job-ends rounds job h running got terminal) (finish-Ending job (shown job u))
