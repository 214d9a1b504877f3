-- ===== src/Client/Host.antt =====
-- What aml_client.py asks of the machine that it runs on: lines on the terminal, and `time.sleep`.
use mlops_templates.Prelude.{ℕ, Option, List}
use mlops_templates.Text.{Text}

-- `Path(root) / name / …`
abbrev pub Directory : Type 0
Directory = Text × List Text

-- One constructor for each `print` statement, with the values that its text shows.
pub data Line : Type 0 where
  -- description, attempt, attempts allowed
  update_waits : Text → ℕ → ℕ → Line
  -- description, state
  provisioning_state : Text → Text → Line
  -- job name, status
  job_status : Text → Text → Line
  job_error children_unlisted : Text → Line
  -- name, status, error
  child_job : Text → Text → Option Text → Line
  diagnostics_directory : Directory → Line
  downloading_diagnostics : Text → Directory → Line
  -- job name, message
  not_downloaded full_not_downloaded : Text → Text → Line
  no_log_files no_files : Text → Line
  -- directory, path in it, message
  file_unread : Directory → List Text → Text → Line
  -- job name, path in its directory
  excerpt_header : Text → List Text → Line
  excerpt : Text → Line
  -- the limit, the number of files, job name
  files_limited : ℕ → ℕ → Text → Line
  output_limited : ℕ → Text → Line

-- Both return nothing and raise nothing, so they are changes of the world.
pub record Host (W : Type 0) : Type 0 where
  pub print : Line → W → W
  pub sleep : ℕ → W → W
