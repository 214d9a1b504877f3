-- ===== src/Client/CaBundle.antt =====
-- `use_private_ca_bundle` of src/python-sdk-v2/aml_client.py: a context manager that points two
-- environment variables at a CA bundle while its body runs.
pub mod Restores
mod Tests
use mlops_templates.Prelude.{
  Bool, true, false, not, ◌||◌, Option, List, [], ◌∷◌, map, if◌then◌else◌,
}
use mlops_templates.Text.{Text, str, is_empty, strip}
use mlops_templates.Outcome.{
  Exn, Result, ok, err, os_error, runtime_error, no_ca_bundle, ca_bundle_missing, ca_bundle_invalid,
}
use mlops_templates.Client.Environ.{Environ, assign}

abbrev pub ca_bundle_environment_variables : List Text
ca_bundle_environment_variables = str "REQUESTS_CA_BUNDLE" ∷ str "SSL_CERT_FILE" ∷ []

-- What `pathlib` and `ssl` say of a path: `expanduser`, `is_file`, `resolve`, and whether
-- `ssl.create_default_context(cafile=…)` loads it or raises.
pub record Files : Type 0 where
  pub expanduser : Text → Text
  pub is_file : Text → Bool
  pub resolve : Text → Text
  pub load_certificates : Text → Result (Unit {0})

-- The environment of the process, and everything else that the body may change.
pub record Process (W : Type 0) : Type 0 where
  pub environ : Environ
  pub rest : W

-- `for variable in variables: os.environ[variable] = value`
unfoldable pub set_all : List Text → Option Text → Environ → Environ
set_all [] value environ = environ
set_all (variable ∷ variables) value environ =
    set_all variables value (assign variable value environ)

abbrev pub Saved : Type 0
Saved = List (Text × Option Text)

-- The loop of the `finally` block over `previous_values`.
unfoldable pub restore : Saved → Environ → Environ
restore [] environ = environ
restore ((variable, previous) ∷ saved) environ = restore saved (assign variable previous environ)

unfoldable pub save : List Text → Environ → Saved
save variables environ = map (λ variable. (variable, environ variable)) variables

-- `except (OSError, ssl.SSLError)`: SSLError is a subclass of OSError.
abbrev certificates_error : Exn → Exn
certificates_error os_error = runtime_error ca_bundle_invalid
certificates_error exn = exn

module _ (files : Files) where
  abbrev after_load : Result (Unit {0}) → Text → Result Text
  after_load (ok _) path = ok (files.resolve path)
  after_load (err exn) path = err (certificates_error exn)

  -- What stands before the variables are touched: the resolved path, or an exception.
  unfoldable pub check_bundle : Text → Result Text
  check_bundle ca_bundle =
      let path = files.expanduser ca_bundle in
      if is_empty ca_bundle || is_empty (strip ca_bundle)
      then err (runtime_error no_ca_bundle)
      else if not (files.is_file path)
      then err (runtime_error ca_bundle_missing)
      else after_load (files.load_certificates path) path

  module _ {W A : Type 0} (body : Text → Process W → Result A × Process W) where
    -- `try: yield resolved_path  finally: …`
    with_bundle : Result Text → Process W → Result A × Process W
    with_bundle (err exn) process = (err exn, process)
    with_bundle (ok path) process =
        let saved = save ca_bundle_environment_variables process.environ in
        let (result, after) = body path (record process {
          environ = set_all ca_bundle_environment_variables (Option.some path) process.environ;
        }) in
        (result, record after { environ = restore saved after.environ })

    pub use_private_ca_bundle : Text → Process W → Result A × Process W
    use_private_ca_bundle ca_bundle process = with_bundle (check_bundle ca_bundle) process
