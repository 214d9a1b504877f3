-- ===== src/Client/CaBundle/Tests.antt =====
-- A process whose environment has one of the two variables, and a body that sets others.
use mlops_templates.Prelude.{ℕ, ◌≡◌, refl, none, some, if◌then◌else◌}
use mlops_templates.Text.{Text, str, str_eq, strip, one_of}
use mlops_templates.Outcome.{Result, ok, err, other, runtime_error, ca_bundle_missing}
use mlops_templates.Client.Environ.{assign}
use mlops_templates.Client.CaBundle.{
  Files, Process, check_bundle, with_bundle, use_private_ca_bundle, save, restore, set_all,
  ca_bundle_environment_variables,
}
use mlops_templates.Client.CaBundle.Restores.{entered, use_private_ca_bundle-restores}

abbrev files : Files
files = record {
  expanduser = λ path. path;
  is_file = λ path. str_eq path (str "ca.pem");
  resolve = λ path. str "/etc/ca.pem";
  load_certificates = λ path. ok tt;
}

abbrev process : Process ℕ
process = record {
  environ = λ v. if str_eq v (str "SSL_CERT_FILE") then some (str "old") else none;
  rest = 0;
}

-- A body that raises, after it has set a variable of its own and one of the two.
body : Text → Process ℕ → Result ℕ × Process ℕ
body path p = (
  err other,
  record {
    environ = assign (str "MINE") (some path) (assign (str "SSL_CERT_FILE") none p.environ);
    rest = 7;
  },
)

accepted : check_bundle files (str "ca.pem") ≡ ok (str "/etc/ca.pem")
unfolding check_bundle strip str_eq
accepted = refl

missing : check_bundle files (str "no.pem") ≡ err (runtime_error ca_bundle_missing)
unfolding check_bundle strip str_eq
missing = refl

restored_variable :
    (use_private_ca_bundle files body (str "ca.pem") process).1.environ (str "SSL_CERT_FILE")
    ≡ some (str "old")
unfolding use_private_ca_bundle with_bundle check_bundle strip str_eq body save restore set_all
restored_variable = refl

use_private_ca_bundle-restores_example :
    let before = entered files body (str "/etc/ca.pem") process in
    let after = body (str "/etc/ca.pem") before in
    let run = use_private_ca_bundle files body (str "ca.pem") process in
    (before.environ (str "SSL_CERT_FILE") ≡ (
      if one_of (str "SSL_CERT_FILE") ca_bundle_environment_variables
      then some (str "/etc/ca.pem")
      else process.environ (str "SSL_CERT_FILE")))
    × (run.0 ≡ after.0)
    × (run.1.environ (str "SSL_CERT_FILE") ≡ (
        if one_of (str "SSL_CERT_FILE") ca_bundle_environment_variables
        then process.environ (str "SSL_CERT_FILE")
        else after.1.environ (str "SSL_CERT_FILE")))
    × (run.1.rest ≡ after.1.rest)
use_private_ca_bundle-restores_example =
    use_private_ca_bundle-restores files body (str "ca.pem") (str "/etc/ca.pem") process
      (str "SSL_CERT_FILE") accepted
