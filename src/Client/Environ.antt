-- ===== src/Client/Environ.antt =====
-- `os.environ`, of which src/python-sdk-v2/aml_client.py reads, sets and pops variables.
use mlops_templates.Prelude.{Option, if◌then◌else◌}
use mlops_templates.Text.{Text, str_eq}

abbrev pub Environ : Type 0
Environ = Text → Option Text

-- `os.environ[variable] = value`, and `os.environ.pop(variable, None)` where the value is None
abbrev pub assign : Text → Option Text → Environ → Environ
assign variable value environ other = if str_eq other variable then value else environ other
