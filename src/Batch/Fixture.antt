-- ===== src/Batch/Fixture.antt =====
-- A small Azure for the tests: a registry with an environment that is built from two files, and a
-- workspace that keeps one environment, one batch deployment and one endpoint.
use mlops_templates.Prelude.{ℕ, zero, suc, Option, none, some, List, [], ◌∷◌, if◌then◌else◌, true}
use mlops_templates.Text.{Text, str, str_eq}
use mlops_templates.Outcome.{Result, ok, err, resource_not_found}
use mlops_templates.Azure.{Environment, BatchDeployment, BatchEndpoint}
use mlops_templates.Client.Host.{Host}
use mlops_templates.Client.Environ.{Environ}
use mlops_templates.Client.Credential.{Sdk}
use mlops_templates.Numeral.{pos}
use mlops_templates.Batch.Listing.{Blob, Decoders, Bytes}
use mlops_templates.Batch.Request.{Http}
use mlops_templates.Batch.RegistryEnvironment.{Scope}
use mlops_templates.Batch.ScoringCode.{PathNames, FileSystem}
use mlops_templates.Batch.Source.{Url, Urls}
use mlops_templates.Batch.Source.Access.{Storage, Helper, supported_azure_ai_ml_version}
use mlops_templates.Batch.Import.{Environments}
use mlops_templates.Batch.Download.{Digests, Disk}
use mlops_templates.Batch.BuildImport.{Temporary}
use mlops_templates.Batch.Live.{WorkspaceEnvironment, reference, entity}
use mlops_templates.Batch.Platform.{Platform}
use mlops_templates.Batch.Run.{RunArguments, DeploymentRequest, Service}

pub record World : Type 0 where
  pub written : List PathNames
  pub environment : Option Environment
  pub deployment : Option BatchDeployment
  pub default : Option Text

abbrev pub start : World
start = record { written = []; environment = none; deployment = none; default = some (str "old") }

abbrev blob : Text → Blob
blob name = record {
  name = some name;
  content_length = some (str "3");
  content_md5 = some (str "m");
}

abbrev pub copies : ℕ → ℕ → Bytes
copies c zero = []
copies c (suc n) = c ∷ copies c n

abbrev pub decoders : Decoders
decoders = record {
  unquote = λ s. s;
  parse_xml =
      λ b. some (record { next_marker = none; blobs = blob (str "p/b") ∷ blob (str "p/x/a") ∷ [] });
  decode_base64 = λ s. some (copies 0 16);
}

abbrev url : Text → Text → Url
url path query = record {
  scheme = str "https";
  netloc = str "host";
  path = path;
  query = query;
  fragment = [];
}

abbrev pub urls : Urls
urls = record {
  urlsplit = λ s.
      ok (if str_eq s (str "source") then url (str "/box/p") [] else url (str "/box") (str "sig"));
  urlunsplit = λ u. u.path;
  unquote = λ s. s;
  quote = λ s. s;
  parse_qsl = λ s. [];
  urlencode = λ d. [];
}

abbrev pub disk : Disk World
disk = record {
  mkdir = λ path w. (ok tt, w);
  write_bytes = λ path body w. (ok tt, record w { written = path ∷ w.written });
}

abbrev pub http : Http World Text
http = record {
  open_url = λ u w. (ok u, w);
  content_length = λ r. none;
  content_md5 = λ r. some (str "m");
  read = λ r n w. (ok (1 ∷ 2 ∷ 3 ∷ []), w);
}

abbrev scope : Scope
scope = record {
  subscription_id = some (str "01234567-0123-0123-0123-0123456789ab");
  resource_group_name = some (str "rg");
  registry_name = some (str "r");
}

abbrev pub helper : Helper World Text
helper client name version group registry uri w = (ok (str "sas", str "SAS"), w)

abbrev pub storage : Storage World Text
storage = record {
  package_version = some supported_azure_ai_ml_version;
  helper = some helper;
  has_service_client = λ m. true;
  scope = λ m. scope;
}

-- `md5` is the MD5 of every body.
abbrev pub digests : Text → Digests
digests md5 = record {
  sha256_hex = λ s. copies b'0' 64;
  sha256_hex_bytes = λ b. str "e";
  md5_base64 = λ b. md5;
}

-- The directory keeps nothing once it is removed.
abbrev pub temporary : Temporary World
temporary = record {
  make = λ w. (ok (str "tmp" ∷ []), w);
  remove = λ path w. record w { written = [] };
}

abbrev pub sdk : Sdk World Text Text
sdk = record {
  cli_credential = str "cli";
  default_credential = λ a b. str "default";
  get_token = λ c s w. (ok tt, w);
  workspace_client = λ c s g n. c;
  registry_client = λ c r. r;
  credential_of = λ m. some m;
}

abbrev pub requested : Text
requested = str "azureml://registries/r/environments/e/versions/7"

abbrev pub built : Environment
built = record {
  name = some (str "e");
  version = some (str "7");
  id = some requested;
  image = none;
  conda_file = none;
  build = some (record { path = some (str "source"); dockerfile_path = some (str "x/./a") });
  tags = none;
  properties = none;
}

abbrev pub found_or_missing : {A : Type 0} → Option A → World → Result A × World
found_or_missing none w = (err resource_not_found, w)
found_or_missing (some x) w = (ok x, w)

abbrev pub saved : Environment → Environment
saved environment = record environment { id = some (str "azureml:registry-r-e:7") }

abbrev pub environments : Environments World
environments = record {
  get = λ name version w. found_or_missing w.environment w;
  create_or_update = λ environment w.
      (ok (saved environment), record w { environment = some (saved environment) });
}

abbrev pub platform : Platform World Text Text Text
platform = record {
  urls = urls;
  digests = digests (str "m");
  decoders = decoders;
  disk = disk;
  http = http;
  temporary = temporary;
  storage = storage;
  sdk = sdk;
  registry = record { get = λ m n v w. (ok built, w); scope = λ m. scope };
  environments = λ m. environments;
}

abbrev pub host : Host World
host = record { print = λ line w. w; sleep = λ n w. w }

abbrev pub files : FileSystem
files = record {
  resolve_root = λ s. ok (str "repo" ∷ []);
  resolve = λ path. ok path;
  is_dir = λ path. true;
  is_file = λ path. true;
}

abbrev pub environ : Environ
environ name = none

abbrev named : WorkspaceEnvironment → Option Text
named (reference s) = some s
named (entity x) = x.id

abbrev pub deployed : DeploymentRequest → BatchDeployment
deployed request = record {
  provisioning_state = some (str "Succeeded");
  environment = named request.environment;
  code_configuration = some request.code_configuration;
}

abbrev pub endpoint : Option Text → BatchEndpoint
endpoint default = record {
  name = str "scores";
  provisioning_state = some (str "Succeeded");
  defaults = some default;
}

abbrev default_of : Option (Option Text) → Option Text
default_of none = none
default_of (some name) = name

abbrev pub service : Service World Text Text
service = record {
  get_model = λ m n v w. (ok (record { id = str "model"; type = some (str "mlflow_model") }), w);
  begin_deployment =
      λ m request w. (ok (str "poller"), record w { deployment = some (deployed request) });
  get_deployment = λ m n e w. found_or_missing w.deployment w;
  begin_endpoint = λ m e w. (ok (str "poller"), record w { default = default_of e.defaults });
  get_endpoint = λ m n w. (ok (endpoint w.default), w);
  poller_result = λ p w. (ok tt, w);
}

abbrev pub args : RunArguments
args = record {
  subscription_id = str "s";
  resource_group = str "g";
  workspace_name = str "w";
  deployment_name = str "new";
  description = none;
  endpoint_name = str "scores";
  model_name = str "model";
  model_version = str "1";
  compute = str "cluster";
  environment = requested;
  repository_root = str ".";
  scoring_code_directory = str "scoring";
  scoring_script = str "score.py";
  instance_count = pos 2;
  max_concurrency_per_instance = pos 4;
  mini_batch_size = pos 32;
  output_file_name = str "predictions.csv";
}
