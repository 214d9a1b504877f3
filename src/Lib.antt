-- ===== src/Lib.antt =====
-- The Python SDK v2 scripts of this repository: the client module and the batch deployment.
--
-- The program. `src/python-sdk-v2/aml_client.py` makes Azure ML clients, checks what the workspace
-- holds, and waits for what it creates. `src/python-sdk-v2/create_batch_deployment.py` deploys a
-- batch model in an immutable environment: it validates the reference, looks a registry environment
-- up, imports it into the workspace with its provenance, resolves the scoring code, and checks the
-- live deployment before it is used. Each function that is modelled is a definition of the same name,
-- without the leading underscore; its loops, its branches and its handlers have definitions of their
-- own beside it.
--
-- The client module, src/python-sdk-v2/aml_client.py:
--   Client/Credential   `create_azure_credential`, `_is_truthy`, `create_ml_client`,
--                       `create_registry_ml_client`
--   Client/CaBundle     `use_private_ca_bundle`, over a process state with `os.environ`
--   Client/Identity     `get_user_assigned_identity_configuration`
--   Client/Checks       `get_registered_model`, `get_kubernetes_online_compute`,
--                       `get_prebuilt_environment`
--   Client/Wait         `wait_for_poller`, `wait_for_resource_terminal_state`,
--                       `wait_for_resource_create_or_update`
--   Client/Jobs         `wait_for_job`, `print_job_diagnostics`,
--                       `_download_and_print_job_diagnostics`
--   Client/Jobs/Redaction   `_bounded_redacted_text`, with its four patterns
--   Client/Jobs/Excerpt     `_diagnostic_excerpt`
--   Client/Jobs/Paths       `_safe_path_component`, `_contains_log_file`
--   Client/Host         `print` and `time.sleep`
-- The batch deployment, src/python-sdk-v2/create_batch_deployment.py:
--   Batch/Reference     the patterns, `validate_immutable_environment_reference`,
--                       `_parse_registry_environment_reference`, `_environment_matches`
--   Batch/RegistryEnvironment   `_get_registry_environment`
--   Batch/Naming        `_workspace_environment_name`
--   Batch/Provenance    `_registry_provenance`, `_environment_properties`,
--                       `_environment_provenance`, `_validate_workspace_environment`
--   Batch/Source        `_safe_source_prefix`, `_url_with_query`, and in Batch/Source/Access
--                       `_validate_sdk_registry_helper`, `_authenticated_container_url`
--   Batch/Download      `_download_registry_build_context`
--   Batch/Import        `_existing_workspace_environment`, and what both imports do with it
--   Batch/ImageImport   `_materialize_image_environment`
--   Batch/BuildImport   `_materialize_build_environment`
--   Batch/Platform      the calls of other packages that the resolution makes, as one interface
--   Batch/Resolve       `resolve_batch_environment`
--   Batch/Run           `run`
--   Batch/BlobPath      `_safe_blob_relative_path`
--   Batch/Listing       `_listing_entries`
--   Batch/Request       `_request_bytes`
--   Batch/ScoringCode   `resolve_scoring_code`
--   Batch/Live          `verify_live_deployment`
--   Batch/Fixture       a small Azure for the tests
-- Shared: Prelude (lists and tests on native numbers), Text (a text is a list of code points), Numeral
-- (`int`), Pattern (the regular expressions, as rows of literals and runs, with their meaning in
-- Pattern/Decides), Regex (`re.sub`, by backtracking), Posix (`PurePosixPath`), Json (`json.dumps` of a text and a number), Azure (the
-- SDK's objects), Outcome (exceptions; Outcome/Keeps and Outcome/Raises have the rules for what a call keeps of the world and
-- for what it may raise).
--
-- How it is modelled. A call that may raise returns a `Result`; one that also acts on the outside
-- world is an `Exec`, a function of a world that gives a result and the world after it, after an
-- exception too. Each `raise` statement has a constructor of `Outcome.Reason`, without the text of
-- its message. An object of the SDK is a record of the attributes that the scripts read; an attribute
-- that holds a text, None or nothing is an `Option`, since the scripts read it through
-- `str(x or "")`, except where they tell None from a missing attribute.
--
-- What is a parameter: the Azure SDK (lookups, creations, tokens, clients, operation scopes), pathlib
-- on the file system, the temporary directory, ssl, the XML parser, the HTTP connection,
-- `urllib.parse`, base64, MD5 and SHA-256, the files of a job's diagnostics, and `\w` of `re`. Each is
-- an argument of the definitions that use it, and a theorem that relies on what it does has that as a
-- hypothesis.
--
-- Bounds and loops. The polling loop and the update loop recurse on the rounds that are left, which
-- are the rounds that the source allows; `wait_for_job`, which polls without an end, has the rounds as
-- fuel, and a theorem gives its end for any number of rounds that reaches a terminal status; all other
-- loops run over a list.
-- Sizes are unbounded numbers, as in Python.
--
-- What is narrower than Python: case is mapped for ASCII letters alone; texts are code points
-- without a bound on the number of digits that `int` reads; paths are those of POSIX; a path under
-- the root is the list of its names. A lookup of a resource that returns None, which a round of the
-- polling loop reads once more after its sleep, and the exceptions of `expanduser` and `resolve` on the
-- path of the CA bundle are left out. The values that `print` shows are kept, its texts are not.
--
-- What is not modelled: the command line of the batch deployment; the other scripts of src/python-sdk-v2, which call the client module; the
-- scripts of src/python-sdk-v1, which are sequences of calls of another SDK; the templates, the
-- workflows, the tests and the action in read_yaml_action, which are no Python or no core logic.
pub mod Prelude
pub mod Outcome
pub mod Text
pub mod Numeral
pub mod Pattern
pub mod Regex
pub mod Posix
pub mod Json
pub mod Azure
pub mod Client
pub mod Batch
