-- ===== src/Batch/Platform.antt =====
-- What src/python-sdk-v2/create_batch_deployment.py calls of other packages, for the resolution of
-- an environment: one field for each group of calls.
use mlops_templates.Client.Credential.{Sdk}
use mlops_templates.Batch.Listing.{Decoders}
use mlops_templates.Batch.Request.{Http}
use mlops_templates.Batch.RegistryEnvironment.{Registry}
use mlops_templates.Batch.Source.{Urls}
use mlops_templates.Batch.Source.Access.{Storage}
use mlops_templates.Batch.Import.{Environments}
use mlops_templates.Batch.Download.{Digests, Disk}
use mlops_templates.Batch.BuildImport.{Temporary}

-- Over the worlds W, the responses P to a request, the credentials C and the clients M.
pub record Platform (W P C M : Type 0) : Type 0 where
  pub urls : Urls
  pub digests : Digests
  pub decoders : Decoders
  pub disk : Disk W
  pub http : Http W P
  pub temporary : Temporary W
  pub storage : Storage W M
  pub sdk : Sdk W C M
  pub registry : Registry W M
  -- ml_client.environments
  pub environments : M → Environments W
