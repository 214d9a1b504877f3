-- ===== src/Batch.antt =====
-- src/python-sdk-v2/create_batch_deployment.py, a module for each group of its functions.
pub mod Reference
pub mod Naming
pub mod Provenance
pub mod BlobPath
pub mod Listing
pub mod RegistryEnvironment
pub mod Import
pub mod ImageImport
pub mod Request
pub mod Source
pub mod Download
pub mod BuildImport
pub mod Platform
pub mod Resolve
pub mod Live
pub mod ScoringCode
pub mod Run
pub mod Fixture
