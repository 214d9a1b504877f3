-- ===== src/Client.antt =====
-- src/python-sdk-v2/aml_client.py, a module for each group of its functions.
pub mod Host
pub mod Environ
pub mod Credential
pub mod CaBundle
pub mod Identity
pub mod Checks
pub mod Wait
pub mod Jobs
