-- ===== src/Azure.antt =====
-- The objects of the Azure ML SDK, by the attributes that src/python-sdk-v2 reads of them with
-- `getattr`. Attributes that hold a text, None or nothing at all are read through `str`.
use mlops_templates.Prelude.{Option, List, []}
use mlops_templates.Text.{Text, str}

-- An attribute where the program tells a missing one from one that is None.
pub data Attribute : Type 0 where
  absent null : Attribute
  text : Text → Attribute

-- `str(getattr(object, name, ""))`
abbrev pub text_of : Attribute → Text
text_of absent = []
text_of null = str "None"
text_of (text s) = s

pub record Model : Type 0 where
  pub id : Text
  pub type : Option Text

pub record ComputeIdentity : Type 0 where
  pub type : Attribute
  -- the list, empty where it is missing or None
  pub user_assigned_identities : List Text

pub record Compute : Type 0 where
  pub type : Attribute
  pub resource_id : Option Text
  pub provisioning_state : Attribute
  pub namespace : Attribute
  pub identity : Option ComputeIdentity

pub record Build : Type 0 where
  pub path : Option Text
  pub dockerfile_path : Option Text

abbrev pub Dict : Type 0
Dict = List (Text × Text)

-- `tags` and `properties` are none where the attribute is no dict.
pub record Environment : Type 0 where
  pub name : Option Text
  pub version : Option Text
  pub id : Option Text
  pub image : Option Text
  pub conda_file : Option Text
  pub build : Option Build
  pub tags : Option Dict
  pub properties : Option Dict

pub record IdentityConfiguration : Type 0 where
  pub type : Text
  pub user_assigned_identities : List Text

pub record CodeConfiguration : Type 0 where
  pub code : Option Text
  pub scoring_script : Option Text

-- A batch deployment as the service returns it.
pub record BatchDeployment : Type 0 where
  pub provisioning_state : Option Text
  pub environment : Option Text
  pub code_configuration : Option CodeConfiguration

-- A batch endpoint; `defaults` is the name of the default deployment, under `endpoint.defaults`.
pub record BatchEndpoint : Type 0 where
  pub name : Text
  pub provisioning_state : Option Text
  pub defaults : Option (Option Text)
