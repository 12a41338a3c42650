-- ===== src/Api/SelfConfig.antt =====
-- api/v1/hermesselfconfig_types.go.
-- A record has the fields that validation, defaulting, self-configuration and the sub-controllers
-- read or write; the fields that only shape Kubernetes objects are left out.
use hermes_operator.Common.{ℕ, String, Option, List}
use hermes_operator.Api.Status.{Condition}
use hermes_operator.Api.Instance.{ObjectMeta}

pub record SelfConfigSkill : Type 0 where
  pub source : String
  pub version : String

pub record SelfConfigKeySelector : Type 0 where
  pub name : String
  pub key : String

pub record SelfConfigEnvVarSource : Type 0 where
  pub secret_key_ref : Option SelfConfigKeySelector
  pub config_map_key_ref : Option SelfConfigKeySelector

pub record SelfConfigEnvVar : Type 0 where
  pub name : String
  pub value : String
  pub value_from : Option SelfConfigEnvVarSource

pub record SelfConfigWorkspaceFile : Type 0 where
  pub path : String
  pub content : String
  pub content_from : Option SelfConfigKeySelector

pub record SelfConfigProfileSnapshot : Type 0 where
  pub profile_id : String
  pub payload : String

-- `patch_config` is the raw text of the JSON merge patch.
pub record HermesSelfConfigSpec : Type 0 where
  pub instance_ref : String
  pub add_skills : List SelfConfigSkill
  pub patch_config : Option String
  pub add_env_vars : List SelfConfigEnvVar
  pub add_workspace_files : List SelfConfigWorkspaceFile
  pub add_profile_snapshot : Option SelfConfigProfileSnapshot

pub data SelfConfigPhase : Type 0 where
  unset pending applied denied : SelfConfigPhase

pub record HermesSelfConfigStatus : Type 0 where
  pub observed_generation : ℕ
  pub phase : SelfConfigPhase
  pub applied_at : Option ℕ
  pub deny_reason : String
  pub applied_fields : List String
  pub conditions : List Condition

pub record HermesSelfConfig : Type 0 where
  pub meta : ObjectMeta
  pub spec : HermesSelfConfigSpec
  pub status : HermesSelfConfigStatus
