-- ===== src/Api/Features.antt =====
-- api/v1/hermesinstance_types.go: the sub-specs of the day-2 features.
-- A record has the fields that validation, defaulting, self-configuration and the sub-controllers
-- read or write; the fields that only shape Kubernetes objects are left out.
use hermes_operator.Common.{ℕ, String, Bool, Option, List}

pub record LocalObjectReference : Type 0 where
  pub name : String

pub record SecretKeySelector : Type 0 where
  pub name : String
  pub key : String

pub record BackupS3Spec : Type 0 where
  pub bucket : String
  pub endpoint : String
  pub region : String
  pub path_prefix : String
  pub credentials_secret_ref : LocalObjectReference

pub record BackupSpec : Type 0 where
  pub s3 : Option BackupS3Spec
  pub schedule : String
  pub on_delete : Bool
  pub pre_update : Option Bool
  pub history_limit : Option ℕ
  pub failed_history_limit : Option ℕ
  pub image : String

pub record AutoUpdateSourceSpec : Type 0 where
  pub registry : String
  pub channel : String

pub record AutoUpdateRollbackSpec : Type 0 where
  pub enabled : Option Bool
  pub probe_failure_threshold : ℕ

pub record AutoUpdateSpec : Type 0 where
  pub enabled : Bool
  pub source : AutoUpdateSourceSpec
  pub poll_interval : String
  pub backup_before_update : Option Bool
  pub rollback : AutoUpdateRollbackSpec

pub record NamespacedObjectReference : Type 0 where
  pub name : String
  pub namespace : String

pub record MigrationBackupS3 : Type 0 where
  pub bucket : String
  pub endpoint : String
  pub region : String
  pub key : String
  pub credentials_secret_ref : LocalObjectReference

pub record MigrationBackupRef : Type 0 where
  pub s3 : MigrationBackupS3

pub record MigrationFromOpenClawSource : Type 0 where
  pub open_claw_instance_ref : Option NamespacedObjectReference
  pub backup_ref : Option MigrationBackupRef

pub record MigrationFromOpenClawSpec : Type 0 where
  pub source : MigrationFromOpenClawSource
  pub mode : String
  pub image : String

pub record MigrationSpec : Type 0 where
  pub from_open_claw : Option MigrationFromOpenClawSpec

pub data SelfConfigAction : Type 0 where
  skills config env_vars workspace_files profiles : SelfConfigAction
  -- `SelfConfigAction` is a string type: any other text.
  unknown : String → SelfConfigAction

pub record SelfConfigureSpec : Type 0 where
  pub enabled : Option Bool
  pub allowed_actions : List SelfConfigAction
  pub protected_keys : List String

pub record TelegramGatewaySpec : Type 0 where
  pub enabled : Option Bool
  pub bot_token_secret_ref : Option SecretKeySelector
  pub allowed_user_ids : List ℕ
  pub webhook_url : String

pub record DiscordGatewaySpec : Type 0 where
  pub enabled : Option Bool
  pub bot_token_secret_ref : Option SecretKeySelector
  pub application_id : String
  pub guild_ids : List String

pub record SlackGatewaySpec : Type 0 where
  pub enabled : Option Bool
  pub bot_token_secret_ref : Option SecretKeySelector
  pub app_token_secret_ref : Option SecretKeySelector
  pub signing_secret_ref : Option SecretKeySelector

pub record WhatsAppGatewaySpec : Type 0 where
  pub enabled : Option Bool
  pub provider_secret_ref : Option SecretKeySelector

pub record SignalGatewaySpec : Type 0 where
  pub enabled : Option Bool
  pub phone_number_secret_ref : Option SecretKeySelector
  pub auth_token_secret_ref : Option SecretKeySelector

pub record GatewaysSpec : Type 0 where
  pub telegram : TelegramGatewaySpec
  pub discord : DiscordGatewaySpec
  pub slack : SlackGatewaySpec
  pub whats_app : WhatsAppGatewaySpec
  pub signal : SignalGatewaySpec

pub record HonchoPersistenceSpec : Type 0 where
  pub enabled : Option Bool

pub record HonchoSpec : Type 0 where
  pub enabled : Option Bool
  pub persistence : HonchoPersistenceSpec
  pub api_key_secret_ref : Option SecretKeySelector

pub record ProfileStoreSpec : Type 0 where
  pub honcho : HonchoSpec

pub record TailscaleAuthKey : Type 0 where
  pub secret_ref : Option SecretKeySelector

pub record TailscaleSpec : Type 0 where
  pub enabled : Option Bool
  pub auth_key : Option TailscaleAuthKey

pub record SemaphoreSpec : Type 0 where
  pub enabled : Option Bool
  pub url : String
  pub token_secret_ref : Option SecretKeySelector
  pub admin_token_secret_ref : Option SecretKeySelector
  pub cleanup_on_delete : Option Bool
