-- ===== src/Api/Status.antt =====
-- api/v1/hermesinstance_types.go: the status of an instance. A condition is a `metav1.Condition`.
-- The fields that no modelled code reads or writes are left out.
use hermes_operator.Common.{ℕ, String, Bool, Option, List}

pub data ConditionStatus : Type 0 where
  condition_true condition_false : ConditionStatus

-- `Message` is text for people, and `LastTransitionTime` is kept by the library that sets
-- conditions; no modelled code reads them, and they are left out.
pub record Condition : Type 0 where
  pub type : String
  pub status : ConditionStatus
  pub reason : String
  pub observed_generation : ℕ

pub record BackupStatus : Type 0 where
  pub last_success_time : Option ℕ
  pub last_success_snapshot_id : String
  pub last_failure_time : Option ℕ
  pub last_failure_reason : String
  pub final_backup_job_name : String

pub record AutoUpdateStatus : Type 0 where
  pub last_check_time : Option ℕ
  pub current_tag : String
  pub target_tag : String
  pub last_success_tag : String
  pub last_failed_tag : String
  pub pre_update_snapshot : String
  pub probe_failures : ℕ
  pub rollout_deadline : Option ℕ

pub record MigrationStatus : Type 0 where
  pub completed : Bool
  pub finished_at : Option ℕ
  pub source_version : String

pub record HermesInstanceStatus : Type 0 where
  pub observed_generation : ℕ
  pub phase : String
  pub conditions : List Condition
  pub replicas : ℕ
  pub ready_replicas : ℕ
  pub restored_from : String
  pub backup : BackupStatus
  pub auto_update : AutoUpdateStatus
  pub migration : MigrationStatus

abbrev pub condition_backup_ready : String
condition_backup_ready = "BackupReady"

abbrev pub condition_restore_applied : String
condition_restore_applied = "RestoreApplied"

abbrev pub condition_auto_updated : String
condition_auto_updated = "AutoUpdated"

abbrev pub condition_auto_update_rolled_back : String
condition_auto_update_rolled_back = "AutoUpdateRolledBack"

abbrev pub condition_migration_completed : String
condition_migration_completed = "MigrationCompleted"
