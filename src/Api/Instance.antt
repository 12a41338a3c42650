-- ===== src/Api/Instance.antt =====
-- api/v1/hermesinstance_types.go: a HermesInstance, its finalizers and its annotations.
use hermes_operator.Common.{ℕ, String, Option, List}
use hermes_operator.Api.Spec.{HermesInstanceSpec, StringMap}
use hermes_operator.Api.Status.{HermesInstanceStatus}

-- The metadata that the controllers use. A nil map of annotations reads as the empty one.
pub record ObjectMeta : Type 0 where
  pub name : String
  pub namespace : String
  pub generation : ℕ
  pub annotations : StringMap
  pub finalizers : List String
  pub deletion_timestamp : Option ℕ

pub record HermesInstance : Type 0 where
  pub meta : ObjectMeta
  pub spec : HermesInstanceSpec
  pub status : HermesInstanceStatus

abbrev pub finalizer_backup_on_delete : String
finalizer_backup_on_delete = "hermes.agent/backup-on-delete"

abbrev pub annotation_auto_update_target : String
annotation_auto_update_target = "hermes.agent/autoupdate-target"

abbrev pub annotation_skip_final_backup : String
annotation_skip_final_backup = "hermes.agent/skip-final-backup"

abbrev pub finalizer_semaphore_cleanup : String
finalizer_semaphore_cleanup = "hermes.agent/semaphore-cleanup"
