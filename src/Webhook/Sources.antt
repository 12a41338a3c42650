-- ===== src/Webhook/Sources.antt =====
-- internal/webhook/webhook_hermesinstance_validate.go: the rules on restore and migration, and the
-- warnings of `crossCheckSecrets`.
pub mod Accepts
use hermes_operator.Common.{
  String, Bool, true, false, ◌&&◌, not, Option, none, some, List, [], ◌∷◌, ◌++◌, is_empty, is_some,
  str_eq, if◌then◌else◌,
}
use hermes_operator.Common.Flow.{M, ◌>>◌, ◌>>=◌, go, stop, when, return_if}
use hermes_operator.Kube.Result.{Result, ok, err}
use hermes_operator.Api.Features.{MigrationFromOpenClawSpec, BackupS3Spec, MigrationSpec}
use hermes_operator.Api.Instance.{HermesInstance}
use hermes_operator.Webhook.{
  Check, Denial, Admission, FieldError, Secret, SecretClient, warn, pass, latest_tag,
  credentials_unresolved, restore_and_migration, migration_source, restore_from_changed,
  migration_changed, invalid,
}

abbrev pub complain : Bool → FieldError → List FieldError
complain b e = if b then e ∷ [] else []

abbrev pub same_bool : Bool → Bool → Bool
same_bool true b = b
same_bool false b = not b

pub validate_restore_migration_mutual_exclusion : HermesInstance → List FieldError
validate_restore_migration_mutual_exclusion i =
    complain (not (is_empty i.spec.restore_from) && is_some i.spec.migration.from_open_claw)
      restore_and_migration

abbrev pub source_errors : Option MigrationFromOpenClawSpec → List FieldError
source_errors none = []
source_errors (some f) =
    complain (same_bool (is_some f.source.open_claw_instance_ref) (is_some f.source.backup_ref))
      migration_source

pub validate_migration_source_exactly_one : HermesInstance → List FieldError
validate_migration_source_exactly_one i = source_errors i.spec.migration.from_open_claw

-- `validateImmutableTerminals` on an update; `marshal` is `json.Marshal` of encoding/json.
module _ (marshal : MigrationSpec → String) where
  pub equal_migration : MigrationSpec → MigrationSpec → Bool
  equal_migration a b = str_eq (marshal a) (marshal b)

  abbrev pub is_restored : HermesInstance → Bool
  is_restored old =
      not (is_empty old.status.restored_from)
      && str_eq old.status.restored_from old.spec.restore_from

  pub validate_immutable_terminals : HermesInstance → HermesInstance → List FieldError
  unfolding equal_migration
  validate_immutable_terminals old updated =
      complain (is_restored old && not (str_eq old.spec.restore_from updated.spec.restore_from))
        restore_from_changed
      ++ complain
          (old.status.migration.completed
            && not (equal_migration old.spec.migration updated.spec.migration))
          migration_changed

-- `errs.ToAggregate()`: nil if there is none.
abbrev pub aggregate : {W : Type 0} → List FieldError → Check W
aggregate [] s = go tt s
aggregate (e ∷ es) s = stop (invalid (e ∷ es)) s

module _ {W : Type 0} (client : SecretClient W) where
  pub credentials_answer : String → String → Result Secret → Check W
  credentials_answer name namespace (ok secret) = pass
  credentials_answer name namespace (err e) = warn (credentials_unresolved name namespace)

  pub check_credentials : String → HermesInstance → Check W
  unfolding credentials_answer
  check_credentials name i s = elim client [
    | none ↦ pass s
    | some get ↦
        let (r, w) = get i.meta.namespace name s.world in
        credentials_answer name i.meta.namespace r (record s { world = w })
  ]

  abbrev pub credentials_of : Option BackupS3Spec → String
  credentials_of none = ""
  credentials_of (some s3) = s3.credentials_secret_ref.name

  pub cross_check_secrets : HermesInstance → Check W
  unfolding check_credentials
  cross_check_secrets i = do
    when (is_some i.spec.backup.s3 && not (is_empty (credentials_of i.spec.backup.s3)))
        (check_credentials (credentials_of i.spec.backup.s3) i)
    when (i.spec.auto_update.enabled && str_eq i.spec.image.tag "latest") (warn latest_tag)
