-- ===== src/Webhook/Validate.antt =====
-- internal/webhook/webhook_hermesinstance_validate.go: `ValidateCreate`, `ValidateUpdate` and
-- `validateImmutable`. An admission request of another kind than HermesInstance is left out.
pub mod Accepts
mod Tests
use hermes_operator.Common.{
  String, Bool, true, false, not, ◌||◌, Option, none, some, List, [], ◌++◌, str_eq,
}
use hermes_operator.Common.Flow.{Flow, ◌>>◌, ◌>>=◌, return_if}
use hermes_operator.Api.Features.{MigrationSpec}
use hermes_operator.Api.Instance.{HermesInstance}
use hermes_operator.Webhook.{
  Admission, Check, Denial, Warning, SecretClient, denial_of, pass, storage_class_immutable,
  name_immutable,
}
use hermes_operator.Webhook.Sanity.{validate_common}
use hermes_operator.Webhook.Sources.{
  aggregate, cross_check_secrets, validate_restore_migration_mutual_exclusion,
  validate_migration_source_exactly_one, validate_immutable_terminals,
}
use hermes_operator.Webhook.Gateways.{validate_gateways}
use hermes_operator.Webhook.Tailscale.{validate_tailscale}

-- The old class is set, and the new one is nil or another.
abbrev pub class_changed : Option String → Option String → Bool
class_changed none b = false
class_changed (some a) none = true
class_changed (some a) (some b) = not (str_eq a b)

module _ {W : Type 0} (client : SecretClient W) where
  pub validate_immutable : HermesInstance → HermesInstance → Check W
  validate_immutable old updated = do
    return_if
        (class_changed old.spec.storage.persistence.storage_class_name
          updated.spec.storage.persistence.storage_class_name)
        storage_class_immutable
    return_if (not (str_eq old.meta.name updated.meta.name)) name_immutable

  -- The common end of the two entry points.
  pub validate_rest : HermesInstance → Check W
  validate_rest i = do validate_common i; validate_gateways client i; validate_tailscale client i

  pub validate_create : HermesInstance → Check W
  unfolding validate_rest
  validate_create i = do
    cross_check_secrets client i
    aggregate
        (validate_restore_migration_mutual_exclusion i ++ validate_migration_source_exactly_one i)
    validate_rest i

  pub validate_update : (MigrationSpec → String) → HermesInstance → HermesInstance → Check W
  unfolding validate_immutable validate_rest
  validate_update marshal old updated = do
    cross_check_secrets client updated
    aggregate (
        validate_immutable_terminals marshal old updated
        ++ (validate_restore_migration_mutual_exclusion updated
            ++ validate_migration_source_exactly_one updated))
    validate_immutable old updated
    validate_rest updated
