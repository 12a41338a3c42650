-- ===== src/Webhook/Sources/Accepts.antt =====
-- What the rules on restore and migration accept.
use hermes_operator.Common.{
  String, Bool, true, false, ◌&&◌, not, Option, none, some, List, [], ◌∷◌, ◌++◌, ◌≡◌, ◌≢◌, refl,
  ◌⊎◌, inl, inr, ◌↔◌, arith, eq_iff, is_empty, is_some, str_eq,
}
use hermes_operator.Kube.Result.{Result, ok, err}
use hermes_operator.Api.Features.{MigrationFromOpenClawSpec, MigrationSpec}
use hermes_operator.Api.Instance.{HermesInstance}
use hermes_operator.Webhook.{
  SecretClient, Secret, FieldError, Admission, latest_tag, restore_and_migration, migration_source,
  restore_from_changed, migration_changed,
}
use hermes_operator.Webhook.Decides.{
  Decides, Decides-iff, Decides-pass, Decides-then, Decides-note, Decides-warn,
}
use hermes_operator.Webhook.Sources.{
  complain, same_bool, source_errors, equal_migration, aggregate, credentials_answer,
  check_credentials, credentials_of, cross_check_secrets,
  validate_restore_migration_mutual_exclusion, validate_migration_source_exactly_one,
  validate_immutable_terminals,
}

abbrev pub ExactlyOne : {A B : Type 0} → Option A → Option B → Type 0
ExactlyOne a b = ((a ≢ none) × (b ≡ none)) ⊎ ((a ≡ none) × (b ≢ none))

-- Restore or migration, and one source of the migration.
pub record HasOneSource (i : HermesInstance) : Type 0 where
  pub exclusive : (i.spec.restore_from ≡ "") ⊎ (i.spec.migration.from_open_claw ≡ none)
  pub source :
      (f : MigrationFromOpenClawSpec)
      → i.spec.migration.from_open_claw ≡ some f
      → ExactlyOne f.source.open_claw_instance_ref f.source.backup_ref

-- What is finished stays as it is.
pub record KeepsLatches (marshal : MigrationSpec → String) (old updated : HermesInstance)
    : Type 0 where
  pub restored :
      old.status.restored_from ≢ ""
      → old.status.restored_from ≡ old.spec.restore_from
      → old.spec.restore_from ≡ updated.spec.restore_from
  pub migrated :
      old.status.migration.completed ≡ true
      → marshal old.spec.migration ≡ marshal updated.spec.migration

complain_iff : (b : Bool) (e : FieldError) → (complain b e ≡ []) ↔ (b ≡ false)
complain_iff true e = (λ h. cc, λ h. cc)
complain_iff false e = (λ h. refl, λ h. refl)

append_iff {ℓ} : {A : Type ℓ} (xs ys : List A) → (xs ++ ys ≡ []) ↔ ((xs ≡ []) × (ys ≡ []))
append_iff [] ys = (λ h. (refl, h), λ h. h.1)
append_iff (x ∷ xs) ys = (λ h. cc, λ h. cc h.0)

one_iff :
    {A B : Type 0} (a : Option A) (b : Option B)
    → (same_bool (is_some a) (is_some b) ≡ false) ↔ ExactlyOne a b
one_iff none none = (λ h. cc, λ h. ground arith)
one_iff none (some y) = (λ h. inr (refl, λ q. cc), λ h. refl)
one_iff (some x) none = (λ h. inl ((λ q. cc), refl), λ h. refl)
one_iff (some x) (some y) = (λ h. cc, λ h. ground arith)

exclusive_iff :
    (t : String) {A : Type 0} (o : Option A)
    → (not (is_empty t) && is_some o ≡ false) ↔ ((t ≡ "") ⊎ (o ≡ none))
exclusive_iff t none = (λ h. inr refl, λ h. ground arith)
exclusive_iff t (some x) = (λ h. ground (arith, eq_iff t ""), λ h. ground (arith, eq_iff t ""))

some_of {ℓ} : {A : Type ℓ} (a b : A) → some a ≡ some b → a ≡ b
some_of a b e = cc

source_errors_iff :
    (o : Option MigrationFromOpenClawSpec)
    → (source_errors o ≡ []) ↔ (
        (f : MigrationFromOpenClawSpec)
        → o ≡ some f
        → ExactlyOne f.source.open_claw_instance_ref f.source.backup_ref)
source_errors_iff none = (λ h f e. cc, λ h. refl)
source_errors_iff (some f) =
    let one = one_iff f.source.open_claw_instance_ref f.source.backup_ref in
    (
      λ h g e. rw (some_of f g e) at (one.0 ((complain_iff _ migration_source).0 h)),
      λ h. (complain_iff _ migration_source).1 (one.1 (h f refl)),
    )

module _ {W : Type 0} {F : Type 0} where
  pub aggregate-Decides : (es : List FieldError) → Decides F (es ≡ []) (aggregate {W = W} es)
  aggregate-Decides [] = record { sound = λ s h. refl; complete = λ s f h. refl }
  aggregate-Decides (e ∷ es) = record { sound = λ s h. cc; complete = λ s f h. cc }

sources_iff :
    (i : HermesInstance)
    → (validate_restore_migration_mutual_exclusion i ++ validate_migration_source_exactly_one i
        ≡ [])
      ↔ HasOneSource i
unfolding validate_restore_migration_mutual_exclusion validate_migration_source_exactly_one
sources_iff i =
    let both = exclusive_iff i.spec.restore_from i.spec.migration.from_open_claw in
    let one = source_errors_iff i.spec.migration.from_open_claw in
    (
      λ h.
          let p = (append_iff _ _).0 h in
          record {
            exclusive = both.0 ((complain_iff _ restore_and_migration).0 p.0);
            source = one.0 p.1;
          },
      λ h.
          (append_iff _ _).1
            ((complain_iff _ restore_and_migration).1 (both.1 h.exclusive), one.1 h.source),
    )

pub sources-Decides :
    {W : Type 0} {F : Type 0} (i : HermesInstance)
    → Decides F (HasOneSource i) (
        aggregate {W = W} (
          validate_restore_migration_mutual_exclusion i ++ validate_migration_source_exactly_one i))
sources-Decides i = Decides-iff (aggregate-Decides _) (sources_iff i)

-- The two errors of `validateImmutableTerminals`, for a text that may not change once the first
-- test holds.
latch_iff :
    (a b c : String)
    → (not (is_empty a) && str_eq a b && not (str_eq b c) ≡ false) ↔ (a ≢ "" → a ≡ b → b ≡ c)
latch_iff a b c = (
  λ e n q. ground (arith, eq_iff a "", eq_iff a b, eq_iff b c),
  λ h. ground (arith, eq_iff a "", eq_iff a b, eq_iff b c, h),
)

done_iff : (d : Bool) (b c : String) → (d && not (str_eq b c) ≡ false) ↔ (d ≡ true → b ≡ c)
done_iff d b c = (λ e q. ground (arith, eq_iff b c), λ h. ground (arith, eq_iff b c, h))

pub terminals_iff :
    (marshal : MigrationSpec → String) (old updated : HermesInstance)
    → (validate_immutable_terminals marshal old updated ≡ []) ↔ KeepsLatches marshal old updated
unfolding validate_immutable_terminals equal_migration
terminals_iff marshal old updated =
    let restore =
      latch_iff old.status.restored_from old.spec.restore_from updated.spec.restore_from in
    let migrate =
      done_iff old.status.migration.completed (marshal old.spec.migration)
        (marshal updated.spec.migration) in
    (
      λ h.
          let p = (append_iff _ _).0 h in
          record {
            restored = restore.0 ((complain_iff _ restore_from_changed).0 p.0);
            migrated = migrate.0 ((complain_iff _ migration_changed).0 p.1);
          },
      λ h. (append_iff _ _).1 (
        (complain_iff _ restore_from_changed).1 (restore.1 h.restored),
        (complain_iff _ migration_changed).1 (migrate.1 h.migrated),
      ),
    )

-- All rules of an update on restore and migration.
pub update_sources-Decides :
    {W : Type 0} {F : Type 0} (marshal : MigrationSpec → String) (old updated : HermesInstance)
    → Decides F (KeepsLatches marshal old updated × HasOneSource updated) (
        aggregate {W = W} (
          validate_immutable_terminals marshal old updated
          ++ (validate_restore_migration_mutual_exclusion updated
              ++ validate_migration_source_exactly_one updated)))
update_sources-Decides marshal old updated =
    let latch = terminals_iff marshal old updated in
    let one = sources_iff updated in
    Decides-iff (aggregate-Decides _) (
      λ h. let p = (append_iff _ _).0 h in (latch.0 p.0, one.0 p.1),
      λ h. (append_iff _ _).1 (latch.1 h.0, one.1 h.1),
    )

module _ {W : Type 0} {F : Type 0} where
  answer-Decides :
      (client : SecretClient W) (name namespace : String) (r : Result Secret)
      → Decides F (Unit {0}) (credentials_answer client name namespace r)
  unfolding credentials_answer
  answer-Decides client name namespace (ok secret) = Decides-pass
  answer-Decides client name namespace (err e) = Decides-warn _

  credentials-Decides :
      (client : SecretClient W) (name : String) (i : HermesInstance)
      → Decides F (Unit {0}) (check_credentials client name i)
  unfolding check_credentials
  credentials-Decides none name i = record { sound = λ s h. tt; complete = λ s f u. refl }
  credentials-Decides (some get) name i =
      let d = λ (s : Admission W).
        answer-Decides (some get) name i.meta.namespace (get i.meta.namespace name s.world).0 in
      record {
        sound = λ s h. tt;
        complete = λ s f u.
            (d s).complete (record s { world = (get i.meta.namespace name s.world).1 }) f tt;
      }

  -- The cross checks never deny.
  pub cross_check_secrets-Decides :
      (client : SecretClient W) (i : HermesInstance)
      → Decides F (Unit {0}) (cross_check_secrets client i)
  unfolding cross_check_secrets
  cross_check_secrets-Decides client i =
      Decides-iff
        (Decides-then
          (Decides-note
            (is_some i.spec.backup.s3 && not (is_empty (credentials_of client i.spec.backup.s3)))
            (credentials-Decides client (credentials_of client i.spec.backup.s3) i))
          (Decides-note (i.spec.auto_update.enabled && str_eq i.spec.image.tag "latest")
            (Decides-warn latest_tag)))
        (λ h. tt, λ u. (tt, tt))
