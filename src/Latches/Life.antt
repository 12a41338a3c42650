-- ===== src/Latches/Life.antt =====
-- The life of an instance: the updates that the webhook of
-- internal/webhook/webhook_hermesinstance_validate.go admits, between turns of the sub-controllers
-- of internal/controller/restore.go and migration.go.
use hermes_operator.Common.{String, true, none, ◌≡◌, ◌≢◌, refl, sym, ap, ◌∙◌, inl, inr, arith}
use hermes_operator.Kube.Client.{Client, IsApiServer}
use hermes_operator.Kube.Library.{Library}
use hermes_operator.Api.Features.{MigrationSpec}
use hermes_operator.Api.Instance.{HermesInstance}
use hermes_operator.Controller.{St}
use hermes_operator.Webhook.{Admission, SecretClient, denial_of}
use hermes_operator.Webhook.Validate.{validate_update}
use hermes_operator.Webhook.Validate.Accepts.{validate_update-Continues}
use hermes_operator.Latches.{KeepsSpec, view}
use hermes_operator.Latches.Restore
use hermes_operator.Latches.Migration
use hermes_operator.Latches.Restore.Outcome.{reconcile-Restores}
use hermes_operator.Latches.Migration.Outcome.{reconcile-Completes}

module _ {W V : Type 0} (c : Client W) (l : Library) (secrets : SecretClient V)
    (marshal : MigrationSpec → String) where
  -- One change of an instance. The API server keeps the status on an update of the spec.
  pub data Step (old : HermesInstance) (new : HermesInstance) : Type 0 where
    update :
        (s : Admission V)
        → denial_of (validate_update secrets marshal old new s) ≡ none
        → new.status ≡ old.status
        → Step old new
    restore : (s : St W) → s.inst ≡ old → new ≡ (Restore.reconcile c l s).1.inst → Step old new
    migrate : (s : St W) → s.inst ≡ old → new ≡ (Migration.reconcile c l s).1.inst → Step old new
    -- A write of anything else.
    other : view new ≡ view old → Step old new

  pub data Life (first : HermesInstance) : HermesInstance → Type 0 where
    born : Life first first
    later : {old new : HermesInstance} → Life first old → Step old new → Life first new

  abbrev pub IsRestored : HermesInstance → Type 0
  IsRestored i = (i.status.restored_from ≢ "") × (i.status.restored_from ≡ i.spec.restore_from)

  abbrev pub SameRestore : HermesInstance → HermesInstance → Type 0
  SameRestore a b =
      (b.spec.restore_from ≡ a.spec.restore_from)
      × (b.status.restored_from ≡ a.status.restored_from)

  abbrev pub SameMigration : HermesInstance → HermesInstance → Type 0
  SameMigration a b =
      (marshal b.spec.migration ≡ marshal a.spec.migration)
      × (b.status.migration.completed ≡ a.status.migration.completed)

  -- Equal views have the same latches.
  same_view_restore : (a b : HermesInstance) → view b ≡ view a → SameRestore a b
  same_view_restore a b e = (ap (λ v. v.0.restore_from) e, ap (λ v. v.1) e)

  same_view_migration : (a b : HermesInstance) → view b ≡ view a → SameMigration a b
  same_view_migration a b e = (ap (λ v. marshal v.0.migration) e, ap (λ v. v.2) e)

  module _ (h : IsApiServer c) (k : KeepsSpec c) where
    kept_restore : (a b : HermesInstance) → IsRestored a → Step a b → SameRestore a b
    kept_restore a b r (update s e status) =
        let (go_on, fine) = validate_update-Continues secrets s marshal a b e in
        (sym (go_on.latches.restored r.0 r.1), ap (λ t. t.restored_from) status)
    kept_restore a b r (restore s e q) = elim (reconcile-Restores c l h k s) [
      | inl same ↦ same_view_restore a b (ap view q ∙ (same ∙ ap view e))
      | inr (fresh, ended, set) ↦ absurd (
          fresh
            (ap (λ i. i.status.restored_from) e ∙ (r.1 ∙ sym (ap (λ i. i.spec.restore_from) e))))
    ]
    kept_restore a b r (migrate s e q) = elim (reconcile-Completes c l h k s) [
      | inl same ↦ same_view_restore a b (ap view q ∙ (same ∙ ap view e))
      | inr (fresh, ended, set) ↦ (
        ap (λ v. v.0.restore_from) (ap view q ∙ set) ∙ ap (λ i. i.spec.restore_from) e,
        ap (λ v. v.1) (ap view q ∙ set) ∙ ap (λ i. i.status.restored_from) e,
      )
    ]
    kept_restore a b r (other e) = same_view_restore a b e

    kept_migration :
        (a b : HermesInstance) → a.status.migration.completed ≡ true → Step a b → SameMigration a b
    kept_migration a b r (update s e status) =
        let (go_on, fine) = validate_update-Continues secrets s marshal a b e in
        (sym (go_on.latches.migrated r), ap (λ t. t.migration.completed) status)
    kept_migration a b r (restore s e q) = elim (reconcile-Restores c l h k s) [
      | inl same ↦ same_view_migration a b (ap view q ∙ (same ∙ ap view e))
      | inr (fresh, ended, set) ↦ (
        ap (λ v. marshal v.0.migration) (ap view q ∙ set) ∙ ap (λ i. marshal i.spec.migration) e,
        ap (λ v. v.2) (ap view q ∙ set) ∙ ap (λ i. i.status.migration.completed) e,
      )
    ]
    kept_migration a b r (migrate s e q) = elim (reconcile-Completes c l h k s) [
      | inl same ↦ same_view_migration a b (ap view q ∙ (same ∙ ap view e))
      | inr (fresh, ended, set) ↦
          let done : s.inst.status.migration.completed ≡ true =
            ap (λ i. i.status.migration.completed) e ∙ r in
          absurd (ground (arith, done, fresh))
    ]
    kept_migration a b r (other e) = same_view_migration a b e

    -- With an API server that stores the status that it is given and answers with the spec: once an
    -- instance has been restored from the source of its spec, it names that source, and its status
    -- keeps it, in every state that is reached by updates that the webhook admits and that leave
    -- the status alone, by turns of the two sub-controllers, and by writes that keep the spec and
    -- both latches.
    pub restore_latched :
        (first last : HermesInstance) → IsRestored first → Life first last → SameRestore first last
    restore_latched first _ r born = (refl, refl)
    restore_latched first last r (later {old} life step) =
        let (spec, status) = restore_latched first old r life in
        let still : IsRestored old = ((λ e. r.0 (sym status ∙ e)), status ∙ (r.1 ∙ sym spec)) in
        let (spec', status') = kept_restore old last still step in (spec' ∙ spec, status' ∙ status)

    -- With an API server that stores the status that it is given and answers with the spec: once
    -- the migration of an instance is completed, it stays completed, and its spec, as JSON, stays
    -- as it is, in every state that is reached by updates that the webhook admits and that leave
    -- the status alone, by turns of the two sub-controllers, and by writes that keep the spec and
    -- both latches.
    pub migration_latched :
        (first last : HermesInstance)
        → first.status.migration.completed ≡ true
        → Life first last
        → SameMigration first last
    migration_latched first _ r born = (refl, refl)
    migration_latched first last r (later {old} life step) =
        let (spec, status) = migration_latched first old r life in
        let (spec', status') = kept_migration old last (status ∙ r) step in
        (spec' ∙ spec, status' ∙ status)
