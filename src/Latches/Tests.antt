-- ===== src/Latches/Tests.antt =====
-- An instance that restores itself from a snapshot, and migrates.
use hermes_operator.Common.{none, some, ◌≡◌, ℕ, String, true, false, [], ◌∷◌, refl}
use hermes_operator.Kube.Result.{ok, err, not_found}
use hermes_operator.Kube.Objects.{Pod, InitContainerStatus}
use hermes_operator.Kube.Client.{Client, IsApiServer}
use hermes_operator.Api.Instance.{HermesInstance}
use hermes_operator.Api.Features.{MigrationSpec}
use hermes_operator.Controller.{St}
use hermes_operator.Latches.{finished, view, KeepsSpec}
use hermes_operator.Latches.Restore
use hermes_operator.Latches.Migration
use hermes_operator.Latches.Restore.Outcome as Restored
use hermes_operator.Latches.Migration.Outcome as Migrated
use hermes_operator.Latches.Life.{
  Life, born, later, restore, update, SameRestore, SameMigration, restore_latched,
  migration_latched,
}
use hermes_operator.Webhook.Validate.Accepts.{validate_update_total}
use hermes_operator.Fixtures.Instances.{empty_status}
use hermes_operator.Fixtures.Admissible.{
  variant, restored_instance, variant-IsAdmissible, latched_status, no_secrets, admission,
}
use hermes_operator.Fixtures.Conditions.{library}
use hermes_operator.Fixtures.Server.{server, sts_at}

abbrev exited : String → String → InitContainerStatus
exited name message = record {
  name = name;
  terminated = some (record { exit_code = 0; message = message });
}

abbrev ended_pod : Pod
ended_pod = record {
  init_container_statuses =
      exited "init-restore" "" ∷ exited "init-migrate-from-openclaw" "1.2" ∷ [];
}

abbrev api : Client ℕ
api = record (server (err not_found) (sts_at "hermes:1" 1) [] []) {
  get_pod = λ n ns w. (ok ended_pod, w);
}

api-IsApiServer : IsApiServer api
api-IsApiServer = record {
  status-update_status = λ i w. refl;
  finalizers-patch_instance = λ o i w. refl;
}

api-KeepsSpec : KeepsSpec api
api-KeepsSpec = record { spec-update_status = λ i w. refl }

abbrev at : HermesInstance → St ℕ
at i = record { inst = i; world = 0; events = [] }

abbrev marshal : MigrationSpec → String
marshal m = "null"

abbrev restoring : HermesInstance
restoring = variant empty_status "snap" false

abbrev resumed : HermesInstance
resumed = variant latched_status "snap" true

-- An instance that migrates from another one.
abbrev migrating : HermesInstance
migrating = record (variant empty_status "" false) {
  spec = record (variant empty_status "" false).spec {
    migration = record {
      from_open_claw = some (record {
        source = record {
          open_claw_instance_ref = some (record { name = "claw"; namespace = "default" });
          backup_ref = none;
        };
        mode = "move";
        image = "";
      });
    };
  };
}

reconcile-Restores_example :
    Restored.Restores api library api-IsApiServer api-KeepsSpec restoring 0
      (Restore.reconcile api library (at restoring)).1.inst
reconcile-Restores_example =
    Restored.reconcile-Restores api library api-IsApiServer api-KeepsSpec (at restoring)

abbrev restored : St ℕ
restored = (Restore.reconcile api library (at restoring)).1

reconcile_finishes_example :
    ((Restore.reconcile api library (at restoring)).0 ≡ finished)
    × (restored.inst.status.restored_from ≡ "snap")
    × (restored.inst.spec ≡ restoring.spec)
    × (restored.inst.status.migration.completed ≡ restoring.status.migration.completed)
    × ((later : St ℕ)
        → view later.inst ≡ view restored.inst
        → Restored.IsQuiet api library api-IsApiServer api-KeepsSpec later
            (Restore.reconcile api library later))
reconcile_finishes_example =
    Restored.reconcile_finishes api library api-IsApiServer api-KeepsSpec (λ i w. refl)
      (at restoring) ended_pod (record { exit_code = 0; message = "" }) []
      (exited "init-migrate-from-openclaw" "1.2" ∷ []) (λ e. cc) (λ e. cc) refl refl tt refl

reconcile-Completes_example :
    Migrated.Completes api library api-IsApiServer api-KeepsSpec migrating 0
      (Migration.reconcile api library (at migrating)).1.inst
reconcile-Completes_example =
    Migrated.reconcile-Completes api library api-IsApiServer api-KeepsSpec (at migrating)

abbrev turned : HermesInstance
turned = (Restore.reconcile api library (at resumed)).1.inst

-- An update that is admitted, and a turn of the restore.
life : Life api library no_secrets marshal restored_instance turned
life =
    let admitted =
      validate_update_total no_secrets admission marshal restored_instance resumed (λ ns n w. refl)
        (record {
          latches = record { restored = λ n e. refl; migrated = λ e. refl };
          storage_class = λ c e. e;
          name = refl;
        })
        (variant-IsAdmissible latched_status "snap" true) in
    later (later born (update admission admitted refl)) (restore (at resumed) refl refl)

restore_latched_example : SameRestore api library no_secrets marshal restored_instance turned
restore_latched_example =
    restore_latched api library no_secrets marshal api-IsApiServer api-KeepsSpec restored_instance
      turned (λ e. cc, refl) life

migration_latched_example : SameMigration api library no_secrets marshal restored_instance turned
migration_latched_example =
    migration_latched api library no_secrets marshal api-IsApiServer api-KeepsSpec restored_instance
      turned refl life
