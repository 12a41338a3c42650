-- ===== src/Instance/Reconcile.antt =====
-- internal/controller/hermesinstance_controller.go: `Reconcile` of the main reconciler.
use hermes_operator.Common.{ℕ, String, Bool, not, ◌&&◌, List, [], ◌∷◌, is_some, if◌then◌else◌}
use hermes_operator.Common.Flow.{M, ◌>>=◌, ◌>>◌, exit, finish, return_if, when, run, sub, go}
use hermes_operator.Api.Status.{condition_true, condition_false}
use hermes_operator.Api.Instance.{HermesInstance, finalizer_semaphore_cleanup}
use hermes_operator.Kube.Result.{ok, err, Err, wrap, is_not_found}
use hermes_operator.Controller.{St, check, write, attempt, change, instance_now, set_finalizers}
use hermes_operator.Resources.Names.{semaphore_cleanup_on_delete}
use hermes_operator.Backup.Finalizer.{ensure_finalizer}
use hermes_operator.Backup.CronJob.{reconcile_cron_job}
use hermes_operator.Backup.Deletion.{Held, handle_deletion}
use hermes_operator.Latches.Migration
use hermes_operator.Latches.Restore
use hermes_operator.AutoUpdate.Poll
use hermes_operator.Semaphore.Cleanup.{Cleaned, cleaned, panicked, semaphore_cleanup}
use hermes_operator.Semaphore.Provision.{reconcile_semaphore}
use hermes_operator.Instance.{HermesInstanceReconciler, Done, Step}
use hermes_operator.Instance.Steps.{
  reconcile_secret, reconcile_pvc, reconcile_config_map, reconcile_workspace_config_map,
  reconcile_network_policy, reconcile_rbac, reconcile_service, reconcile_stateful_set,
}
use hermes_operator.Instance.Optional.{
  reconcile_pdb, reconcile_hpa, reconcile_ingress, reconcile_http_route, reconcile_service_monitor,
  reconcile_prometheus_rule, reconcile_grafana_dashboards, reconcile_honcho, reconcile_tailscale,
}
use hermes_operator.Instance.Status.{set_condition, update_profile_store_condition, update_status}

-- `(ctrl.Result, error)`, with the requeue in seconds and 0 for none; or a panic.
pub data Outcome : Type 0 where
  requeue : ℕ → Outcome
  failed : Err → Outcome
  panic : Outcome

-- A step with its name and the type of its condition.
pub record Subsystem (W : Type 0) : Type 0 where
  pub name : String
  pub cond : String
  pub step : St W → Done × St W

-- A step that leaves the instance in memory alone.
abbrev pub over_world : {W : Type 0} → Step W → St W → Done × St W
over_world f s = let (d, w) = f s.inst s.world in (d, record s { world = w })

abbrev pub subsystem : {W : Type 0} → String → String → Step W → Subsystem W
subsystem name cond f = record { name = name; cond = cond; step = over_world f }

module _ {V C W S I : Type 0} (r : HermesInstanceReconciler V C W S I) where
  open r use {updater}
  open updater use {library, client}

  abbrev pub steps : List (Subsystem W)
  steps =
      subsystem "Secret" "SecretsReady" (reconcile_secret r)
      ∷ subsystem "PVC" "StorageReady" (reconcile_pvc r)
      ∷ subsystem "ConfigMap" "ConfigReady" (reconcile_config_map r)
      ∷ subsystem "WorkspaceConfigMap" "ConfigReady" (reconcile_workspace_config_map r)
      ∷ subsystem "NetworkPolicy" "NetworkPolicyReady" (reconcile_network_policy r)
      ∷ subsystem "RBAC" "RBACReady" (reconcile_rbac r)
      ∷ subsystem "Service" "ServiceReady" (reconcile_service r)
      ∷ subsystem "PDB" "PDBReady" (reconcile_pdb r)
      ∷ subsystem "HPA" "HPAReady" (reconcile_hpa r)
      ∷ subsystem "Ingress" "IngressReady" (reconcile_ingress r)
      ∷ subsystem "HTTPRoute" "HTTPRouteReady" (reconcile_http_route r)
      ∷ subsystem "ServiceMonitor" "ServiceMonitorReady" (reconcile_service_monitor r)
      ∷ subsystem "PrometheusRule" "PrometheusRuleReady" (reconcile_prometheus_rule r)
      ∷ subsystem "GrafanaDashboard" "GrafanaDashboardReady" (reconcile_grafana_dashboards r)
      ∷ subsystem "StatefulSet" "StatefulSetReady" (reconcile_stateful_set r)
      ∷ subsystem "Honcho" "ProfileStoreReady" (reconcile_honcho r)
      ∷ subsystem "Tailscale" "TailscaleReady" (reconcile_tailscale r)
      ∷ record {
        name = "Semaphore";
        cond = "SemaphoreReady";
        step = reconcile_semaphore r.cluster client r.http r.builders.no_spec;
      }
      ∷ []

  -- What the loop does with the answer of a step.
  unfoldable pub after_step : Subsystem W → Done → M (St W) Outcome (Unit {0})
  after_step s (ok u) = change (set_condition library s.cond condition_true "Reconciled")
  after_step s (err e) = do
    change (set_condition library s.cond condition_false "Error")
    attempt client.update_status
    exit (failed (wrap s.name e))

  -- The loop over the steps.
  unfoldable pub run_steps : List (Subsystem W) → M (St W) Outcome (Unit {0})
  unfolding after_step
  run_steps [] = go tt
  run_steps (s ∷ ss) = do answer ← sub s.step; after_step s answer; run_steps ss

  -- A sub-controller that is not nil; its answer is only logged.
  abbrev chained : {A : Type 0} → Bool → (St W → A × St W) → M (St W) Outcome (Unit {0})
  chained is_set f = when is_set (do answer ← sub f; go tt)

  unfoldable pub run_chain : M (St W) Outcome (Unit {0})
  run_chain = do
    chained r.backup_set (reconcile_cron_job library client)
    chained r.migration_set (Migration.reconcile client library)
    chained r.restore_set (Restore.reconcile client library)
    chained r.auto_update_set (Poll.reconcile updater)

  -- `held` decides whether the deletion goes on, unless there is an error.
  abbrev pub after_backup : Held → M (St W) Outcome (Unit {0})
  after_backup h = do after ← check h.result failed; return_if h.held (requeue after)

  abbrev pub wants_cleanup : HermesInstance → Bool
  wants_cleanup i =
      semaphore_cleanup_on_delete i
      && library.contains_finalizer i.meta.finalizers finalizer_semaphore_cleanup

  abbrev pub after_cleanup : Cleaned → M (St W) Outcome Outcome
  after_cleanup panicked = finish panic
  after_cleanup (cleaned (err e)) = finish (requeue 30)
  after_cleanup (cleaned (ok u)) = do
    i ← instance_now
    change (set_finalizers λ fs. library.remove_finalizer fs finalizer_semaphore_cleanup)
    write (client.patch_instance i) (λ e. failed (wrap "patch semaphore finalizer remove" e))
    finish (requeue 0)

  -- The deletion path.
  unfoldable pub delete_instance : M (St W) Outcome Outcome
  delete_instance = do
    when r.backup_set (do held ← sub (handle_deletion library client); after_backup held)
    i ← instance_now
    return_if (not (wants_cleanup i)) (requeue 0)
    answer ← sub (semaphore_cleanup r.cluster r.http)
    after_cleanup answer

  unfoldable pub ensure_finalizers : M (St W) Outcome (Unit {0})
  ensure_finalizers = do
    when r.backup_set (do added ← sub (ensure_finalizer library client); check added failed)
    i ← instance_now
    when
        (semaphore_cleanup_on_delete i
          && not (library.contains_finalizer i.meta.finalizers finalizer_semaphore_cleanup))
        (do
          change (set_finalizers λ fs. library.add_finalizer fs finalizer_semaphore_cleanup)
          write (client.patch_instance i) (λ e. failed (wrap "patch semaphore finalizer add" e)))

  unfoldable pub update_instance : M (St W) Outcome Outcome
  unfolding ensure_finalizers run_steps run_chain
  update_instance = do
    ensure_finalizers
    run_steps steps
    run_chain
    update_profile_store_condition r
    written ← sub (update_status r)
    finish (requeue 300)

  -- The instance has been read.
  unfoldable pub reconcile_found : St W → Outcome × St W
  unfolding delete_instance update_instance
  reconcile_found = run do
    i ← instance_now
    if is_some i.meta.deletion_timestamp then delete_instance else update_instance

  abbrev pub not_found_outcome : Err → Outcome
  not_found_outcome e = if is_not_found e then requeue 0 else failed e

  -- `Reconcile` of a request; without an instance there is no state to leave.
  unfoldable pub reconcile : String → String → W → Outcome × W
  unfolding reconcile_found
  reconcile namespace name w =
      let (found, w') = r.get_instance namespace name w in
      elim found [
        | err e ↦ (not_found_outcome e, w')
        | ok i ↦
            let (out, s) = reconcile_found (record { inst = i; world = w'; events = [] }) in
            (out, s.world)
      ]
