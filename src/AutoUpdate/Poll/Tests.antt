-- ===== src/AutoUpdate/Poll/Tests.antt =====
-- Turns of the sub-controller for one instance: a rollout that starts, one that is confirmed and
-- one that is rolled back.
use hermes_operator.Common.{
  ℕ, String, true, none, some, [], ◌∷◌, ◌≡◌, ◌≢◌, refl, sym, ◌∙◌, str_eq-ne,
}
use hermes_operator.Api.Instance.{HermesInstance}
use hermes_operator.Kube.Result.{err, not_found}
use hermes_operator.Kube.Client.{IsApiServer}
use hermes_operator.Controller.{St, annotation, annotate}
use hermes_operator.Oci.Tags.{highest_matching}
use hermes_operator.AutoUpdate.{AutoUpdateReconciler}
use hermes_operator.AutoUpdate.Interval.{parse_poll_interval}
use hermes_operator.AutoUpdate.Tags.{tags_of, running, Step, IsSoleWriter, IsCoherent}
use hermes_operator.AutoUpdate.Rollout.{start_rollout, count_events}
use hermes_operator.AutoUpdate.Drive.{rollback_enabled, drive_rollout}
use hermes_operator.AutoUpdate.Poll.{reconcile}
use hermes_operator.AutoUpdate.Poll.Steps.{reconcile-Step}
use hermes_operator.AutoUpdate.Poll.Safe.{reconcile-IsCoherent, reconcile-rolled_back}
use hermes_operator.Fixtures.Instances.{plain_instance}
use hermes_operator.Fixtures.Conditions.{library}
use hermes_operator.Fixtures.Server.{server, server-IsApiServer, sts_at}
use hermes_operator.Fixtures.Versions.{by_length}

abbrev with_replicas : ℕ → AutoUpdateReconciler String String ℕ
with_replicas ready = record {
  library = library;
  client = server (err not_found) (sts_at "hermes:1" ready) [] ("22" ∷ "1" ∷ []);
  semver = by_length;
  registry_set = true;
  backup_set = true;
  parse_duration = λ s. none;
}

api-IsApiServer : (n : ℕ) → IsApiServer (with_replicas n).client
api-IsApiServer n = server-IsApiServer (err not_found) (sts_at "hermes:1" n) [] ("22" ∷ "1" ∷ [])

api-IsSoleWriter : (n : ℕ) → IsSoleWriter (with_replicas n).client
api-IsSoleWriter n = record { tags-patch_instance = λ o i w. refl }

-- The channel admits versions of up to two characters.
abbrev idle_instance : HermesInstance
idle_instance = record plain_instance {
  spec = record plain_instance.spec {
    auto_update = record plain_instance.spec.auto_update {
      source = record { registry = ""; channel = "xx" };
    };
  };
}

-- A rollout to "22" with the deadline 300.
abbrev busy_instance : HermesInstance
busy_instance = record idle_instance {
  status = record idle_instance.status {
    auto_update = record idle_instance.status.auto_update {
      target_tag = "22";
      rollout_deadline = some 300;
    };
  };
}

abbrev idle_at : ℕ → St ℕ
idle_at t = record { inst = idle_instance; world = t; events = [] }

abbrev busy_at : ℕ → St ℕ
busy_at t = record { inst = busy_instance; world = t; events = [] }

starts : (tags_of (reconcile (with_replicas 1) (idle_at 0)).1.inst).target ≡ "22"
unfolding reconcile parse_poll_interval highest_matching start_rollout annotate
starts = refl

confirms : (tags_of (reconcile (with_replicas 1) (busy_at 10)).1.inst).current ≡ "22"
unfolding reconcile drive_rollout annotation
confirms = refl

rolls_back : (tags_of (reconcile (with_replicas 0) (busy_at 301)).1.inst).last_failed ≡ "22"
unfolding reconcile drive_rollout annotation count_events
rolls_back = refl

idle-IsCoherent : IsCoherent "1.0.0" (tags_of idle_instance)
idle-IsCoherent = (refl, λ n. absurd (n refl))

busy-IsCoherent : IsCoherent "1.0.0" (tags_of busy_instance)
busy-IsCoherent = (refl, λ n. str_eq-ne "22" "1.0.0" refl)

reconcile-Step_example :
    Step "1.0.0" true
      (tags_of busy_instance)
      (tags_of (reconcile (with_replicas 0) (busy_at 301)).1.inst)
reconcile-Step_example =
    reconcile-Step (with_replicas 0) (api-IsApiServer 0) (api-IsSoleWriter 0) (busy_at 301)

reconcile-IsCoherent_example :
    IsCoherent "1.0.0" (tags_of (reconcile (with_replicas 1) (idle_at 0)).1.inst)
reconcile-IsCoherent_example =
    reconcile-IsCoherent (with_replicas 1) (api-IsApiServer 1) (api-IsSoleWriter 1) (idle_at 0)
      idle-IsCoherent

reconcile-rolled_back_example :
    (rollback_enabled busy_instance ≡ true)
    × ((tags_of (reconcile (with_replicas 0) (busy_at 301)).1.inst).last_failed ≡ "22")
    × ((tags_of (reconcile (with_replicas 0) (busy_at 301)).1.inst).current ≡ "1.0.0")
    × (running "1.0.0" (tags_of (reconcile (with_replicas 0) (busy_at 301)).1.inst)
        ≢ (tags_of (reconcile (with_replicas 0) (busy_at 301)).1.inst).last_failed)
reconcile-rolled_back_example =
    reconcile-rolled_back (with_replicas 0) (api-IsApiServer 0) (api-IsSoleWriter 0) (busy_at 301)
      busy-IsCoherent (λ e. str_eq-ne "22" "" refl (sym rolls_back ∙ e))
