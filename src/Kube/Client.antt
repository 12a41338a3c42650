-- ===== src/Kube/Client.antt =====
-- The API server, the clock and the image registry, as an interface over a world that every call
-- may change: a call's answer and the world after it are not in the repository. `Patch` and
-- `Status().Update` write the server's answer over the object that they are given.
use hermes_operator.Common.{ℕ, String, List, ◌≡◌}
use hermes_operator.Api.Instance.{HermesInstance}
use hermes_operator.Kube.Result.{Result, ok, err}
use hermes_operator.Kube.Objects.{StatefulSet, Pod, JobStatus, Event}

pub record BackupJobOpts : Type 0 where
  pub name : String
  pub snapshot_key : String
  pub kind : String

pub record Client (W : Type 0) : Type 0 where
  pub now : W → ℕ × W
  -- `Format` with the layout of the snapshot keys.
  pub format_stamp : ℕ → String
  pub get_stateful_set : String → String → W → Result StatefulSet × W
  -- The object before and after the change of which the patch is made.
  pub patch_stateful_set : StatefulSet → StatefulSet → W → Result StatefulSet × W
  pub patch_instance : HermesInstance → HermesInstance → W → Result HermesInstance × W
  pub update_status : HermesInstance → W → Result HermesInstance × W
  pub list_events : String → W → Result (List Event) × W
  pub get_pod : String → String → W → Result Pod × W
  pub get_job : String → String → W → Result JobStatus × W
  -- The Job built from the instance and the options, owned by the instance.
  pub create_job : HermesInstance → BackupJobOpts → W → Result (Unit {0}) × W
  pub set_controller_reference : HermesInstance → String → W → Result (Unit {0}) × W
  pub get_cron_job : String → String → W → Result (Unit {0}) × W
  pub delete_cron_job : String → String → W → Result (Unit {0}) × W
  -- `controllerutil.CreateOrUpdate` of the CronJob of that name, built from the instance.
  pub apply_cron_job : HermesInstance → String → W → Result (Unit {0}) × W
  pub list_tags : String → W → Result (List String) × W

-- The object in memory after a call that writes the answer over it.
abbrev pub answer_or : {A : Type 0} → Result A → A → A
answer_or (ok a) d = a
answer_or (err e) d = d

-- What the API server documents of its answers: a status update stores the status that it is
-- given and answers with it, and a patch of the metadata is found in the answer.
pub record IsApiServer {W : Type 0} (c : Client W) : Type 0 where
  pub status-update_status :
      (i : HermesInstance) (w : W) → (answer_or (c.update_status i w).0 i).status ≡ i.status
  pub finalizers-patch_instance :
      (o i : HermesInstance) (w : W)
      → (answer_or (c.patch_instance o i w).0 i).meta.finalizers ≡ i.meta.finalizers
