-- ===== src/Fixtures/Server.antt =====
-- An API server that accepts every write, and answers every read with what it is set up with; the
-- clock is read off its world, or is its world.
use hermes_operator.Common.{ℕ, true, String, List, [], ◌∷◌, refl}
use hermes_operator.Kube.Result.{Result, ok, not_found, err}
use hermes_operator.Kube.Objects.{StatefulSet, JobStatus, JobConditionType, Event}
use hermes_operator.Kube.Client.{Client, IsApiServer}

abbrev pub sts_at : String → ℕ → StatefulSet
sts_at image ready = record {
  name = "hermes";
  namespace = "default";
  containers = record { name = "hermes"; image = image } ∷ [];
  replicas = 1;
  ready_replicas = ready;
  updated_replicas = ready;
  current_revision = "r1";
}

abbrev pub finished : JobConditionType → JobStatus
finished t = record { conditions = record { type = t; is_true = true } ∷ [] }

abbrev pub server_over :
    {W : Type 0} → (W → ℕ) → Result JobStatus → StatefulSet → List Event → List String → Client W
server_over clock job sts events tags = record {
  now = λ w. (clock w, w);
  format_stamp = λ t. "stamp";
  get_stateful_set = λ n ns w. (ok sts, w);
  patch_stateful_set = λ o s w. (ok s, w);
  patch_instance = λ o i w. (ok i, w);
  update_status = λ i w. (ok i, w);
  list_events = λ ns w. (ok events, w);
  get_pod = λ n ns w. (err not_found, w);
  get_job = λ n ns w. (job, w);
  create_job = λ i o w. (ok tt, w);
  set_controller_reference = λ i n w. (ok tt, w);
  get_cron_job = λ n ns w. (err not_found, w);
  delete_cron_job = λ n ns w. (ok tt, w);
  apply_cron_job = λ i n w. (ok tt, w);
  list_tags = λ r w. (ok tags, w);
}

abbrev pub server : Result JobStatus → StatefulSet → List Event → List String → Client ℕ
server = server_over (λ w. w)

pub server-IsApiServer :
    (job : Result JobStatus) (sts : StatefulSet) (events : List Event) (tags : List String)
    → IsApiServer (server job sts events tags)
server-IsApiServer job sts events tags = record {
  status-update_status = λ i w. refl;
  finalizers-patch_instance = λ o i w. refl;
}
