-- ===== src/Backup/OneShot/Tests.antt =====
-- The backup before an update of one instance, whose Job is complete.
use hermes_operator.Common.{ℕ, true, ◌≡◌, refl, []}
use hermes_operator.Kube.Result.{ok}
use hermes_operator.Kube.Objects.{complete}
use hermes_operator.Kube.Client.{Client}
use hermes_operator.Controller.{St}
use hermes_operator.Controller.Names.{is_job_finished}
use hermes_operator.Backup.OneShot.{run_one_shot}
use hermes_operator.Backup.OneShot.Outcome.{HasSucceeded, run_one_shot-done}
use hermes_operator.Fixtures.Instances.{deleted_instance}
use hermes_operator.Fixtures.Server.{server, sts_at, finished}

abbrev api : Client ℕ
api = server (ok (finished complete)) (sts_at "hermes:1" 1) [] []

abbrev before_update : St ℕ
before_update = record { inst = deleted_instance; world = 5; events = [] }

is_done : (run_one_shot api before_update).0.done ≡ true
unfolding run_one_shot is_job_finished
is_done = refl

run_one_shot-done_example : HasSucceeded api (ok (finished complete))
run_one_shot-done_example = run_one_shot-done api before_update is_done
