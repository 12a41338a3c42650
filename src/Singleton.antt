-- ===== src/Singleton.antt =====
-- internal/controller/hermesclusterdefaults_controller.go: the controller of HermesClusterDefaults, of
-- which only the one named "cluster" counts.
use hermes_operator.Common.{
  ℕ, String, Bool, not, ◌&&◌, List, [], ◌∷◌, ◌≡◌, arith, str_eq, if◌then◌else◌,
}
use hermes_operator.Api.Status.{Condition, condition_true, condition_false}
use hermes_operator.Api.ClusterDefaults.{HermesClusterDefaults}
use hermes_operator.Kube.Result.{Result, ok, err, Err, wrap, is_not_found}
use hermes_operator.Kube.Objects.{Emitted, warning}
use hermes_operator.Kube.Library.{Library, IsLibrary}

-- The reconciler with the calls that it makes; `recorder_set` tells whether `Recorder` is not nil.
pub record HermesClusterDefaultsReconciler (W : Type 0) : Type 0 where
  pub library : Library
  pub recorder_set : Bool
  pub get_defaults : String → W → Result HermesClusterDefaults × W
  pub update_status : HermesClusterDefaults → W → Result HermesClusterDefaults × W

-- `(ctrl.Result, error)` with the requeue in seconds, the events recorded and the world.
pub record Turn (W : Type 0) : Type 0 where
  pub result : Result ℕ
  pub events : List Emitted
  pub world : W

abbrev pub is_singleton : HermesClusterDefaults → Bool
is_singleton hcd = str_eq hcd.name "cluster"

abbrev ready_condition : HermesClusterDefaults → Condition
ready_condition hcd = record {
  type = "Ready";
  status = if is_singleton hcd then condition_true else condition_false;
  reason = if is_singleton hcd then "Singleton" else "InvalidName";
  observed_generation = hcd.generation;
}

abbrev after_update : Result HermesClusterDefaults → Result ℕ
after_update (ok hcd) = ok 600
after_update (err e) = err (wrap "update status" e)

abbrev not_found_result : Err → Result ℕ
not_found_result e = if is_not_found e then ok 0 else err e

module _ {W : Type 0} (r : HermesClusterDefaultsReconciler W) where
  open r use {library}

  -- The object whose status is sent.
  unfoldable pub judge : HermesClusterDefaults → HermesClusterDefaults
  judge hcd = record hcd {
    status = record {
      conditions = library.set_status_condition hcd.status.conditions (ready_condition hcd);
      observed_generation = hcd.generation;
    };
  }

  abbrev invalid_events : HermesClusterDefaults → List Emitted
  invalid_events hcd =
      if not (is_singleton hcd) && r.recorder_set
      then record { type = warning; reason = "InvalidName" } ∷ []
      else []

  unfoldable pub handle_found : HermesClusterDefaults → W → Turn W
  unfolding judge
  handle_found hcd w =
      let (answer, w') = r.update_status (judge hcd) w in
      record { result = after_update answer; events = invalid_events hcd; world = w' }

  unfoldable pub reconcile : String → W → Turn W
  unfolding handle_found
  reconcile name w =
      let (found, w') = r.get_defaults name w in
      elim found [
        | err e ↦ record { result = not_found_result e; events = []; world = w' }
        | ok hcd ↦ handle_found hcd w'
      ]

  -- The status that is sent is ready exactly for the object named "cluster".
  pub judge-is_singleton :
      (h : IsLibrary library) (hcd : HermesClusterDefaults)
      → library.is_status_condition_true (judge hcd).status.conditions "Ready" ≡ is_singleton hcd
  unfolding judge
  judge-is_singleton h hcd = ground (arith, h.set_self hcd.status.conditions (ready_condition hcd))
