-- ===== src/Instance/Ordered.antt =====
-- internal/controller/hermesinstance_controller.go: the order of the steps, and what a failed one
-- stops.
use hermes_operator.Common.{
  ℕ, Bool, true, false, ◌≡◌, refl, arith, Option, some, none, List, [], ◌∷◌, if◌then◌else◌, is_some,
}
use hermes_operator.Common.Flow.{M, Flow, go, stop, run, sub, finish, ◌>>=◌, ◌>>◌}
use hermes_operator.Api.Status.{condition_true, condition_false}
use hermes_operator.Kube.Result.{Result, ok, err, Err, wrap}
use hermes_operator.Kube.Client.{answer_or}
use hermes_operator.Controller.{St}
use hermes_operator.Instance.{HermesInstanceReconciler}
use hermes_operator.Instance.Status.{set_condition, update_profile_store_condition, update_status}
use hermes_operator.Instance.Reconcile.{
  Outcome, requeue, failed, panic, Subsystem, run_steps, after_step, steps, delete_instance,
  update_instance, reconcile_found, ensure_finalizers, run_chain,
}

abbrev is_failed : Outcome → Bool
is_failed (requeue n) = false
is_failed (failed e) = true
is_failed panic = false

module _ {V C W S I : Type 0} (r : HermesInstanceReconciler V C W S I) where
  open r use {updater}
  open updater use {library, client}

  -- The state after a step that has succeeded: its condition is true.
  abbrev ready_state : Subsystem W → St W → St W
  ready_state x s = record s {
    inst = set_condition library x.cond condition_true "Reconciled" s.inst;
  }

  -- The state after a step that has failed: its condition is false, and the status is sent to the
  -- server, whose answer is taken if there is one.
  abbrev failed_state : Subsystem W → St W → St W
  failed_state x s =
      let i = set_condition library x.cond condition_false "Error" s.inst in
      let (answer, w) = client.update_status i s.world in
      record s { inst = answer_or answer i; world = w }

  -- The runs of the steps: from a state, through steps that succeed, to the end or to a failure.
  pub data Runs : List (Subsystem W) → St W → Flow (St W) Outcome (Unit {0}) → Type 0 where
    finished :
        {xs : List (Subsystem W)} {s : St W} {f : Flow (St W) Outcome (Unit {0})}
        → xs ≡ []
        → f ≡ go tt s
        → Runs xs s f
    succeeded :
        {xs : List (Subsystem W)} {s : St W} {f : Flow (St W) Outcome (Unit {0})} (x : Subsystem W)
        (rest : List (Subsystem W))
        → xs ≡ x ∷ rest
        → (x.step s).0 ≡ ok tt
        → Runs rest (ready_state x (x.step s).1) f
        → Runs xs s f
    broken :
        {xs : List (Subsystem W)} {s : St W} {f : Flow (St W) Outcome (Unit {0})} (x : Subsystem W)
        (rest : List (Subsystem W)) (e : Err)
        → xs ≡ x ∷ rest
        → (x.step s).0 ≡ err e
        → f ≡ stop (failed (wrap x.name e)) (failed_state x (x.step s).1)
        → Runs xs s f

  -- The loop after the answer of its first step.
  after_step-Runs :
      (x : Subsystem W) (xs : List (Subsystem W)) (s : St W) (d : Result (Unit {0}))
      → (x.step s).0 ≡ d
      → Runs xs (ready_state x (x.step s).1) (run_steps r xs (ready_state x (x.step s).1))
      → Runs (x ∷ xs) s ((after_step r x d >> run_steps r xs) (x.step s).1)
  unfolding after_step
  after_step-Runs x xs s (ok u) e rest = succeeded x xs refl e rest
  after_step-Runs x xs s (err y) e rest = broken x xs y refl e refl

  pub run_steps-Runs : (xs : List (Subsystem W)) (s : St W) → Runs xs s (run_steps r xs s)
  unfolding run_steps
  run_steps-Runs [] s = finished refl refl
  run_steps-Runs (x ∷ xs) s =
      after_step-Runs x xs s (x.step s).0 refl (run_steps-Runs xs (ready_state x (x.step s).1))

  abbrev tail : M (St W) Outcome Outcome
  tail = do
    run_chain r
    update_profile_store_condition r
    written ← sub (update_status r)
    finish (requeue 300)

  -- What follows the steps cannot stop the turn.
  tail-requeue : (s : St W) → (run tail s).0 ≡ requeue 300
  unfolding run_chain update_profile_store_condition
  tail-requeue s = ground arith

  -- A finalizer that could not be added is an error.
  ensure_finalizers_failed :
      (s t : St W) (o : Outcome) → ensure_finalizers r s ≡ stop o t → is_failed o ≡ true
  unfolding ensure_finalizers
  ensure_finalizers_failed s t o e = ground arith

  -- The ways of a turn that does not delete the instance.
  pub data Updates (s : St W) : Outcome × St W → Type 0 where
    -- A finalizer could not be added: no step has been tried.
    unguarded :
        {out : Outcome × St W}
        → ensure_finalizers r s ≡ stop out.0 out.1
        → is_failed out.0 ≡ true
        → Updates s out
    -- The steps have stopped the turn.
    halted :
        {out : Outcome × St W} (t : St W)
        → ensure_finalizers r s ≡ go tt t
        → Runs (steps r) t (stop out.0 out.1)
        → Updates s out
    -- All steps have succeeded: the turn is repeated after five minutes.
    updated :
        {out : Outcome × St W} (t u : St W)
        → ensure_finalizers r s ≡ go tt t
        → Runs (steps r) t (go tt u)
        → out.0 ≡ requeue 300
        → Updates s out

  after_steps :
      (s t : St W) (f : Flow (St W) Outcome (Unit {0}))
      → ensure_finalizers r s ≡ go tt t
      → Runs (steps r) t f
      → Updates s (run ((λ z. f) >> tail) t)
  after_steps s t (stop o u) e ran = halted t e ran
  after_steps s t (go a u) e ran = updated t u e ran (tail-requeue u)

  after_finalizers :
      (s : St W) (f : Flow (St W) Outcome (Unit {0}))
      → ensure_finalizers r s ≡ f
      → Updates s (run ((λ z. f) >> (run_steps r (steps r) >> tail)) s)
  after_finalizers s (stop o t) e = unguarded e (ensure_finalizers_failed s t o e)
  after_finalizers s (go a t) e =
      after_steps s t (run_steps r (steps r) t) e (run_steps-Runs (steps r) t)

  found-Updates :
      (s : St W) (dt : Option ℕ)
      → dt ≡ none
      → Updates s (run (if is_some dt then delete_instance r else update_instance r) s)
  unfolding update_instance
  found-Updates s none e = after_finalizers s (ensure_finalizers r s) refl
  found-Updates s (some n) e = ground arith

  -- A turn on an instance that is not being deleted ends in one of three ways. Either a finalizer
  -- could not be added, and the turn fails before any step. Or the steps have run in their order up
  -- to the first that failed, and the turn returns that step's error, with the step's condition false
  -- and the conditions of the steps before it set to true in turn. Or all steps have succeeded, and
  -- the turn asks for another one in 300 seconds, whatever the sub-controllers and the status update
  -- answer.
  pub reconcile_found-Updates :
      (s : St W) → s.inst.meta.deletion_timestamp ≡ none → Updates s (reconcile_found r s)
  unfolding reconcile_found
  reconcile_found-Updates s e = found-Updates s s.inst.meta.deletion_timestamp e
