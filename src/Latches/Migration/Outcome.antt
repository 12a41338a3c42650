-- ===== src/Latches/Migration/Outcome.antt =====
-- What a turn of the migration sub-controller leaves of the latch.
use hermes_operator.Common.{
  String, [], ◌∷◌, ◌++◌, Bool, true, false, not, is_some, ◌≡◌, refl, ◌⊎◌, inl, inr, arith,
}
use hermes_operator.Common.Flow.{run}
use hermes_operator.Kube.Result.{Result, ok, err, is_ok}
use hermes_operator.Kube.Objects.{Pod, normal}
use hermes_operator.Kube.Client.{Client, IsApiServer}
use hermes_operator.Kube.Library.{Library}
use hermes_operator.Api.Status.{condition_migration_completed}
use hermes_operator.Api.Instance.{HermesInstance}
use hermes_operator.Controller.{St}
use hermes_operator.Controller.Names.{pod_name}
use hermes_operator.Controller.Rules.{check_rule, when_rule, return_if_rule, Leaves}
use hermes_operator.Latches.{
  Progress, finished, broken, Verdict, succeeded, failed, running, pod_verdict, not_found_or,
  KeepsSpec, View, view, HasEnded, verdict-HasEnded, view_rule,
}
use hermes_operator.Latches.Migration.{
  set_completed, completed_condition, failed_condition, advises, advise, on_verdict, watch_pod,
  latched, watch_or_latched, reconcile,
}

module _ {W : Type 0} (c : Client W) (l : Library) (h : IsApiServer c) (k : KeepsSpec c) where
  -- The instance with its migration completed, as the latches see it.
  abbrev pub completed_view : HermesInstance → View
  completed_view i = (i.spec, i.status.restored_from, true)

  -- The latch as it was, or set because the container has ended.
  abbrev pub Completes : HermesInstance → W → HermesInstance → Type 0
  Completes i w out =
      (view out ≡ view i)
      ⊎ ((i.status.migration.completed ≡ false)
          × HasEnded c "init-migrate-from-openclaw" i w
          × (view out ≡ completed_view i))

  advise-view : (v : View) (s : St W) → view s.inst ≡ v → view (run (advise c l) s).1.inst ≡ v
  unfolding advise
  advise-view v s e =
      when_rule (λ out. view out.1.inst ≡ v) (advises s.inst.spec.migration.from_open_claw) _ _ s
        (λ q. e) (λ q. e)

  module _ (s : St W) where
    abbrev After : Verdict → HermesInstance → Type 0
    After (succeeded message) out = view out ≡ completed_view s.inst
    After (failed message) out = view out ≡ view s.inst
    After running out = view out ≡ view s.inst

    verdict-After :
        (w : W) (v : Verdict) → Leaves (After v) (run (on_verdict c l v) (record s { world = w }))
    unfolding on_verdict
    verdict-After w (succeeded message) =
        let (now, w') = c.now w in
        view_rule c h k (completed_view s.inst) (broken false) _
          (record s {
            inst = completed_condition c l (set_completed now message s.inst);
            world = w';
          })
          refl λ i w'' e. advise-view (completed_view s.inst) _ e
    verdict-After w (failed message) =
        view_rule c h k (view s.inst) (broken false) _
          (record s { inst = failed_condition c l s.inst; world = w; events = _ }) refl λ i w' e. e
    verdict-After w running = refl

    verdict-Completes :
        (pod : Pod) (v : Verdict) (out : HermesInstance)
        → s.inst.status.migration.completed ≡ false
        → (c.get_pod (pod_name s.inst) s.inst.meta.namespace s.world).0 ≡ ok pod
        → pod_verdict "init-migrate-from-openclaw" pod ≡ v
        → After v out
        → Completes s.inst s.world out
    verdict-Completes pod (succeeded message) out n e q a =
        inr (n, verdict-HasEnded c "init-migrate-from-openclaw" message s.inst s.world pod e q, a)
    verdict-Completes pod (failed message) out n e q a = inl a
    verdict-Completes pod running out n e q a = inl a

    watch-Completes :
        s.inst.status.migration.completed ≡ false
        → Leaves (Completes s.inst s.world) (run (watch_pod c l) s)
    unfolding watch_pod
    watch-Completes n =
        let (found, w) = c.get_pod (pod_name s.inst) s.inst.meta.namespace s.world in
        check_rule (Leaves (Completes s.inst s.world)) found not_found_or _ (record s { world = w })
          (λ e q. inl refl)
          λ pod q.
            verdict-Completes pod (pod_verdict "init-migrate-from-openclaw" pod) _ n q refl
              (verdict-After w (pod_verdict "init-migrate-from-openclaw" pod))

    -- A standing latch is kept, and the API server is not asked for anything.
    abbrev pub IsQuiet : Progress × St W → Type 0
    IsQuiet out = (out.0 ≡ finished) × (view out.1.inst ≡ view s.inst) × (out.1.world ≡ s.world)

    latched-IsQuiet : IsQuiet (run (latched c l) s)
    unfolding latched
    latched-IsQuiet =
        when_rule IsQuiet
          (not (l.is_status_condition_true s.inst.status.conditions condition_migration_completed))
          _ _ s (λ e. (refl, refl, refl)) (λ e. (refl, refl, refl))

    chosen-Completes :
        (b : Bool)
        → s.inst.status.migration.completed ≡ b
        → Leaves (Completes s.inst s.world) (run (watch_or_latched c l b) s)
    unfolding watch_or_latched
    chosen-Completes true e = inl latched-IsQuiet.1
    chosen-Completes false e = watch-Completes e

  -- With an API server that stores the status that it is given and answers with the spec: a turn
  -- leaves the spec, the restored source and the state of the migration as they were, or it sets
  -- the migration to completed, and then only if it is not and the API server has answered with a
  -- Pod in which a container named init-migrate-from-openclaw has exited with 0.
  pub reconcile-Completes : (s : St W) → Completes s.inst s.world (reconcile c l s).1.inst
  unfolding reconcile
  reconcile-Completes s =
      return_if_rule (Leaves (Completes s.inst s.world))
        (not (is_some s.inst.spec.migration.from_open_claw)) finished _ s (λ e. inl refl)
        λ e. chosen-Completes s s.inst.status.migration.completed refl

  chosen-IsQuiet : (s : St W) (b : Bool) → b ≡ true → IsQuiet s (run (watch_or_latched c l b) s)
  unfolding watch_or_latched
  chosen-IsQuiet s true e = latched-IsQuiet s
  chosen-IsQuiet s false e = absurd (ground arith)

  -- Once the migration is completed, a turn reports done without asking the API server for
  -- anything, and leaves the spec and both latches as they are.
  pub reconcile-completed :
      (s : St W) → s.inst.status.migration.completed ≡ true → IsQuiet s (reconcile c l s)
  unfolding reconcile
  reconcile-completed s e =
      return_if_rule (IsQuiet s) (not (is_some s.inst.spec.migration.from_open_claw)) finished _ s
        (λ q. (refl, refl, refl)) λ q. chosen-IsQuiet s s.inst.status.migration.completed e

  -- The end of a turn in which the latch was stored.
  advise-finished : (s : St W) → (run (advise c l) s).0 ≡ finished
  unfolding advise
  advise-finished s =
      when_rule (λ out. out.0 ≡ finished) (advises s.inst.spec.migration.from_open_claw) _ _ s
        (λ q. refl) (λ q. refl)

  -- The latch is stored.
  stored :
      (s : St W) (w : W) (message : String) (answer : Result HermesInstance)
      → let (now, w') = c.now w in
        (c.update_status (completed_condition c l (set_completed now message s.inst)) w').0 ≡ answer
        → is_ok answer ≡ true
        → let out = run (on_verdict c l (succeeded message)) (record s { world = w }) in
          (out.0 ≡ finished) × (view out.1.inst ≡ completed_view s.inst)
  unfolding on_verdict
  stored s w message (ok i) e q =
      let (now, w') = c.now w in
      let i' = completed_condition c l (set_completed now message s.inst) in
      let s' : St W = record {
        inst = i;
        world = (c.update_status i' w').1;
        events = s.events ++ record { type = normal; reason = "MigrationCompleted" } ∷ [];
      } in
      (rw (run, e) (advise-finished s'), verdict-After s w (succeeded message))
  stored s w message (err x) e q = absurd (ground arith)

  -- With an API server that stores the status that it is given and answers with the spec: if a
  -- migration is asked for and not completed, the API server answers with the Pod and stays as it
  -- is, the first container named init-migrate-from-openclaw that has terminated has exited with 0,
  -- and the status update is accepted, then the turn reports done, and the migration is completed.
  pub reconcile_migrates :
      (s : St W) (pod : Pod) (message : String)
      → is_some s.inst.spec.migration.from_open_claw ≡ true
      → s.inst.status.migration.completed ≡ false
      → c.get_pod (pod_name s.inst) s.inst.meta.namespace s.world ≡ (ok pod, s.world)
      → pod_verdict "init-migrate-from-openclaw" pod ≡ succeeded message
      → is_ok
          (c.update_status
            (completed_condition c l (set_completed (c.now s.world).0 message s.inst))
            (c.now s.world).1).0
        ≡ true
      → ((reconcile c l s).0 ≡ finished) × (view (reconcile c l s).1.inst ≡ completed_view s.inst)
  unfolding reconcile watch_or_latched watch_pod
  reconcile_migrates s pod message wanted n e v q =
      simp (reconcile, run, wanted, n, e, v) (stored s s.world message _ refl q)
