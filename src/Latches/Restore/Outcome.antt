-- ===== src/Latches/Restore/Outcome.antt =====
-- What a turn of the restore sub-controller leaves of the latch.
use hermes_operator.Common.{
  List, ◌∷◌, ◌++◌, All, none, some, ap, sym, ◌∙◌, String, Bool, true, false, not, is_empty, str_eq,
  ◌≡◌, ◌≢◌, refl, ◌⊎◌, inl, inr, arith, eq_iff,
}
use hermes_operator.Common.Flow.{run}
use hermes_operator.Kube.Result.{Result, ok, err, is_ok}
use hermes_operator.Kube.Objects.{Pod, Terminated, InitContainerStatus}
use hermes_operator.Kube.Client.{Client, IsApiServer}
use hermes_operator.Kube.Library.{Library}
use hermes_operator.Api.Status.{condition_restore_applied}
use hermes_operator.Api.Instance.{HermesInstance}
use hermes_operator.Controller.{St}
use hermes_operator.Controller.Names.{pod_name}
use hermes_operator.Controller.Rules.{check_rule, when_rule, return_if_rule, Leaves}
use hermes_operator.Latches.{
  Progress, finished, broken, Verdict, succeeded, failed, running, pod_verdict, not_found_or,
  KeepsSpec, exit_verdict, init_verdict, init_verdict-first, View, view, HasEnded, verdict-HasEnded,
  view_rule,
}
use hermes_operator.Latches.Restore.{
  set_restored, restored_condition, unrestored_condition, on_verdict, watch_pod, latched,
  watch_or_latched, reconcile,
}

module _ {W : Type 0} (c : Client W) (l : Library) (h : IsApiServer c) (k : KeepsSpec c) where
  -- The instance with its restored source set to that of the spec, as the latches see it.
  abbrev pub restored_view : HermesInstance → View
  restored_view i = (i.spec, i.spec.restore_from, i.status.migration.completed)

  -- The latch as it was, or set to the source of the spec because the container has ended.
  abbrev pub Restores : HermesInstance → W → HermesInstance → Type 0
  Restores i w out =
      (view out ≡ view i)
      ⊎ ((i.status.restored_from ≢ i.spec.restore_from)
          × HasEnded c "init-restore" i w
          × (view out ≡ restored_view i))

  module _ (s : St W) where
    abbrev After : Verdict → HermesInstance → Type 0
    After (succeeded message) out = view out ≡ restored_view s.inst
    After (failed message) out = view out ≡ view s.inst
    After running out = view out ≡ view s.inst

    verdict-After :
        (w : W) (v : Verdict) → Leaves (After v) (run (on_verdict c l v) (record s { world = w }))
    unfolding on_verdict
    verdict-After w (succeeded message) =
        view_rule c h k (restored_view s.inst) (broken false) _
          (record s { inst = restored_condition c l (set_restored s.inst); world = w }) refl
          λ i w' e. e
    verdict-After w (failed message) =
        view_rule c h k (view s.inst) (broken false) _
          (record s {
            inst = unrestored_condition c l "RestoreFailed" s.inst;
            world = w;
            events = _;
          })
          refl λ i w' e. e
    verdict-After w running = refl

    verdict-Restores :
        (pod : Pod) (v : Verdict) (out : HermesInstance)
        → s.inst.status.restored_from ≢ s.inst.spec.restore_from
        → (c.get_pod (pod_name s.inst) s.inst.meta.namespace s.world).0 ≡ ok pod
        → pod_verdict "init-restore" pod ≡ v
        → After v out
        → Restores s.inst s.world out
    verdict-Restores pod (succeeded message) out n e q a =
        inr (n, verdict-HasEnded c "init-restore" message s.inst s.world pod e q, a)
    verdict-Restores pod (failed message) out n e q a = inl a
    verdict-Restores pod running out n e q a = inl a

    watch-Restores :
        s.inst.status.restored_from ≢ s.inst.spec.restore_from
        → Leaves (Restores s.inst s.world) (run (watch_pod c l) s)
    unfolding watch_pod
    watch-Restores n =
        let (found, w) = c.get_pod (pod_name s.inst) s.inst.meta.namespace s.world in
        check_rule (Leaves (Restores s.inst s.world)) found not_found_or _ (record s { world = w })
          (λ e q. inl refl)
          λ pod q.
            verdict-Restores pod (pod_verdict "init-restore" pod) _ n q refl
              (verdict-After w (pod_verdict "init-restore" pod))

    -- A standing latch is kept, and the API server is not asked for anything.
    abbrev pub IsQuiet : Progress × St W → Type 0
    IsQuiet out = (out.0 ≡ finished) × (view out.1.inst ≡ view s.inst) × (out.1.world ≡ s.world)

    latched-IsQuiet : IsQuiet (run (latched c l) s)
    unfolding latched
    latched-IsQuiet =
        when_rule IsQuiet
          (not (l.is_status_condition_true s.inst.status.conditions condition_restore_applied)) _ _
          s (λ e. (refl, refl, refl)) (λ e. (refl, refl, refl))

    chosen-Restores :
        (b : Bool)
        → str_eq s.inst.status.restored_from s.inst.spec.restore_from ≡ b
        → Leaves (Restores s.inst s.world) (run (watch_or_latched c l b) s)
    unfolding watch_or_latched
    chosen-Restores true e = inl latched-IsQuiet.1
    chosen-Restores false e =
        watch-Restores
          λ q. ground (arith, eq_iff s.inst.status.restored_from s.inst.spec.restore_from)

  -- With an API server that stores the status that it is given and answers with the spec: a turn
  -- leaves the spec, the restored source and the state of the migration as they were, or it sets
  -- the restored source to that of the spec, and then only if they differ and the API server has
  -- answered with a Pod in which a container named init-restore has exited with 0.
  pub reconcile-Restores : (s : St W) → Restores s.inst s.world (reconcile c l s).1.inst
  unfolding reconcile
  reconcile-Restores s =
      return_if_rule (Leaves (Restores s.inst s.world)) (is_empty s.inst.spec.restore_from) finished
        _ s (λ e. inl refl)
        λ e. chosen-Restores s (str_eq s.inst.status.restored_from s.inst.spec.restore_from) refl

  -- Once the restored source is that of the spec, a turn reports done without asking the API
  -- server for anything, and leaves the spec and both latches as they are.
  pub reconcile-restored :
      (s : St W)
      → s.inst.status.restored_from ≡ s.inst.spec.restore_from
      → IsQuiet s (reconcile c l s)
  unfolding reconcile watch_or_latched
  reconcile-restored s e =
      return_if_rule (IsQuiet s) (is_empty s.inst.spec.restore_from) finished _ s
        (λ q. (refl, refl, refl))
        λ q.
          let same : str_eq s.inst.status.restored_from s.inst.spec.restore_from ≡ true =
            ground (arith, eq_iff s.inst.status.restored_from s.inst.spec.restore_from) in
          rw same (latched-IsQuiet s)

  -- The latch is stored.
  stored :
      (s : St W) (w : W) (message : String) (answer : Result HermesInstance)
      → (c.update_status (restored_condition c l (set_restored s.inst)) w).0 ≡ answer
      → is_ok answer ≡ true
      → let out = run (on_verdict c l (succeeded message)) (record s { world = w }) in
        (out.0 ≡ finished) × (view out.1.inst ≡ restored_view s.inst)
  unfolding on_verdict
  stored s w message (ok i) e q = (rw (run, e) refl, verdict-After s w (succeeded message))
  stored s w message (err x) e q = absurd (ground arith)

  exit-succeeded : (t : Terminated) → t.exit_code ≡ 0 → exit_verdict t ≡ succeeded t.message
  exit-succeeded t zero = ground arith

  -- A turn with the verdict that the container has succeeded.
  succeeded_turn :
      (s : St W) (pod : Pod) (message : String)
      → s.inst.spec.restore_from ≢ ""
      → s.inst.status.restored_from ≢ s.inst.spec.restore_from
      → (c.get_pod (pod_name s.inst) s.inst.meta.namespace s.world).0 ≡ ok pod
      → pod_verdict "init-restore" pod ≡ succeeded message
      → ((i : HermesInstance) (w : W) → is_ok (c.update_status i w).0 ≡ true)
      → ((reconcile c l s).0 ≡ finished) × (view (reconcile c l s).1.inst ≡ restored_view s.inst)
  unfolding reconcile watch_or_latched watch_pod
  succeeded_turn s pod message wanted n e v accepts =
      let first : is_empty s.inst.spec.restore_from ≡ false =
        ground (arith, eq_iff s.inst.spec.restore_from "") in
      let second : str_eq s.inst.status.restored_from s.inst.spec.restore_from ≡ false =
        ground (arith, eq_iff s.inst.status.restored_from s.inst.spec.restore_from) in
      let w = (c.get_pod (pod_name s.inst) s.inst.meta.namespace s.world).1 in
      rw (reconcile, run, first, second, e, v) (stored s w message _ refl (accepts _ w))

  -- With an API server that stores the status that it is given, answers with the spec and accepts
  -- every status update: if the restore is wanted and not done, and the API server answers with the
  -- Pod, in which a container named init-restore has exited with 0 and none of that name before it
  -- has terminated, then the turn reports done, sets the restored source to that of the spec, and
  -- leaves the spec and the state of the migration; and every turn from an instance with these
  -- reports done without asking the API server for anything.
  pub reconcile_finishes :
      ((i : HermesInstance) (w : W) → is_ok (c.update_status i w).0 ≡ true)
      → (s : St W) (pod : Pod) (t : Terminated) (before after : List InitContainerStatus)
      → s.inst.spec.restore_from ≢ ""
      → s.inst.status.restored_from ≢ s.inst.spec.restore_from
      → (c.get_pod (pod_name s.inst) s.inst.meta.namespace s.world).0 ≡ ok pod
      → pod.init_container_statuses
        ≡ before ++ (record { name = "init-restore"; terminated = some t } ∷ after)
      → All (λ cs. (cs.name ≢ "init-restore") ⊎ (cs.terminated ≡ none)) before
      → t.exit_code ≡ 0
      → let out = reconcile c l s in
        (out.0 ≡ finished)
        × (out.1.inst.status.restored_from ≡ s.inst.spec.restore_from)
        × (out.1.inst.spec ≡ s.inst.spec)
        × (out.1.inst.status.migration.completed ≡ s.inst.status.migration.completed)
        × ((later : St W) → view later.inst ≡ view out.1.inst → IsQuiet later (reconcile c l later))
  reconcile_finishes accepts s pod t before after wanted n e ended none_before zero =
      let waits : pod_verdict "init-restore" pod ≡ succeeded t.message =
        ap (init_verdict "init-restore") ended
        ∙ init_verdict-first "init-restore" t before after none_before
        ∙ exit-succeeded t zero in
      let (done, seen) = succeeded_turn s pod t.message wanted n e waits accepts in
      (
        done,
        ap (λ v. v.1) seen,
        ap (λ v. v.0) seen,
        ap (λ v. v.2) seen,
        λ later q.
            let same = q ∙ seen in
            reconcile-restored later (ap (λ v. v.1) same ∙ sym (ap (λ v. v.0.restore_from) same)),
      )
