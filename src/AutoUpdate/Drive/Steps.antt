-- ===== src/AutoUpdate/Drive/Steps.antt =====
-- How watching a rollout moves the tags.
use hermes_operator.Common.{
  ℕ, String, Bool, true, false, not, ◌&&◌, ◌||◌, Option, none, some, List, [], ◌∷◌, ◌≡◌, ◌≢◌, refl,
  sym, arith, eq_iff, is_empty, leb, ltb, if◌then◌else◌,
}
use mathlib.Core.Path.{subst}
use mathlib.Core.Bool.{and-eq-true_iff}
use hermes_operator.Common.Flow.{M, run, ◌>>=◌, ◌>>◌, finish, go}
use hermes_operator.Api.Instance.{HermesInstance, annotation_auto_update_target}
use hermes_operator.Kube.Result.{ok, err, wrap}
use hermes_operator.Kube.Objects.{StatefulSet, Container, EventType, Emitted, normal, warning}
use hermes_operator.Kube.Client.{IsApiServer}
use hermes_operator.Controller.{
  St, annotation, unannotate, write, change, emit, set_annotations, set_auto_update,
}
use hermes_operator.Controller.Rules.{check_rule, if_rule, when_rule, inner_check_rule, Leaves}
use hermes_operator.AutoUpdate.{AutoUpdateReconciler}
use hermes_operator.AutoUpdate.Tags.{Tags, tags_of, Step, same, confirm, roll_back, IsSoleWriter}
use hermes_operator.Controller.Names.{stateful_set_name}
use hermes_operator.AutoUpdate.Keeps.{Has, Rest, update_status_rule, patch_instance_rule}
use hermes_operator.AutoUpdate.Rollout.{Return, image_of, count_events}
use hermes_operator.AutoUpdate.Drive.{
  is_rolled_out, threshold_of, rollback_enabled, previous_tag, drop_annotation, confirmed,
  confirm_rollout, patch_back, rolled_back, record_rollback, rollback, count_probe_failures,
  past_rollout_deadline, keep_watching, watch_failures, drive_rollout,
}

module _ {V C W : Type 0} (a : AutoUpdateReconciler V C W) (h : IsApiServer a.client)
    (sole : IsSoleWriter a.client) (G : HermesInstance → Type 0) (t : Tags)
    (enough : (i : HermesInstance) → Has t i → G i) where
  open a use {client}

  drop_annotation-Has :
      (m : M (St W) Return Return)
      → Rest client h sole G t enough m
      → Rest client h sole G t enough (drop_annotation a >> m)
  unfolding drop_annotation
  drop_annotation-Has m k s here =
      let i = s.inst in
      let j = set_annotations (unannotate annotation_auto_update_target) i in
      when_rule (Leaves G)
        (not (is_empty (annotation annotation_auto_update_target i.meta.annotations)))
        (do
          change (set_annotations (unannotate annotation_auto_update_target))
          write (client.patch_instance i) err)
        m s
        (λ _. patch_instance_rule client h sole G t enough i err m k (record s { inst = j }) here)
        (λ _. k s here)

  close :
      (kind : EventType) (e : String)
      → Rest client h sole {R = Return} G t enough (emit kind e >> finish (ok 0))
  close kind e s here = enough s.inst here

  keep_watching-Has : Rest client h sole G t enough (keep_watching a)
  unfolding keep_watching
  keep_watching-Has =
      update_status_rule client h sole G t enough err (finish (ok 15)) λ s here. enough s.inst here

  record_rollback-Has :
      (failed prev : String) (s : St W)
      → Has t (rolled_back a failed prev s.inst)
      → Leaves G (run (record_rollback a failed prev) s)
  unfolding record_rollback
  record_rollback-Has failed prev s =
      let rest = (emit warning "AutoUpdateRolledBack" >> finish (ok 0)) in
      update_status_rule client h sole G t enough err (drop_annotation a >> rest)
        (drop_annotation-Has rest (close warning "AutoUpdateRolledBack"))
        (record s { inst = rolled_back a failed prev s.inst })

  confirm_rollout-Has :
      (target : String) (s : St W)
      → Has t (confirmed a target s.inst)
      → Leaves G (run (confirm_rollout a target) s)
  unfolding confirm_rollout
  confirm_rollout-Has target s =
      let rest = (emit normal "AutoUpdateConfirmed" >> finish (ok 0)) in
      update_status_rule client h sole G t enough err (drop_annotation a >> rest)
        (drop_annotation-Has rest (close normal "AutoUpdateConfirmed"))
        (record s { inst = confirmed a target s.inst })

module _ {V C W : Type 0} (a : AutoUpdateReconciler V C W) (h : IsApiServer a.client)
    (sole : IsSoleWriter a.client) (i : HermesInstance)
    (in_flight : is_empty i.status.auto_update.target_tag ≡ false) where
  open a use {client}

  -- The tags make a step from those of `i`.
  abbrev Moved : HermesInstance → Type 0
  Moved j = Step i.spec.image.tag (rollback_enabled i) (tags_of i) (tags_of j)

  target_set : i.status.auto_update.target_tag ≢ ""
  target_set e = ground (arith, eq_iff i.status.auto_update.target_tag "")

  stays : (j : HermesInstance) → tags_of j ≡ tags_of i → Moved j
  stays j e = subst (Step i.spec.image.tag (rollback_enabled i) (tags_of i)) (sym e) same

  confirm-Moved :
      (w : W) (es : List Emitted)
      → Leaves Moved (
          run
            (confirm_rollout a i.status.auto_update.target_tag)
            (record { inst = i; world = w; events = es }))
  confirm-Moved w es =
      let target = i.status.auto_update.target_tag in
      confirm_rollout-Has a h sole Moved (tags_of (confirmed a target i))
        (λ j e.
          subst (Step i.spec.image.tag (rollback_enabled i) (tags_of i)) (sym e)
            (confirm target_set))
        target (record { inst = i; world = w; events = es }) refl

  -- The instance with its failures counted.
  abbrev counted : ℕ → HermesInstance
  counted n = set_auto_update (λ u. record u { probe_failures = n }) i

  abbrev state : ℕ → W → List Emitted → St W
  state n w es = record { inst = counted n; world = w; events = es }

  record_rollback-Moved :
      (allowed : rollback_enabled i ≡ true) (n : ℕ) (w : W) (es : List Emitted)
      → Leaves Moved
          (run (record_rollback a i.status.auto_update.target_tag (previous_tag i)) (state n w es))
  record_rollback-Moved allowed n w es =
      let target = i.status.auto_update.target_tag in
      record_rollback-Has a h sole Moved
        (tags_of (rolled_back a target (previous_tag i) (counted n)))
        (λ j e.
          subst (Step i.spec.image.tag (rollback_enabled i) (tags_of i)) (sym e)
            (roll_back target_set allowed))
        target (previous_tag i) (state n w es) refl

  patch_back-Moved :
      (allowed : rollback_enabled i ≡ true) (n : ℕ) (image : String) (sts : StatefulSet)
      (ks : List Container) (w : W) (es : List Emitted)
      → Leaves Moved (
          run
            (patch_back a image sts ks
              >> record_rollback a i.status.auto_update.target_tag (previous_tag i))
            (state n w es))
  unfolding patch_back
  patch_back-Moved allowed n image sts [] w es = stays (counted n) refl
  patch_back-Moved allowed n image sts (k ∷ ks) w es =
      let patched = record sts { containers = record k { image = image } ∷ ks } in
      let (r, w') = client.patch_stateful_set sts patched w in
      inner_check_rule (Leaves Moved) r (λ e. err (wrap "patch STS rollback" e)) (λ p. go tt)
        (λ u. record_rollback a i.status.auto_update.target_tag (previous_tag i)) (state n w' es)
        (λ e q. stays (counted n) refl) (λ p q. record_rollback-Moved allowed n w' es)

  rollback-Moved :
      (allowed : rollback_enabled i ≡ true) (n : ℕ) (w : W) (es : List Emitted)
      → Leaves Moved (run (rollback a i.status.auto_update.target_tag) (state n w es))
  unfolding rollback
  rollback-Moved allowed n w es =
      let (r, w') = client.get_stateful_set (stateful_set_name (counted n)) i.meta.namespace w in
      check_rule (Leaves Moved) r err
        (λ sts.
          patch_back a (image_of (counted n) (previous_tag i)) sts sts.containers
          >> record_rollback a i.status.auto_update.target_tag (previous_tag i))
        (state n w' es) (λ e q. stays (counted n) refl)
        λ sts q.
          patch_back-Moved allowed n (image_of (counted n) (previous_tag i)) sts sts.containers w'
            es

  -- Rolled back, if that is allowed, or watched further.
  decide-Moved :
      (bad : Bool) (n : ℕ) (w : W) (es : List Emitted)
      → Leaves Moved (
          run
            (if rollback_enabled i && bad
              then rollback a i.status.auto_update.target_tag
              else keep_watching a)
            (state n w es))
  decide-Moved bad n w es =
      if_rule (Leaves Moved) (rollback_enabled i && bad)
        (rollback a i.status.auto_update.target_tag) (keep_watching a) (state n w es)
        (λ both. rollback-Moved ((and-eq-true_iff _ _).0 both).0 n w es)
        (λ no. keep_watching-Has a h sole Moved (tags_of i) stays (state n w es) refl)

  late-Moved :
      (o : Option ℕ) (n : ℕ) (w : W) (es : List Emitted)
      → Leaves Moved (
          run
            (past_rollout_deadline a o >>= λ late.
              if rollback_enabled i && (leb (threshold_of i) n || late)
              then rollback a i.status.auto_update.target_tag
              else keep_watching a)
            (state n w es))
  unfolding past_rollout_deadline
  late-Moved none n w es = decide-Moved (leb (threshold_of i) n || false) n w es
  late-Moved (some d) n w es =
      let (t, w') = client.now w in decide-Moved (leb (threshold_of i) n || ltb d t) n w' es

  watch_failures-Moved :
      (w : W) (es : List Emitted)
      → Leaves Moved (
          run
            (watch_failures a i i.status.auto_update.target_tag)
            (record { inst = i; world = w; events = es }))
  unfolding watch_failures count_probe_failures
  watch_failures-Moved w es =
      let (r, w') = client.list_events i.meta.namespace w in
      inner_check_rule (Leaves Moved) r err (λ events. go (count_events i events)) _
        (record { inst = i; world = w'; events = es }) (λ e q. stays i refl)
        λ events q. late-Moved i.status.auto_update.rollout_deadline (count_events i events) w' es

  pub drive_rollout-Step :
      (w : W) (es : List Emitted)
      → Leaves Moved (run (drive_rollout a) (record { inst = i; world = w; events = es }))
  unfolding drive_rollout
  drive_rollout-Step w es =
      let (r, w') = client.get_stateful_set (stateful_set_name i) i.meta.namespace w in
      check_rule (Leaves Moved) r err
        (λ sts.
          if is_rolled_out sts
          then confirm_rollout a i.status.auto_update.target_tag
          else watch_failures a i i.status.auto_update.target_tag)
        (record { inst = i; world = w'; events = es }) (λ e q. stays i refl)
        λ sts q.
          if_rule (Leaves Moved) (is_rolled_out sts)
            (confirm_rollout a i.status.auto_update.target_tag)
            (watch_failures a i i.status.auto_update.target_tag)
            (record { inst = i; world = w'; events = es }) (λ yes. confirm-Moved w' es)
            (λ no. watch_failures-Moved w' es)
