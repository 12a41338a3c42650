-- ===== src/AutoUpdate/Poll/Steps.antt =====
-- One turn of the sub-controller is a step of the tags.
use hermes_operator.Common.{
  ℕ, ◌+◌, String, Bool, true, false, not, ◌||◌, Option, none, some, List, ◌≡◌, refl, sym, arith,
  eq_iff, is_empty, str_eq, ltb, if◌then◌else◌,
}
use mathlib.Core.Path.{subst}
use hermes_operator.Common.Flow.{run, ◌>>=◌, ◌>>◌, finish, return_if}
use hermes_operator.Api.Status.{
  ConditionStatus, condition_true, condition_false, condition_auto_updated,
}
use hermes_operator.Api.Instance.{HermesInstance}
use hermes_operator.Kube.Result.{Result, ok, err, is_no_matching_tag}
use hermes_operator.Kube.Client.{IsApiServer}
use hermes_operator.Kube.Objects.{Emitted}
use hermes_operator.Controller.{St, set_conditions, set_auto_update, condition}
use hermes_operator.Controller.Rules.{if_rule, return_if_rule, Leaves}
use hermes_operator.Oci.Tags.{highest_matching}
use hermes_operator.AutoUpdate.{AutoUpdateReconciler}
use hermes_operator.AutoUpdate.Tags.{tags_of, Step, same, start, IsSoleWriter}
use hermes_operator.AutoUpdate.Keeps.{Has, update_status_rule}
use hermes_operator.AutoUpdate.Rollout.{current_running_tag}
use hermes_operator.AutoUpdate.Rollout.Steps.{start_rollout-Leaves}
use hermes_operator.AutoUpdate.Drive.{rollback_enabled, drive_rollout}
use hermes_operator.AutoUpdate.Drive.Steps.{drive_rollout-Step}
use hermes_operator.AutoUpdate.Poll.{
  poll_repository, poll_channel, checked_lately, record_check, note, on_best, on_highest, on_tags,
  look, interval_of, poll, reconcile,
}

module _ {V C W : Type 0} (a : AutoUpdateReconciler V C W) (h : IsApiServer a.client)
    (sole : IsSoleWriter a.client) (i : HermesInstance)
    (idle : i.status.auto_update.target_tag ≡ "") where
  open a use {library, client, semver}

  abbrev Moved : HermesInstance → Type 0
  Moved j = Step i.spec.image.tag (rollback_enabled i) (tags_of i) (tags_of j)

  stays : (j : HermesInstance) → Has (tags_of i) j → Moved j
  stays j e = subst (Step i.spec.image.tag (rollback_enabled i) (tags_of i)) (sym e) same

  -- The instance with the check recorded.
  abbrev checked : ℕ → HermesInstance
  checked t = set_auto_update (λ u. record u { last_check_time = some t }) i

  abbrev state : ℕ → W → List Emitted → St W
  state t w es = record { inst = checked t; world = w; events = es }

  note-Moved :
      (status : ConditionStatus) (reason : String) (interval t : ℕ) (w : W) (es : List Emitted)
      → Leaves Moved (run (note a status reason interval) (state t w es))
  unfolding note
  note-Moved status reason interval t w es =
      let noted =
        set_conditions
          (λ cs.
            library.set_status_condition cs
              (condition (checked t) condition_auto_updated status reason))
          (checked t) in
      update_status_rule client h sole Moved (tags_of i) stays err (finish (ok interval))
        (λ s there. stays s.inst there) (record { inst = noted; world = w; events = es }) refl

  on_best-Moved :
      (interval : ℕ) (best : String) (t : ℕ) (w : W) (es : List Emitted)
      → Leaves Moved (run (on_best a interval best) (state t w es))
  unfolding on_best
  on_best-Moved interval best t w es =
      if_rule (Leaves Moved) (str_eq best i.status.auto_update.last_failed_tag) _ _ (state t w es)
        (λ _. note-Moved condition_false "SuppressedKnownFailure" interval t w es)
        λ fresh.
          if_rule (Leaves Moved) (str_eq best (current_running_tag i)) _ _ (state t w es)
            (λ _. note-Moved condition_true "UpToDate" interval t w es)
            λ other.
              start_rollout-Leaves a h sole (tags_of i) best Moved stays
                (λ j e. subst (Step i.spec.image.tag (rollback_enabled i) (tags_of i)) (sym e) (
                  start best idle
                    (λ q. ground (arith, eq_iff best i.status.auto_update.last_failed_tag))
                    (λ q. ground (arith, eq_iff best (current_running_tag i)))))
                (state t w es) refl

  on_highest-Moved :
      (interval : ℕ) (r : Result String) (t : ℕ) (w : W) (es : List Emitted)
      → Leaves Moved (run (on_highest a interval r) (state t w es))
  unfolding on_highest
  on_highest-Moved interval (ok best) t w es = on_best-Moved interval best t w es
  on_highest-Moved interval (err e) t w es =
      if_rule (Leaves Moved) (is_no_matching_tag e) _ _ (state t w es)
        (λ _. note-Moved condition_false "NoMatchingTag" interval t w es)
        (λ _. stays (checked t) refl)

  on_tags-Moved :
      (interval : ℕ) (channel : String) (r : Result (List String)) (w : W) (es : List Emitted)
      → Leaves Moved
          (run (on_tags a interval channel r) (record { inst = i; world = w; events = es }))
  unfolding on_tags record_check
  on_tags-Moved interval channel (ok tags) w es =
      let (t, w') = client.now w in
      on_highest-Moved interval (highest_matching semver tags channel) t w' es
  on_tags-Moved interval channel (err e) w es =
      let (t, w') = client.now w in
      update_status_rule client h sole Moved (tags_of i) stays err (finish (ok interval))
        (λ s there. stays s.inst there) (record { inst = checked t; world = w'; events = _ }) refl

  look-Moved :
      (late : Bool) (w : W) (es : List Emitted)
      → Leaves Moved (
          run
            (return_if late (ok (interval_of a i)) >> look a i (interval_of a i))
            (record { inst = i; world = w; events = es }))
  unfolding look
  look-Moved true w es = same
  look-Moved false w es =
      let (r, w') = client.list_tags (poll_repository i) w in
      on_tags-Moved (interval_of a i) (poll_channel a i) r w' es

  lately-Moved :
      (o : Option ℕ) (w : W) (es : List Emitted)
      → Leaves Moved (
          run
            (checked_lately a o (interval_of a i) >>= λ late.
              return_if late (ok (interval_of a i)) >> look a i (interval_of a i))
            (record { inst = i; world = w; events = es }))
  unfolding checked_lately
  lately-Moved none w es = look-Moved false w es
  lately-Moved (some t) w es =
      let (now, w') = client.now w in look-Moved (ltb now (t + interval_of a i)) w' es

  poll-Moved :
      (w : W) (es : List Emitted)
      → Leaves Moved (run (poll a i) (record { inst = i; world = w; events = es }))
  unfolding poll
  poll-Moved w es = lately-Moved i.status.auto_update.last_check_time w es

-- Every turn of the sub-controller, whether it returns a result or an error, makes a step of the
-- specification with the tags of the instance in memory: none, the start of a rollout to a tag
-- that has not just failed and does not run, a confirmation, or a rollback where it is enabled.
pub reconcile-Step :
    {V C W : Type 0} (a : AutoUpdateReconciler V C W) (h : IsApiServer a.client)
    (sole : IsSoleWriter a.client) (s : St W)
    → Step s.inst.spec.image.tag
        (rollback_enabled s.inst)
        (tags_of s.inst)
        (tags_of (reconcile a s).1.inst)
unfolding reconcile
reconcile-Step a h sole s =
    let i = s.inst in
    let Moves : HermesInstance → Type 0 =
      λ j. Step i.spec.image.tag (rollback_enabled i) (tags_of i) (tags_of j) in
    return_if_rule (Leaves Moves) (not i.spec.auto_update.enabled || not a.registry_set) (ok 0)
      (if is_empty i.status.auto_update.target_tag then poll a i else drive_rollout a) s (λ _. same)
      λ _.
        if_rule (Leaves Moves) (is_empty i.status.auto_update.target_tag) (poll a i)
          (drive_rollout a) s
          (λ idle.
            poll-Moved a h sole i ((eq_iff i.status.auto_update.target_tag "").0 idle) s.world
              s.events)
          (λ busy. drive_rollout-Step a h sole i busy s.world s.events)
