-- ===== src/AutoUpdate/Poll.antt =====
-- internal/controller/autoupdate.go: `Reconcile`, one turn of the state machine of an instance.
pub mod Steps
pub mod Safe
mod Tests
use hermes_operator.Common.{
  ℕ, ◌+◌, String, Bool, false, not, ◌||◌, Option, none, some, List, is_empty, str_eq, ltb,
  if◌then◌else◌,
}
use hermes_operator.Common.Flow.{M, ◌>>=◌, ◌>>◌, exit, finish, return_if, run, go}
use hermes_operator.Api.Status.{
  ConditionStatus, condition_true, condition_false, condition_auto_updated,
}
use hermes_operator.Api.Instance.{HermesInstance}
use hermes_operator.Kube.Result.{Result, ok, err, Err, wrap, is_no_matching_tag}
use hermes_operator.Kube.Objects.{warning}
use hermes_operator.Controller.{
  St, try, read, write, emit, change, instance_now, set_auto_update, set_conditions, condition,
}
use hermes_operator.Oci.Tags.{highest_matching, default_channel}
use hermes_operator.AutoUpdate.{AutoUpdateReconciler}
use hermes_operator.AutoUpdate.Interval.{hour, parse_poll_interval}
use hermes_operator.AutoUpdate.Rollout.{Return, current_running_tag, start_rollout}
use hermes_operator.AutoUpdate.Drive.{drive_rollout}

-- The interval, or an hour where the text is invalid.
abbrev pub interval_or_hour : Result ℕ → ℕ
interval_or_hour (ok d) = d
interval_or_hour (err e) = hour

abbrev pub poll_repository : HermesInstance → String
poll_repository i =
    if is_empty i.spec.auto_update.source.registry
    then i.spec.image.repository
    else i.spec.auto_update.source.registry

module _ {V C W : Type 0} (a : AutoUpdateReconciler V C W) where
  open a use {library, client, semver, parse_duration}

  abbrev pub poll_channel : HermesInstance → String
  poll_channel i =
      if is_empty i.spec.auto_update.source.channel
      then default_channel semver i.spec.image.tag
      else i.spec.auto_update.source.channel

  -- The last check is less than an interval ago.
  checked_lately : Option ℕ → ℕ → M (St W) Return Bool
  checked_lately none interval = go false
  checked_lately (some t) interval = do now ← read client.now; go (ltb now (t + interval))

  record_check : M (St W) Return (Unit {0})
  record_check = do
    t ← read client.now
    change (set_auto_update λ u. record u { last_check_time = some t })

  -- The branches of `Reconcile` that only record a condition.
  note : ConditionStatus → String → ℕ → M (St W) Return Return
  note status reason interval = do
    i ← instance_now
    change (
        set_conditions
          λ cs. library.set_status_condition cs (condition i condition_auto_updated status reason))
    write client.update_status err
    finish (ok interval)

  -- The highest tag is known.
  on_best : ℕ → String → M (St W) Return Return
  unfolding note
  on_best interval best = do
    i ← instance_now
    if str_eq best i.status.auto_update.last_failed_tag
        then note condition_false "SuppressedKnownFailure" interval
        else if str_eq best (current_running_tag i)
        then note condition_true "UpToDate" interval
        else start_rollout a best

  on_highest : ℕ → Result String → M (St W) Return Return
  unfolding note on_best
  on_highest interval (ok best) = on_best interval best
  on_highest interval (err e) =
      if is_no_matching_tag e
      then note condition_false "NoMatchingTag" interval
      else finish (err (wrap "HighestMatching" e))

  -- The registry has answered.
  on_tags : ℕ → String → Result (List String) → M (St W) Return Return
  unfolding record_check on_highest
  on_tags interval channel (err e) = do
    emit warning "AutoUpdateListTagsFailed"
    record_check
    write client.update_status err
    finish (ok interval)
  on_tags interval channel (ok tags) = do
    record_check
    on_highest interval (highest_matching semver tags channel)

  -- The last check is not recent.
  look : HermesInstance → ℕ → M (St W) Return Return
  unfolding on_tags
  look i interval = do
    tags ← try (client.list_tags (poll_repository i))
    on_tags interval (poll_channel i) tags

  abbrev pub interval_of : HermesInstance → ℕ
  interval_of i =
      interval_or_hour (parse_poll_interval parse_duration i.spec.auto_update.poll_interval)

  -- No rollout is in flight.
  poll : HermesInstance → M (St W) Return Return
  unfolding checked_lately look
  poll i = do
    lately ← checked_lately i.status.auto_update.last_check_time (interval_of i)
    return_if lately (ok (interval_of i))
    look i (interval_of i)

  pub reconcile : St W → Return × St W
  unfolding poll
  reconcile = run do
    i ← instance_now
    return_if (not i.spec.auto_update.enabled || not a.registry_set) (ok 0)
    if is_empty i.status.auto_update.target_tag then poll i else drive_rollout a
