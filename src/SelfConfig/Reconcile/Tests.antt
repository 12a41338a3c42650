-- ===== src/SelfConfig/Reconcile/Tests.antt =====
-- A request that its parent permits is applied.
use hermes_operator.Common.{ℕ, [], ◌≡◌, refl, sym, ap, ◌⊎◌}
use hermes_operator.Kube.Result.{Result, ok}
use hermes_operator.Kube.Client.{answer_or}
use hermes_operator.Api.SelfConfig.{HermesSelfConfig}
use hermes_operator.SelfConfig.Policy.{
  determine_actions, check_allowed_actions, check_protected_paths, compile_all, walk, walk_fields,
  join_path,
}
use hermes_operator.SelfConfig.Turn.{one_hour}
use hermes_operator.SelfConfig.Reconcile.{
  handle, reconcile, for_parent, gates, decide, apply_all, stage, snapshot_stage, mark_applied,
  send, patch_gate,
}
use hermes_operator.SelfConfig.Reconcile.Permits.{ReadsPermitted, reconcile-IsPermitted}
use hermes_operator.SelfConfig.Reconcile.Settles.{IsStatusServer, handle_once}
use hermes_operator.SelfConfig.Reconcile.Outcome.{AppliesTo, handle-AppliesTo}
use hermes_operator.Fixtures.Requests.{requests, request, permissive_parent, turn}
use hermes_operator.Fixtures.Conditions.{library}

-- The request that an answer holds.
abbrev answered : Result HermesSelfConfig × ℕ → HermesSelfConfig
answered r = answer_or r.0 request

requests-IsStatusServer : IsStatusServer requests
requests-IsStatusServer = record {
  phase-update_status = λ sc sc' w w' e. ap (λ r. (answered r).status.phase) (sym e);
  observed-update_status =
      λ sc sc' w w' e. ap (λ r. (answered r).status.observed_generation) (sym e);
  generation-update_status = λ sc sc' w w' e. ap (λ r. (answered r).meta.generation) (sym e);
  fields-update_status = λ sc sc' w w' e. ap (λ r. (answered r).status.applied_fields) (sym e);
}

hour : (handle requests library turn).0 ≡ ok one_hour
unfolding handle for_parent gates decide apply_all stage snapshot_stage mark_applied send patch_gate
    determine_actions check_allowed_actions check_protected_paths compile_all walk walk_fields
    join_path
hour = refl

reconcile-IsPermitted_example :
    ((reconcile requests library "ask" "default" turn).1.writes ≡ [])
    ⊎ ReadsPermitted requests library (ok request) 0
reconcile-IsPermitted_example = reconcile-IsPermitted requests library "ask" "default" turn

handle_once_example :
    let next = record ((handle requests library turn).1) { world = 5 } in
    handle requests library next ≡ (ok one_hour, next)
handle_once_example = handle_once requests library requests-IsStatusServer turn one_hour 5 hour

handle-AppliesTo_example :
    AppliesTo requests library requests-IsStatusServer
      (ok permissive_parent)
      request
      []
      (handle requests library turn).1
handle-AppliesTo_example = handle-AppliesTo requests library requests-IsStatusServer turn refl hour
