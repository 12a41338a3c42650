-- ===== src/SelfConfig/Reconcile.antt =====
-- internal/controller/hermesselfconfig_controller.go: one turn of the controller.
mod Tests
pub mod Permits
pub mod Applies
pub mod Settles
pub mod Outcome
use hermes_operator.Common.{
  ℕ, String, Bool, true, false, not, ◌&&◌, ◌==◌, Option, none, some, List, [], ◌∷◌, ◌++◌, map,
  concat, is_empty, is_cons, str_eq, bool_value, if◌then◌else◌,
}
use hermes_operator.Common.Flow.{M, go, ◌>>=◌, ◌>>◌, finish, return_if, run}
use hermes_operator.Kube.Result.{Result, ok, err, Err, is_not_found, is_already_exists, plain, wrap}
use hermes_operator.Kube.Library.{Library}
use hermes_operator.Kube.Objects.{EventType, normal, warning}
use hermes_operator.Api.Status.{ConditionStatus, Condition, condition_true}
use hermes_operator.Api.Features.{SelfConfigAction}
use hermes_operator.Api.Instance.{HermesInstance}
use hermes_operator.Api.SelfConfig.{
  HermesSelfConfig, SelfConfigProfileSnapshot, SelfConfigPhase, unset, pending, applied, denied,
}
use hermes_operator.Controller.{annotation, check}
use hermes_operator.SelfConfig.{Fields, has_patch, raw_patch}
use hermes_operator.SelfConfig.Policy.{
  determine_actions, check_allowed_actions, check_protected_paths,
}
use hermes_operator.SelfConfig.Patches.{
  PartialInstance, ConfigMap, SnapshotJob, build_skills_patch, build_env_vars_patch,
  build_workspace_files_patch, build_patch_config_payload, merge_config_map_patches,
  build_snapshot_job, format_applied_field_skill, format_applied_field_env,
  format_applied_field_file,
}
use hermes_operator.SelfConfig.Turn.{
  DenyReason, SelfConfigClient, Turn, Write, apply_failed, config_map_fields, config_map_patch,
  config_map_write, create_job, disabled, env_vars_write, events_for, events_of, failed_with,
  is_settled, no_mutations, not_allowed, one_hour, parent_not_found, patch_verdict, skills_write,
  tolerated,
}

module _ {W : Type 0} (c : SelfConfigClient W) (l : Library) where
  -- `client.Patch` and `client.Create`: the write is issued, and its error wrapped.
  pub send : Write → String → M (Turn W) (Result (List String)) (Unit {0})
  send x name s =
      let (r, w) = c.perform x s.world in
      check (tolerated x r) (failed_with name) (record s { world = w; writes = s.writes ++ x ∷ [] })

  -- One stage of `applyAll`: its write, if any, and the fields that it then owns.
  pub stage : Option Write → String → List String → M (Turn W) (Result (List String)) (List String)
  unfolding send
  stage none name fields = go []
  stage (some x) name fields = do send x name; go fields

  abbrev clock : M (Turn W) (Result (List String)) ℕ
  clock s = let (t, w) = c.now s.world in go t (record s { world = w })

  pub snapshot_stage :
      HermesInstance
      → Option SelfConfigProfileSnapshot
      → M (Turn W) (Result (List String)) (List String)
  unfolding send
  snapshot_stage parent none = go []
  snapshot_stage parent (some p) = do
    return_if (not (bool_value parent.spec.profile_store.honcho.enabled))
        (err (plain "addProfileSnapshot requires .spec.profileStore.honcho.enabled=true"))
    t ← clock
    send (create_job (build_snapshot_job c.to_lower c.format_time parent p.profile_id p.payload t))
        "snapshot Job create"
    go (
        concat (
          "job[name="
          ∷ (build_snapshot_job c.to_lower c.format_time parent p.profile_id p.payload t).name
          ∷ "]"
          ∷ [])
        ∷ [])

  pub apply_all : HermesInstance → HermesSelfConfig → Turn W → Result (List String) × Turn W
  unfolding stage snapshot_stage
  apply_all parent sc = run do
    skills ←
        stage (skills_write parent sc) "skills SSA"
          (map (λ s. format_applied_field_skill s.source) sc.spec.add_skills)
    env ←
        stage (env_vars_write parent sc) "envVars SSA"
          (map (λ v. format_applied_field_env v.name) sc.spec.add_env_vars)
    files ←
        stage (config_map_write (config_map_patch parent sc) sc) "workspace CM SSA"
          (config_map_fields sc)
    job ← snapshot_stage parent sc.spec.add_profile_snapshot
    finish (ok (skills ++ (env ++ (files ++ job))))

  -- `Status().Update`, whose answer replaces the request in memory.
  abbrev pub updated : ℕ → Turn W → Result HermesSelfConfig × W → Result ℕ × Turn W
  updated after s (ok sc, w) = (ok after, record s { sc = sc; world = w })
  updated after s (err e, w) = (err e, record s { world = w })

  abbrev pub update_and_return : ℕ → Turn W → Result ℕ × Turn W
  update_and_return after s = updated after s (c.update_status s.sc s.world)

  abbrev pub set_condition : String → String → List Condition → List Condition
  set_condition type reason cs =
      l.set_status_condition cs
        (record { type = type; status = condition_true; reason = reason; observed_generation = 0 })

  -- The clock that `deny` reads only stamps the condition, and is left out.
  abbrev pub deny_status : DenyReason → HermesSelfConfig → HermesSelfConfig
  deny_status reason sc = record sc {
    status = record sc.status {
      phase = denied;
      deny_reason = c.sprintf reason;
      observed_generation = sc.meta.generation;
      conditions = set_condition "Denied" "PolicyViolation" sc.status.conditions;
    };
  }

  abbrev pub denied_turn : Option HermesInstance → DenyReason → Turn W → Turn W
  denied_turn parent reason s = record s {
    sc = deny_status reason s.sc;
    events = s.events ++ events_for parent warning "SelfConfigDenied";
    counted = record s.counted { denied_for = s.counted.denied_for ++ reason ∷ [] };
  }

  pub deny : Option HermesInstance → DenyReason → Turn W → Result ℕ × Turn W
  deny parent reason s = update_and_return 0 (denied_turn parent reason s)

  abbrev pub applied_status : List String → ℕ → HermesSelfConfig → HermesSelfConfig
  applied_status fields t sc = record sc {
    status = record sc.status {
      phase = applied;
      deny_reason = "";
      applied_fields = fields;
      applied_at = some t;
      observed_generation = sc.meta.generation;
      conditions = set_condition "Applied" "SSASuccess" sc.status.conditions;
    };
  }

  pub mark_applied : HermesInstance → List String → Turn W → Result ℕ × Turn W
  mark_applied parent fields s =
      let (t, w) = c.now s.world in
      update_and_return one_hour (record s {
        sc = applied_status fields t s.sc;
        world = w;
        events = s.events ++ events_of parent normal "SelfConfigApplied";
        counted = record s.counted {
          applied_for = s.counted.applied_for ++ determine_actions s.sc;
        };
      })

  -- The gates: the reason to deny the request, if any. The third one is that of the patch.
  pub patch_gate : HermesInstance → HermesSelfConfig → Option DenyReason
  patch_gate parent sc =
      if has_patch sc.spec.patch_config
      then patch_verdict (
          check_protected_paths c.unmarshal c.compile (raw_patch sc.spec.patch_config)
            parent.spec.self_configure.protected_keys)
      else none

  pub gates : HermesInstance → HermesSelfConfig → Option DenyReason
  unfolding patch_gate
  gates parent sc =
      let requested = determine_actions sc in
      let allowed = parent.spec.self_configure.allowed_actions in
      let over = check_allowed_actions requested allowed in
      let last = patch_gate parent sc in
      if not (bool_value parent.spec.self_configure.enabled)
      then some disabled
      else if not (is_cons requested)
      then some no_mutations
      else if is_cons over
      then some (not_allowed over allowed)
      else last

  abbrev pub conclude : HermesInstance → Result (List String) × Turn W → Result ℕ × Turn W
  conclude parent (ok fields, s) = mark_applied parent fields s
  conclude parent (err e, s) = deny (some parent) (apply_failed e) s

  pub decide : HermesInstance → Option DenyReason → Turn W → Result ℕ × Turn W
  unfolding deny mark_applied apply_all
  decide parent (some reason) s = deny (some parent) reason s
  decide parent none s = conclude parent (apply_all parent s.sc s)

  pub for_parent : Result HermesInstance → Turn W → Result ℕ × Turn W
  unfolding decide gates deny
  for_parent (ok parent) s = decide parent (gates parent s.sc) s
  for_parent (err e) s =
      if is_not_found e then deny none (parent_not_found s.sc.spec.instance_ref) s else (err e, s)

  -- A request that was read.
  pub handle : Turn W → Result ℕ × Turn W
  unfolding for_parent
  handle s =
      let (r, w) = c.get_instance s.sc.spec.instance_ref s.sc.meta.namespace s.world in
      let rest = for_parent r (record s { world = w }) in
      if is_settled s.sc then (ok one_hour, s) else rest

  pub handle_found : Result HermesSelfConfig → Turn W → Result ℕ × Turn W
  unfolding handle
  handle_found (ok sc) s = handle (record s { sc = sc })
  handle_found (err e) s = ((if is_not_found e then ok 0 else err e), s)

  pub reconcile : String → String → Turn W → Result ℕ × Turn W
  unfolding handle_found
  reconcile name namespace s =
      let (r, w) = c.get_self_config name namespace s.world in
      handle_found r (record s { world = w })
