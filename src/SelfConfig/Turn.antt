-- ===== src/SelfConfig/Turn.antt =====
-- internal/controller/hermesselfconfig_controller.go, selfconfig_events.go, selfconfig_metrics.go:
-- the state of a turn of the controller, what is not in the repository, and the parts of the
-- handler that only compute. Every write to the API server is kept in the order in which it is
-- issued, whether it succeeds or not.
use hermes_operator.Common.{
  ℕ, String, Bool, true, false, not, ◌&&◌, ◌==◌, Option, none, some, List, [], ◌∷◌, ◌++◌, map,
  is_empty, is_cons, str_eq, if◌then◌else◌,
}
use hermes_operator.Kube.Result.{Result, ok, err, Err, is_already_exists, wrap}
use hermes_operator.Kube.Objects.{EventType}
use hermes_operator.Api.Features.{SelfConfigAction}
use hermes_operator.Api.Instance.{HermesInstance}
use hermes_operator.Api.SelfConfig.{
  HermesSelfConfig, SelfConfigPhase, unset, pending, applied, denied,
}
use hermes_operator.Controller.{annotation}
use hermes_operator.SelfConfig.{Fields, has_patch}
use hermes_operator.SelfConfig.Patches.{
  PartialInstance, ConfigMap, SnapshotJob, build_skills_patch, build_env_vars_patch,
  build_workspace_files_patch, build_patch_config_payload, merge_config_map_patches,
  format_applied_field_file,
}

-- Why a request is denied; its text is made by `fmt.Sprintf`.
pub data DenyReason : Type 0 where
  parent_not_found : String → DenyReason
  disabled no_mutations : DenyReason
  not_allowed : List SelfConfigAction → List SelfConfigAction → DenyReason
  invalid_patch : Err → DenyReason
  protected_path : String → DenyReason
  apply_failed : Err → DenyReason

-- A server-side apply with its force option, or the creation of a Job.
pub data Write : Type 0 where
  apply_instance : PartialInstance → Bool → Write
  apply_config_map : ConfigMap → Bool → Write
  create_job : SnapshotJob → Write

pub data Target : Type 0 where
  on_request on_parent : Target

pub record SelfConfigEvent : Type 0 where
  pub target : Target
  pub type : EventType
  pub reason : String

-- The counters `hermes_selfconfig_denied_total` and `hermes_selfconfig_applied_total`: one entry for
-- each increment, by its reason or its action; the labels of the parent are left out.
pub record Counted : Type 0 where
  pub denied_for : List DenyReason
  pub applied_for : List SelfConfigAction

-- What is not in the repository: the API server and the clock over a world that every call may
-- change, and the libraries' texts.
pub record SelfConfigClient (W : Type 0) : Type 0 where
  pub get_self_config : String → String → W → Result HermesSelfConfig × W
  pub get_instance : String → String → W → Result HermesInstance × W
  pub perform : Write → W → Result (Unit {0}) × W
  pub update_status : HermesSelfConfig → W → Result HermesSelfConfig × W
  pub now : W → ℕ × W
  pub sprintf : DenyReason → String
  pub to_lower : String → String
  pub format_time : ℕ → String
  pub unmarshal : String → Option Fields
  pub compile : String → Option (String → Bool)

pub record Turn (W : Type 0) : Type 0 where
  pub sc : HermesSelfConfig
  pub world : W
  pub writes : List Write
  pub events : List SelfConfigEvent
  pub counted : Counted

abbrev pub one_hour : ℕ
one_hour = 3600

abbrev pub phase_settled : SelfConfigPhase → Bool
phase_settled unset = false
phase_settled pending = false
phase_settled applied = true
phase_settled denied = true

-- The canary: this generation has been decided.
abbrev pub is_settled : HermesSelfConfig → Bool
is_settled sc =
    (sc.status.observed_generation == sc.meta.generation) && phase_settled sc.status.phase

abbrev pub force_ownership : HermesSelfConfig → Bool
force_ownership sc = str_eq (annotation "hermes.agent/force-ownership" sc.meta.annotations) "true"

-- The ConfigMap to apply: that of the patch, merged with that of the files.
abbrev pub config_map_patch : HermesInstance → HermesSelfConfig → Option ConfigMap
config_map_patch parent sc =
    let patch =
      if has_patch sc.spec.patch_config
      then some (build_patch_config_payload parent sc)
      else none in
    if is_cons sc.spec.add_workspace_files
    then merge_config_map_patches patch (some (build_workspace_files_patch parent sc))
    else patch

abbrev pub config_map_fields : HermesSelfConfig → List String
config_map_fields sc =
    (if has_patch sc.spec.patch_config
      then "workspace-configmap.data[key=selfconfig.yaml]" ∷ []
      else [])
    ++ map (λ f. format_applied_field_file f.path) sc.spec.add_workspace_files

-- `emitSelfConfigEvent`, with a recorder that is set.
abbrev pub events_of : HermesInstance → EventType → String → List SelfConfigEvent
events_of parent t reason =
    record { target = on_request; type = t; reason = reason }
    ∷ (if not (is_empty parent.meta.name)
        then record { target = on_parent; type = t; reason = reason } ∷ []
        else [])

abbrev pub events_for : Option HermesInstance → EventType → String → List SelfConfigEvent
events_for none t reason = record { target = on_request; type = t; reason = reason } ∷ []
events_for (some parent) t reason = events_of parent t reason

-- A Job that exists is no error.
abbrev pub tolerated : Write → Result (Unit {0}) → Result (Unit {0})
tolerated x (ok u) = ok u
tolerated (create_job j) (err e) = if is_already_exists e then ok tt else err e
tolerated (apply_instance i f) (err e) = err e
tolerated (apply_config_map m f) (err e) = err e

-- A JSON merge patch that cannot be checked, or that names a protected path.
abbrev pub patch_verdict : Result String → Option DenyReason
patch_verdict (err e) = some (invalid_patch e)
patch_verdict (ok hit) = if is_empty hit then none else some (protected_path hit)

-- The first error of a server-side apply ends `applyAll`. The fields that it returns with an error
-- are dropped by its caller.
abbrev pub failed_with : String → Err → Result (List String)
failed_with stage e = err (wrap stage e)

-- The writes of the stages of `applyAll`, none where the request leaves one out.
abbrev pub skills_write : HermesInstance → HermesSelfConfig → Option Write
skills_write parent sc =
    if is_cons sc.spec.add_skills
    then some (apply_instance (build_skills_patch parent sc) (force_ownership sc))
    else none

abbrev pub env_vars_write : HermesInstance → HermesSelfConfig → Option Write
env_vars_write parent sc =
    if is_cons sc.spec.add_env_vars
    then some (apply_instance (build_env_vars_patch parent sc) (force_ownership sc))
    else none

abbrev pub config_map_write : Option ConfigMap → HermesSelfConfig → Option Write
config_map_write none sc = none
config_map_write (some m) sc = some (apply_config_map m (force_ownership sc))
