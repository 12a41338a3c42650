-- ===== src/Webhook/Requests.antt =====
-- internal/webhook/webhook_hermesselfconfig.go and webhook_hermesclusterdefaults.go: the validators
-- of a request of an agent and of the cluster's defaults. A request of another kind is left out.
pub mod Accepts
mod Tests
use hermes_operator.Common.{
  ℕ, String, Bool, true, false, not, ◌&&◌, ◌+◌, Option, none, some, List, [], ◌∷◌, is_empty,
  is_some, is_cons, ltb, bool_value, str_eq, if◌then◌else◌,
}
use hermes_operator.Common.Flow.{◌>>◌, ◌>>=◌, when, exit, return_if}
use hermes_operator.Kube.Result.{Result, ok, err, Err, is_not_found}
use hermes_operator.Api.Instance.{HermesInstance}
use hermes_operator.Api.SelfConfig.{HermesSelfConfig}
use hermes_operator.Api.ClusterDefaults.{HermesClusterDefaults}
use hermes_operator.SelfConfig.{Fields, has_patch, raw_patch}
use hermes_operator.Webhook.{
  Check, Denial, warn, pass, many_mutations, instance_ref_required, no_such_parent,
  snapshot_needs_honcho, invalid_merge_patch, parent_unreadable, not_singleton,
}

-- The number of flags that are set.
abbrev pub count : List Bool → ℕ
count [] = 0
count (b ∷ bs) = let rest = count bs in if b then rest + 1 else rest

unfoldable pub mutations : HermesSelfConfig → ℕ
mutations sc = count (
    is_cons sc.spec.add_skills
    ∷ has_patch sc.spec.patch_config
    ∷ is_cons sc.spec.add_env_vars
    ∷ is_cons sc.spec.add_workspace_files
    ∷ is_some sc.spec.add_profile_snapshot
    ∷ [])

-- `v.Client`, nil in some tests: the read of an instance by its namespace and name.
abbrev pub InstanceClient : Type 0 → Type 0
InstanceClient W = Option (String → String → W → Result HermesInstance × W)

module _ {W : Type 0} (client : InstanceClient W) (unmarshal : String → Option Fields) where
  pub parent_answer : HermesSelfConfig → Result HermesInstance → Check W
  parent_answer sc (ok parent) =
      return_if
        (is_some sc.spec.add_profile_snapshot
          && not (bool_value parent.spec.profile_store.honcho.enabled))
        snapshot_needs_honcho
  parent_answer sc (err e) = exit (if is_not_found e then no_such_parent else parent_unreadable e)

  pub check_parent : HermesSelfConfig → Check W
  unfolding parent_answer
  check_parent sc s = elim client [
    | none ↦ pass s
    | some get ↦
        let (r, w) = get sc.meta.namespace sc.spec.instance_ref s.world in
        parent_answer sc r (record s { world = w })
  ]

  pub check_patch : Option String → Check W
  check_patch patch =
      when (has_patch patch)
        (return_if (not (is_some (unmarshal (raw_patch patch)))) invalid_merge_patch)

  pub validate : HermesSelfConfig → Check W
  unfolding check_parent check_patch mutations
  validate sc = do
    return_if (is_empty sc.spec.instance_ref) instance_ref_required
    check_parent sc
    check_patch sc.spec.patch_config
    when (ltb 1 (mutations sc)) (warn many_mutations)

-- The singleton.
pub validate_hcd : {W : Type 0} → HermesClusterDefaults → Check W
validate_hcd d = return_if (not (str_eq d.name "cluster")) (not_singleton d.name)
