-- ===== src/SelfConfig/Policy.antt =====
-- internal/controller/selfconfig_policy.go. `json.Unmarshal` into a map and `glob.Compile` of
-- gobwas/glob with the separator '.' are parameters.
mod Tests
pub mod Paths
pub mod Protected
pub mod Actions
use hermes_operator.Common.{
  String, Bool, true, false, not, ◌&&◌, ◌||◌, Option, none, some, List, [], ◌∷◌, ◌++◌, is_empty,
  is_cons, is_some, any, concat, if◌then◌else◌,
}
use hermes_operator.Kube.Result.{Result, ok, err, Err, plain}
use hermes_operator.Api.Features.{
  SelfConfigAction, skills, config, env_vars, workspace_files, profiles,
}
use hermes_operator.Api.SelfConfig.{HermesSelfConfig}
use hermes_operator.SelfConfig.{Json, Fields, scalar, object, end, field, same_action, has_patch}

abbrev pub action_if : Bool → SelfConfigAction → List SelfConfigAction
action_if b a = if b then a ∷ [] else []

unfoldable pub determine_actions : HermesSelfConfig → List SelfConfigAction
determine_actions sc =
    action_if (is_cons sc.spec.add_skills) skills
    ++ (action_if (has_patch sc.spec.patch_config) config
        ++ (action_if (is_cons sc.spec.add_env_vars) env_vars
            ++ (action_if (is_cons sc.spec.add_workspace_files) workspace_files
                ++ action_if (is_some sc.spec.add_profile_snapshot) profiles)))

-- The set of allowed actions is only asked for members.
unfoldable pub check_allowed_actions :
    List SelfConfigAction → List SelfConfigAction → List SelfConfigAction
check_allowed_actions [] allowed = []
check_allowed_actions (a ∷ requested) allowed =
    let denied = check_allowed_actions requested allowed in
    if any (same_action a) allowed then denied else a ∷ denied

unfoldable pub join_path : String → String → String
join_path prefix key = if is_empty prefix then key else concat (prefix ∷ "." ∷ key ∷ [])

-- `prefix != "" && fn(prefix)`.
abbrev pub stops : String → (String → Bool) → Bool
stops prefix f = not (is_empty prefix) && f prefix

abbrev pub first_hit : Option String → Option String → Option String
first_hit none later = later
first_hit (some p) later = some p

-- `walk`, with the path at which `fn` returned true, none for false.
unfoldable mutual
  unfolding join_path

  pub walk : Json → String → (String → Bool) → Option String
  walk scalar prefix f = if stops prefix f then some prefix else none
  walk (object fs) prefix f =
      let below = walk_fields fs prefix f in if stops prefix f then some prefix else below

  pub walk_fields : Fields → String → (String → Bool) → Option String
  walk_fields end prefix f = none
  walk_fields (field k v fs) prefix f =
      first_hit (walk v (join_path prefix k) f) (walk_fields fs prefix f)

abbrev pub matches_any : List (String → Bool) → String → Bool
matches_any [] path = false
matches_any (g ∷ globs) path = g path || matches_any globs path

abbrev pub hit_or_empty : Option String → String
hit_or_empty none = ""
hit_or_empty (some p) = p

module _ (unmarshal : String → Option Fields) (compile : String → Option (String → Bool)) where
  abbrev pub add_glob :
      Option (String → Bool) → Result (List (String → Bool)) → Result (List (String → Bool))
  add_glob none rest = err (plain "invalid protectedKeys pattern")
  add_glob (some g) (ok globs) = ok (g ∷ globs)
  add_glob (some g) (err e) = err e

  unfoldable pub compile_all : List String → Result (List (String → Bool))
  compile_all [] = ok []
  compile_all (p ∷ protected) = add_glob (compile p) (compile_all protected)

  abbrev pub hit_of : Fields → Result (List (String → Bool)) → Result String
  hit_of tree (ok globs) = ok (hit_or_empty (walk (object tree) "" (matches_any globs)))
  hit_of tree (err e) = err e

  abbrev pub check_tree : Option Fields → List String → Result String
  check_tree none protected = err (plain "invalid JSON merge patch")
  check_tree (some tree) protected = hit_of tree (compile_all protected)

  unfoldable pub check_protected_paths : String → List String → Result String
  unfolding compile_all
  check_protected_paths patch protected =
      if is_empty patch || not (is_cons protected)
      then ok ""
      else check_tree (unmarshal patch) protected
