-- ===== src/SelfConfig/Patches.antt =====
-- internal/controller/selfconfig_apply.go: the partial objects that server-side apply gets, and the
-- snapshot Job. An empty field is not claimed, so the partial objects hold only what is set.
mod Tests
pub mod Merge
use Prim.Native.Char.{code}
use Prim.Native.String
use Prim.Native.String.{String}
use hermes_operator.Common.{
  ℕ, Bool, true, false, ◌&&◌, ◌||◌, Option, none, some, List, [], ◌∷◌, ◌++◌, map, concat, is_empty,
  leb, ◌==◌, str_eq, if◌then◌else◌, Entries, put, put_all,
}
use hermes_operator.Api.Spec.{InstanceSkill}
use hermes_operator.Api.Instance.{HermesInstance}
use hermes_operator.Api.SelfConfig.{
  HermesSelfConfig, SelfConfigSkill, SelfConfigKeySelector, SelfConfigEnvVar,
  SelfConfigEnvVarSource, SelfConfigWorkspaceFile, SelfConfigProfileSnapshot,
}
use hermes_operator.Resources.Workspace.{encode_workspace_path, workspace_config_map_name}
use hermes_operator.SelfConfig.{raw_patch, has_patch}

-- `corev1.EnvVar`, with the sources that a request can name.
pub record EnvVar : Type 0 where
  pub name : String
  pub value : String
  pub value_from : Option SelfConfigEnvVarSource

-- A HermesInstance with its identity and the fields to own.
pub record PartialInstance : Type 0 where
  pub name : String
  pub namespace : String
  pub skills : List InstanceSkill
  pub env : List EnvVar

pub record ConfigMap : Type 0 where
  pub name : String
  pub namespace : String
  pub entries : Entries

pub record SnapshotJob : Type 0 where
  pub name : String
  pub namespace : String
  pub profile_id : String
  pub payload : String

abbrev pub new_partial_instance : HermesInstance → PartialInstance
new_partial_instance parent = record {
  name = parent.meta.name;
  namespace = parent.meta.namespace;
  skills = [];
  env = [];
}

abbrev pub to_instance_skill : SelfConfigSkill → InstanceSkill
to_instance_skill s = record { source = s.source; version = s.version }

-- A value and a source exclude each other: the source wins.
abbrev pub env_value : String → Option SelfConfigEnvVarSource → String
env_value value none = value
env_value value (some from) = ""

abbrev pub to_env_var : SelfConfigEnvVar → EnvVar
to_env_var v = record {
  name = v.name;
  value = env_value v.value v.value_from;
  value_from = v.value_from;
}

pub build_skills_patch : HermesInstance → HermesSelfConfig → PartialInstance
build_skills_patch parent sc = record (new_partial_instance parent) {
  skills = map to_instance_skill sc.spec.add_skills;
}

pub build_env_vars_patch : HermesInstance → HermesSelfConfig → PartialInstance
build_env_vars_patch parent sc = record (new_partial_instance parent) {
  env = map to_env_var sc.spec.add_env_vars;
}

unfoldable pub format_applied_field_env : String → String
format_applied_field_env name = concat ("spec.env[name=" ∷ name ∷ "]" ∷ [])

unfoldable pub format_applied_field_skill : String → String
format_applied_field_skill source = concat ("spec.skills[source=" ∷ source ∷ "]" ∷ [])

unfoldable pub format_applied_field_file : String → String
format_applied_field_file path = concat ("workspace-configmap.data[path=" ∷ path ∷ "]" ∷ [])

-- The loop over the files: one without inline content is skipped.
pub file_entries : List SelfConfigWorkspaceFile → Entries → Entries
unfolding put
file_entries [] m = m
file_entries (f ∷ fs) m =
    file_entries fs
      (if is_empty f.content then m else put (encode_workspace_path f.path) f.content m)

abbrev pub new_config_map : HermesInstance → Entries → ConfigMap
new_config_map parent entries = record {
  name = workspace_config_map_name parent;
  namespace = parent.meta.namespace;
  entries = entries;
}

pub build_workspace_files_patch : HermesInstance → HermesSelfConfig → ConfigMap
unfolding file_entries
build_workspace_files_patch parent sc =
    new_config_map parent (file_entries sc.spec.add_workspace_files [])

pub build_patch_config_payload : HermesInstance → HermesSelfConfig → ConfigMap
build_patch_config_payload parent sc = new_config_map parent (
    if has_patch sc.spec.patch_config
    then ("selfconfig.yaml", raw_patch sc.spec.patch_config) ∷ []
    else [])

unfoldable pub merge_config_map_patches : Option ConfigMap → Option ConfigMap → Option ConfigMap
unfolding put_all
merge_config_map_patches none right = right
merge_config_map_patches (some left) none = some left
merge_config_map_patches (some left) (some right) =
    some (record left { entries = put_all right.entries left.entries })

-- internal/resources/snapshot_job.go: the Job's name; `to_lower` is `strings.ToLower`.
is_profile_char : ℕ → Bool
is_profile_char c = (leb b'a' c && leb c b'z') || ((leb b'0' c && leb c b'9') || c == b'-')

pub sanitize : String → String
unfolding is_profile_char
sanitize String.[] = ""
sanitize (String.◌∷◌ c s) =
    if is_profile_char (code c) then String.◌∷◌ c (sanitize s) else String.◌++◌ "-" (sanitize s)

module _ (to_lower : String → String) (format_time : ℕ → String) where
  pub sanitize_profile_id : String → String
  unfolding sanitize
  sanitize_profile_id id = sanitize (to_lower id)

  pub build_snapshot_job : HermesInstance → String → String → ℕ → SnapshotJob
  unfolding sanitize_profile_id
  build_snapshot_job i profile_id payload when = record {
    name =
        concat (
          i.meta.name
          ∷ "-snapshot-"
          ∷ sanitize_profile_id profile_id
          ∷ "-"
          ∷ format_time when
          ∷ []);
    namespace = i.meta.namespace;
    profile_id = profile_id;
    payload = payload;
  }
