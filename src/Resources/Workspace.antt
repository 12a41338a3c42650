-- ===== src/Resources/Workspace.antt =====
-- internal/resources/workspace_configmap.go: the ConfigMap that seeds the workspace, and the encoding
-- of paths into its keys. A path is a native text, read character by character.
pub mod RoundTrip
pub mod Sorted
pub mod Seeded
mod Tests
use Prim.Native.Char.{Char, code}
use Prim.Native.String.{String, compare}
use Prim.Native.Nat.{Ordering}
use hermes_operator.Common.{
  Bool, true, false, ◌&&◌, ◌==◌, if◌then◌else◌, concat, List, [], ◌∷◌, none, str_eq, is_cons,
  Entries, put,
}
use hermes_operator.Api.Spec.{WorkspaceFile}
use hermes_operator.Kube.Cluster.{Object}
use hermes_operator.Resources.Labels.{labels_for_instance}
use hermes_operator.Resources.Names.{semaphore_enabled}
use hermes_operator.Api.Instance.{HermesInstance}

abbrev pub is_slash : Char → Bool
is_slash c = code c == b'/'

-- The characters of a replacement, in front of a text.
abbrev pub prepend : String → String → String
prepend String.[] s = s
prepend (String.◌∷◌ c r) s = String.◌∷◌ c (prepend r s)

-- `strings.ReplaceAll(path, "/", "__")`.
unfoldable pub encode_workspace_path : String → String
encode_workspace_path String.[] = ""
encode_workspace_path (String.◌∷◌ c s) =
    if is_slash c
    then prepend "__" (encode_workspace_path s)
    else String.◌∷◌ c (encode_workspace_path s)

unfoldable pub workspace_config_map_name : HermesInstance → String
workspace_config_map_name i = concat (i.meta.name ∷ "-workspace" ∷ [])

-- A '_'; `starts` tells whether a text begins with one.
abbrev pub is_low : Char → Bool
is_low c = code c == b'_'

abbrev pub starts_low : String → Bool
starts_low String.[] = false
starts_low (String.◌∷◌ c s) = is_low c

abbrev pub drop_one : String → String
drop_one String.[] = ""
drop_one (String.◌∷◌ c s) = s

-- `strings.ReplaceAll(key, "__", "/")`: pairs are replaced from the left; `pending` tells that the
-- character before is a '_' that has not been written yet.
unfoldable pub decode_from : Bool → String → String
decode_from true String.[] = "_"
decode_from false String.[] = ""
decode_from true (String.◌∷◌ c s) =
    let pair = decode_from false s in
    if is_low c then prepend "/" pair else prepend "_" (String.◌∷◌ c pair)
decode_from false (String.◌∷◌ c s) =
    let wait = decode_from true s in
    let copy = decode_from false s in if is_low c then wait else String.◌∷◌ c copy

unfoldable pub decode_workspace_path : String → String
unfolding decode_from
decode_workspace_path key = decode_from false key

-- `a <= b` on texts.
abbrev pub text_le : String → String → Bool
text_le a b = elim (compare a b) [ Ordering.gt ↦ false | _ ↦ true ]

-- `sort.Strings`, and `strings.Join` with a line feed after each.
unfoldable pub insert : String → List String → List String
insert d [] = d ∷ []
insert d (e ∷ ds) = if text_le d e then d ∷ e ∷ ds else e ∷ insert d ds

unfoldable pub sort_strings : List String → List String
unfolding insert
sort_strings [] = []
sort_strings (d ∷ ds) = insert d (sort_strings ds)

abbrev pub lines : List String → String
lines [] = ""
lines (d ∷ ds) = concat (d ∷ "\n" ∷ lines ds ∷ [])

abbrev pub initial_dirs_key : String
initial_dirs_key = "__hermes_initial_dirs__"

-- The desired ConfigMap; `soul` is `SemaphoreSoulBlock`, and `s` the part of an object that a
-- ConfigMap does not have.
module _ (soul : String) where
  abbrev pub file_content : HermesInstance → WorkspaceFile → String
  file_content i f =
      if str_eq f.path "SOUL.md" && semaphore_enabled i
      then concat (soul ∷ "\n" ∷ f.content ∷ [])
      else f.content

  unfoldable pub seed_files : HermesInstance → List WorkspaceFile → Entries → Entries
  seed_files i [] seeded = seeded
  seed_files i (f ∷ fs) seeded =
      seed_files i fs (put (encode_workspace_path f.path) (file_content i f) seeded)

  unfoldable pub seed_dirs : List String → Entries → Entries
  unfolding sort_strings
  seed_dirs dirs seeded =
      if is_cons dirs then put initial_dirs_key (lines (sort_strings dirs)) seeded else seeded

  unfoldable pub build_workspace_config_map : {S : Type 0} → S → HermesInstance → Object S
  unfolding seed_files seed_dirs
  build_workspace_config_map s i = record {
    labels = labels_for_instance i;
    annotations = [];
    owner = none;
    secret_type = "";
    entries =
        seed_dirs i.spec.workspace.initial_dirs (seed_files i i.spec.workspace.initial_files []);
    cluster_ip = "";
    cluster_ips = [];
    finalizers = [];
    deletion_timestamp = none;
    spec = s;
  }
