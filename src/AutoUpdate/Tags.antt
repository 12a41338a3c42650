-- ===== src/AutoUpdate/Tags.antt =====
-- internal/controller/autoupdate.go, seen from outside: the four tags of `status.autoUpdate` and
-- the moves that one turn of the sub-controller may make with them.
pub mod Coherent
use hermes_operator.Common.{
  String, Bool, true, false, ◌≡◌, ◌≢◌, refl, sym, ◌∙◌, arith, eq_iff, is_empty, str_eq,
  if◌then◌else◌,
}
use hermes_operator.Api.Instance.{HermesInstance}
use hermes_operator.Kube.Client.{Client, answer_or}

pub record Tags : Type 0 where
  pub current : String
  pub target : String
  pub last_success : String
  pub last_failed : String

abbrev pub tags_of : HermesInstance → Tags
tags_of i = record {
  current = i.status.auto_update.current_tag;
  target = i.status.auto_update.target_tag;
  last_success = i.status.auto_update.last_success_tag;
  last_failed = i.status.auto_update.last_failed_tag;
}

-- The tag that runs, and the tag to go back to, with the tag of the spec where none is recorded.
abbrev pub running : String → Tags → String
running spec_tag t = if is_empty t.current then spec_tag else t.current

abbrev pub previous : String → Tags → String
previous spec_tag t = if is_empty t.last_success then spec_tag else t.last_success

-- One turn, for the tag of the spec and whether rollbacks are enabled.
pub data Step (spec_tag : String) (rollbacks : Bool) (t : Tags) : Tags → Type 0 where
  same : Step spec_tag rollbacks t t
  start :
      (tag : String)
      → t.target ≡ ""
      → tag ≢ t.last_failed
      → tag ≢ running spec_tag t
      → Step spec_tag rollbacks t (record t { target = tag })
  confirm :
      t.target ≢ ""
      → Step spec_tag rollbacks t
          (record t { current = t.target; target = ""; last_success = t.target })
  roll_back :
      t.target ≢ ""
      → rollbacks ≡ true
      → Step spec_tag rollbacks t
          (record t { current = previous spec_tag t; target = ""; last_failed = t.target })

-- What the answers of the API server keep while no other client writes the status: the answer to
-- a patch of the metadata carries the tags that the instance has.
pub record IsSoleWriter {W : Type 0} (c : Client W) : Type 0 where
  pub tags-patch_instance :
      (o i : HermesInstance) (w : W) → tags_of (answer_or (c.patch_instance o i w).0 i) ≡ tags_of i

-- The tag that runs is the one to go back to, and a rollout is never to the tag that runs.
abbrev pub IsCoherent : String → Tags → Type 0
IsCoherent spec_tag t =
    (running spec_tag t ≡ previous spec_tag t) × (t.target ≢ "" → t.target ≢ running spec_tag t)
