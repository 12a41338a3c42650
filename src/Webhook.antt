-- ===== src/Webhook.antt =====
-- internal/webhook: the admission webhooks. A validator runs over the world behind its client and
-- the warnings collected so far, and stops with a denial; the warnings are answered either way. A
-- warning or a denial has a constructor for each message of the source, with the values in it.
mod Answers
mod Decides
pub mod Sanity
pub mod Sources
pub mod Gateways
pub mod Tailscale
pub mod Validate
pub mod Defaults
pub mod Requests
use hermes_operator.Common.{ℕ, String, Option, none, some, List, [], ◌∷◌, ◌++◌}
use hermes_operator.Common.Flow.{Flow, stop, go, M}
use hermes_operator.Kube.Result.{Result, Err}

pub data Warning : Type 0 where
  secret_absent : String → String → String → Warning
  key_absent : String → String → String → Warning
  raw_and_ref runtime_deprecated latest_tag many_mutations : Warning
  credentials_unresolved : String → String → Warning

-- An entry of a `field.ErrorList`.
pub data FieldError : Type 0 where
  restore_and_migration migration_source restore_from_changed migration_changed : FieldError

pub data Denial : Type 0 where
  invalid : List FieldError → Denial
  storage_class_immutable name_immutable : Denial
  repository_required size_required : Denial
  protected_keys_required allowed_actions_required : Denial
  unknown_action : String → Denial
  both_disruption_bounds min_above_max : Denial
  secret_ref_required : String → Denial
  look_up_failed : String → Err → Denial
  auth_key_required : Denial
  sidecar_collides volume_collides : ℕ → String → Denial
  instance_ref_required no_such_parent snapshot_needs_honcho invalid_merge_patch : Denial
  parent_unreadable : Err → Denial
  not_singleton : String → Denial

-- A Secret, of which only the keys of its data are read.
pub record Secret : Type 0 where
  pub keys : List String

pub record Admission (W : Type 0) : Type 0 where
  pub world : W
  pub warnings : List Warning

-- `v.Client`, nil in some tests: the read of a Secret by its namespace and name.
abbrev pub SecretClient : Type 0 → Type 0
SecretClient W = Option (String → String → W → Result Secret × W)

abbrev pub Check : Type 0 → Type 0
Check W = M (Admission W) Denial (Unit {0})

abbrev pub warn : {W : Type 0} → Warning → Check W
warn x s = go tt (record s { warnings = s.warnings ++ x ∷ [] })

-- Nothing to check.
abbrev pub pass : {W : Type 0} → Check W
pass s = go tt s

abbrev pub denial_of : {W : Type 0} → Flow (Admission W) Denial (Unit {0}) → Option Denial
denial_of (stop d s) = some d
denial_of (go u s) = none
