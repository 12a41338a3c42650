-- ===== src/AutoUpdate.antt =====
-- internal/controller/autoupdate.go: the sub-controller that polls the registry, rolls a new tag
-- out and rolls it back. The world is behind the client; times and requeues are in seconds. The
-- texts of events and conditions are left out, and with them the clock reads that only they make.
pub mod Tags
pub mod Keeps
pub mod Interval
pub mod Rollout
pub mod Drive
pub mod Poll
use hermes_operator.Common.{ℕ, String, Bool, Option}
use hermes_operator.Kube.Library.{Library}
use hermes_operator.Kube.Client.{Client}
use hermes_operator.Oci.Tags.{Semver}

-- A `time.Duration` in whole seconds; `negsuc n` is -(n + 1).
pub data ℤ : Type 0 where
  pos : ℕ → ℤ
  negsuc : ℕ → ℤ

-- The reconciler's fields, with the packages that it calls: `registry_set` and `backup_set` tell
-- whether `Registry` and `Backup` are not nil, and `parse_duration` is `time.ParseDuration`.
pub record AutoUpdateReconciler (V C W : Type 0) : Type 0 where
  pub library : Library
  pub client : Client W
  pub semver : Semver V C
  pub registry_set : Bool
  pub backup_set : Bool
  pub parse_duration : String → Option ℤ

abbrev pub rollout_window : ℕ
rollout_window = 300
