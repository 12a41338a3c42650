-- ===== src/Controller/Names.antt =====
-- internal/controller/job_utils.go and s3.go, internal/resources: the names of what belongs to an
-- instance, and the test for a finished Job.
use Prim.Native.Char.{code}
use Prim.Native.String.{String, [], ◌∷◌}
use mathlib.Core.List.{List}
use hermes_operator.Common.{
  Bool, false, not, ◌&&◌, Option, none, some, concat, is_empty, str_eq, if◌then◌else◌, ◌==◌,
}
use hermes_operator.Api.Instance.{HermesInstance}
use hermes_operator.Api.Features.{BackupS3Spec}
use hermes_operator.Kube.Objects.{
  JobConditionType, JobCondition, JobStatus, complete, failed, suspended,
}

-- "a", "b" joined, as by `fmt.Sprintf("%s%s", a, b)`.
abbrev two : String → String → String
two a b = concat (List.◌∷◌ a (List.◌∷◌ b List.[]))

pub stateful_set_name : HermesInstance → String
stateful_set_name i = i.meta.name

unfoldable pub final_backup_job_name : HermesInstance → String
final_backup_job_name i = two i.meta.name "-backup-final"

pub pre_update_backup_job_name : HermesInstance → String
pre_update_backup_job_name i = two i.meta.name "-backup-preupdate"

pub backup_cron_job_name : HermesInstance → String
backup_cron_job_name i = two i.meta.name "-backup-cron"

pub backup_prune_cron_job_name : HermesInstance → String
backup_prune_cron_job_name i = two i.meta.name "-backup-prune"

-- `resources.StatefulSetName(inst) + "-0"`.
pub pod_name : HermesInstance → String
unfolding stateful_set_name
pod_name i = two (stateful_set_name i) "-0"

-- `strings.HasSuffix(s, "/")`.
pub ends_in_slash : String → Bool
ends_in_slash [] = false
ends_in_slash (c ∷ []) = code c == b'/'
ends_in_slash (c ∷ d ∷ s) = ends_in_slash (d ∷ s)

abbrev pub key_prefix : Option BackupS3Spec → String
key_prefix none = ""
key_prefix (some s3) =
    if not (is_empty s3.path_prefix) && not (ends_in_slash s3.path_prefix)
    then two s3.path_prefix "/"
    else s3.path_prefix

pub snapshot_key : HermesInstance → String → String → String
unfolding ends_in_slash
snapshot_key i kind timestamp =
    let place = two (key_prefix i.spec.backup.s3) (two i.meta.namespace (two "/" i.meta.name)) in
    if str_eq kind "failed"
    then two place (two "/failed/" (two timestamp ".tar.zst"))
    else two place (two "/" (two timestamp ".tar.zst"))

-- `IsJobFinished`: the first condition that is terminal and true.
abbrev pub is_terminal : JobCondition → Bool
is_terminal c = elim c.type [ complete ↦ c.is_true | failed ↦ c.is_true | suspended ↦ false ]

first_terminal : List JobCondition → Option JobConditionType
first_terminal List.[] = none
first_terminal (List.◌∷◌ c cs) = if is_terminal c then some c.type else first_terminal cs

-- The type of the condition if the Job is finished.
unfoldable pub is_job_finished : JobStatus → Option JobConditionType
unfolding first_terminal
is_job_finished job = first_terminal job.conditions
