-- ===== src/Controller.antt =====
-- internal/controller: what the sub-controllers of a HermesInstance share. A handler runs over the
-- instance in memory, the world behind the client, and the events recorded so far; its steps are
-- the calls of the client, in the order of the source, with the early returns of the source.
pub mod Names
pub mod Rules
pub mod After
use hermes_operator.Common.{
  ℕ, String, Bool, true, false, Option, none, some, List, [], ◌∷◌, ◌++◌, str_eq, if◌then◌else◌,
}
use hermes_operator.Common.Flow.{Flow, stop, go, M}
use hermes_operator.Api.Spec.{StringMap}
use hermes_operator.Api.Status.{
  Condition, ConditionStatus, HermesInstanceStatus, AutoUpdateStatus, BackupStatus,
}
use hermes_operator.Api.Instance.{HermesInstance, ObjectMeta}
use hermes_operator.Kube.Result.{Result, ok, err, Err}
use hermes_operator.Kube.Objects.{Emitted, EventType}
use hermes_operator.Kube.Client.{answer_or}

pub record St (W : Type 0) : Type 0 where
  pub inst : HermesInstance
  pub world : W
  pub events : List Emitted

-- A value, or the return that the handler takes on its error.
abbrev pub check : {S R A : Type 0} → Result A → (Err → R) → M S R A
check (ok a) k s = go a s
check (err e) k s = stop (k e) s

-- A call of the client.
abbrev pub call : {W R A : Type 0} → (W → Result A × W) → (Err → R) → M (St W) R A
call f k s = let (r, w) = f s.world in check r k (record s { world = w })

-- A call whose error the handler inspects or ignores.
abbrev pub try : {W R A : Type 0} → (W → Result A × W) → M (St W) R (Result A)
try f s = let (r, w) = f s.world in go r (record s { world = w })

-- A read that cannot fail.
abbrev pub read : {W R A : Type 0} → (W → A × W) → M (St W) R A
read f s = let (a, w) = f s.world in go a (record s { world = w })

-- A write of the instance: the server's answer replaces the instance in memory.
abbrev pub store : {W R : Type 0} → Result HermesInstance → (Err → R) → M (St W) R (Unit {0})
store (ok i) k s = go tt (record s { inst = i })
store (err e) k s = stop (k e) s

abbrev pub write :
    {W R : Type 0}
    → (HermesInstance → W → Result HermesInstance × W)
    → (Err → R)
    → M (St W) R (Unit {0})
write f k s = let (r, w) = f s.inst s.world in store r k (record s { world = w })

-- A write of the instance whose error is ignored.
abbrev pub attempt :
    {W R : Type 0} → (HermesInstance → W → Result HermesInstance × W) → M (St W) R (Unit {0})
attempt f s =
    let (r, w) = f s.inst s.world in go tt (record s { inst = answer_or r s.inst; world = w })

-- `Recorder.Eventf`.
abbrev pub emit : {W R : Type 0} → EventType → String → M (St W) R (Unit {0})
emit t reason s =
    go tt (record s { events = s.events ++ record { type = t; reason = reason } ∷ [] })

abbrev pub change : {W R : Type 0} → (HermesInstance → HermesInstance) → M (St W) R (Unit {0})
change f s = go tt (record s { inst = f s.inst })

-- The instance as it stands.
abbrev pub instance_now : {W R : Type 0} → M (St W) R HermesInstance
instance_now s = go s.inst s

-- Fields of the instance that handlers assign.
abbrev pub set_auto_update : (AutoUpdateStatus → AutoUpdateStatus) → HermesInstance → HermesInstance
set_auto_update f i = record i { status = record i.status { auto_update = f i.status.auto_update } }

abbrev pub set_backup : (BackupStatus → BackupStatus) → HermesInstance → HermesInstance
set_backup f i = record i { status = record i.status { backup = f i.status.backup } }

abbrev pub set_conditions : (List Condition → List Condition) → HermesInstance → HermesInstance
set_conditions f i = record i { status = record i.status { conditions = f i.status.conditions } }

abbrev pub set_annotations : (StringMap → StringMap) → HermesInstance → HermesInstance
set_annotations f i = record i { meta = record i.meta { annotations = f i.meta.annotations } }

abbrev pub set_finalizers : (List String → List String) → HermesInstance → HermesInstance
set_finalizers f i = record i { meta = record i.meta { finalizers = f i.meta.finalizers } }

-- A condition of the instance at its generation.
abbrev pub condition : HermesInstance → String → ConditionStatus → String → Condition
condition i t status reason = record {
  type = t;
  status = status;
  reason = reason;
  observed_generation = i.meta.generation;
}

-- `m[k]`, "" on a missing key.
unfoldable pub annotation : String → StringMap → String
annotation k [] = ""
annotation k ((j, v) ∷ m) = if str_eq j k then v else annotation k m

-- `m[k] = v`.
unfoldable pub annotate : String → String → StringMap → StringMap
annotate k v [] = (k, v) ∷ []
annotate k v ((j, u) ∷ m) = if str_eq j k then (k, v) ∷ m else (j, u) ∷ annotate k v m

-- `delete(m, k)`.
unfoldable pub unannotate : String → StringMap → StringMap
unannotate k [] = []
unannotate k ((j, u) ∷ m) = if str_eq j k then unannotate k m else (j, u) ∷ unannotate k m
