-- ===== src/Latches.antt =====
-- internal/controller/restore.go and migration.go: the sub-controllers that wait for an init
-- container of the instance's Pod and then latch that it has finished.
pub mod Restore
pub mod Migration
pub mod Life
mod Tests
use hermes_operator.Common.{
  refl, ◌≢◌, All, arith, eq_iff, ◌⊎◌, inl, inr, ℕ, String, Bool, true, false, Option, none, some,
  List, [], ◌∷◌, ◌++◌, ◌≡◌, ◌==◌, str_eq, if◌then◌else◌,
}
use hermes_operator.Kube.Result.{Result, ok, err, Err, is_not_found}
use hermes_operator.Kube.Objects.{Terminated, InitContainerStatus, Pod}
use hermes_operator.Api.Instance.{HermesInstance}
use hermes_operator.Kube.Client.{Client, IsApiServer, answer_or}
use hermes_operator.Common.Flow.{M, run, ◌>>◌}
use hermes_operator.Api.Spec.{HermesInstanceSpec}
use hermes_operator.Controller.{St, write}
use hermes_operator.Controller.Names.{pod_name}
use hermes_operator.Controller.Rules.{write_rule, Leaves}

-- `(done, error)`; the `ctrl.Result` is empty on every return.
pub record Progress : Type 0 where
  pub done : Bool
  pub error : Option Err

abbrev pub waiting : Progress
waiting = record { done = false; error = none }

abbrev pub finished : Progress
finished = record { done = true; error = none }

abbrev pub broken : Bool → Err → Progress
broken done e = record { done = done; error = some e }

-- What the loop over the init containers finds: the first container of that name that has
-- terminated, with its message.
pub data Verdict : Type 0 where
  succeeded failed : String → Verdict
  running : Verdict

abbrev pub exit_verdict : Terminated → Verdict
exit_verdict t = if t.exit_code == 0 then succeeded t.message else failed t.message

abbrev pub container_verdict : Option Terminated → Verdict → Verdict
container_verdict none later = later
container_verdict (some t) later = exit_verdict t

pub init_verdict : String → List InitContainerStatus → Verdict
init_verdict name [] = running
init_verdict name (cs ∷ rest) =
    let later = init_verdict name rest in
    if str_eq cs.name name then container_verdict cs.terminated later else later

-- A missing Pod is no error.
abbrev pub pod_verdict : String → Pod → Verdict
pod_verdict name pod = init_verdict name pod.init_container_statuses

abbrev pub not_found_or : Err → Progress
not_found_or e = if is_not_found e then waiting else broken false e

-- The API server answers a status update with the spec that it has stored, which the resource
-- version of the update pins.
pub record KeepsSpec {W : Type 0} (c : Client W) : Type 0 where
  pub spec-update_status :
      (i : HermesInstance) (w : W) → (answer_or (c.update_status i w).0 i).spec ≡ i.spec

-- What the two latches are about: the spec, the source that was restored from, and whether the
-- migration is completed.
abbrev pub View : Type 0
View = HermesInstanceSpec × String × Bool

abbrev pub view : HermesInstance → View
view i = (i.spec, i.status.restored_from, i.status.migration.completed)

-- A container of that name has exited with 0, with that message.
abbrev pub HasExited : String → String → List InitContainerStatus → Type 0
HasExited name message [] = ⊥
HasExited name message (cs ∷ rest) =
    ((cs.name ≡ name)
      × (t : Terminated) × (cs.terminated ≡ some t)
      × (t.exit_code ≡ 0)
      × (t.message ≡ message))
    ⊎ HasExited name message rest

exit_verdict-succeeded :
    (b : Bool) (code : ℕ) (said message : String)
    → code == 0 ≡ b
    → (if b then succeeded said else failed said) ≡ succeeded message
    → (code ≡ 0) × (said ≡ message)
exit_verdict-succeeded true code said message e q = (ground arith, cc)
exit_verdict-succeeded false code said message e q = absurd (ground arith)

-- One round of the loop, for the test on its name.
round-HasExited :
    (b : Bool) (name message : String) (cs : InitContainerStatus) (o : Option Terminated)
    (later : Verdict) (rest : List InitContainerStatus)
    → str_eq cs.name name ≡ b
    → cs.terminated ≡ o
    → (later ≡ succeeded message → HasExited name message rest)
    → (if b then container_verdict o later else later) ≡ succeeded message
    → HasExited name message (cs ∷ rest)
round-HasExited false name message cs o later rest e t k q = inr (k q)
round-HasExited true name message cs none later rest e t k q = inr (k q)
round-HasExited true name message cs (some x) later rest e t k q =
    let (zero_code, said) =
      exit_verdict-succeeded (x.exit_code == 0) x.exit_code x.message message refl q in
    inl (ground (arith, eq_iff cs.name name), x, t, zero_code, said)

init_verdict-HasExited :
    (name message : String) (statuses : List InitContainerStatus)
    → init_verdict name statuses ≡ succeeded message
    → HasExited name message statuses
unfolding init_verdict
init_verdict-HasExited name message [] e = absurd (ground arith)
init_verdict-HasExited name message (cs ∷ rest) e =
    round-HasExited (str_eq cs.name name) name message cs cs.terminated (init_verdict name rest)
      rest refl refl (init_verdict-HasExited name message rest) e

-- The first container of the name that has terminated decides.
pub init_verdict-first :
    (name : String) (t : Terminated) (before after : List InitContainerStatus)
    → All (λ cs. (cs.name ≢ name) ⊎ (cs.terminated ≡ none)) before
    → init_verdict name (before ++ (record { name = name; terminated = some t } ∷ after))
      ≡ exit_verdict t
unfolding init_verdict
init_verdict-first name t [] after waiting = ground (arith, eq_iff name name)
init_verdict-first name t (cs ∷ before) after waiting = elim waiting.0 [
  | inl other ↦
      ground (arith, eq_iff cs.name name, init_verdict-first name t before after waiting.1)
  | inr none' ↦ rw none' (ground (arith, init_verdict-first name t before after waiting.1))
]

-- The answer of the API server for the instance's Pod, asked in `w`, says how the container ended.
abbrev pub HasEnded : {W : Type 0} → Client W → String → HermesInstance → W → Type 0
HasEnded c container i w =
    (pod : Pod) × (message : String) × ((c.get_pod (pod_name i) i.meta.namespace w).0 ≡ ok pod)
    × HasExited container message pod.init_container_statuses

-- A Pod for which the loop answers that the container has succeeded.
pub verdict-HasEnded :
    {W : Type 0} (c : Client W) (container message : String) (i : HermesInstance) (w : W)
    (pod : Pod)
    → (c.get_pod (pod_name i) i.meta.namespace w).0 ≡ ok pod
    → pod_verdict container pod ≡ succeeded message
    → HasEnded c container i w
verdict-HasEnded c container message i w pod e q =
    (pod, message, e, init_verdict-HasExited container message pod.init_container_statuses q)

module _ {W : Type 0} (c : Client W) (h : IsApiServer c) (k : KeepsSpec c) (v : View) where
  -- A status update keeps the view of the instance in memory.
  pub view_rule :
      {R : Type 0} (on_error : Err → R) (m : M (St W) R R) (s : St W)
      → view s.inst ≡ v
      → ((i : HermesInstance) (w : W)
          → view i ≡ v
          → Leaves (λ j. view j ≡ v) (run m (record s { inst = i; world = w })))
      → Leaves (λ j. view j ≡ v) (run (write c.update_status on_error >> m) s)
  view_rule on_error m s here next =
      let (r, w) = c.update_status s.inst s.world in
      let G = λ (j : HermesInstance). view j ≡ v in
      write_rule G G r on_error m (record s { world = w }) (λ j e. e) here
        (rw (k.spec-update_status s.inst s.world, h.status-update_status s.inst s.world) here)
        (λ i there. next i w there)
