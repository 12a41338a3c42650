-- ===== src/Kube/Library.antt =====
-- The pure helpers of k8s.io/apimachinery/pkg/api/meta and controllerutil, as an interface: they
-- are not in the repository. `IsLibrary` states what their documentation says and proofs rely on.
use hermes_operator.Common.{String, Bool, true, false, List, ◌≡◌, ◌≢◌}
use hermes_operator.Api.Status.{Condition, ConditionStatus, condition_true, condition_false}

pub record Library : Type 0 where
  pub set_status_condition : List Condition → Condition → List Condition
  pub remove_status_condition : List Condition → String → List Condition
  pub is_status_condition_true : List Condition → String → Bool
  pub contains_finalizer : List String → String → Bool
  pub add_finalizer : List String → String → List String
  pub remove_finalizer : List String → String → List String

abbrev pub is_true : ConditionStatus → Bool
is_true condition_true = true
is_true condition_false = false

pub record IsLibrary (l : Library) : Type 0 where
  -- Setting a condition decides whether its type is true, and leaves the other types alone.
  pub set_self :
      (cs : List Condition) (c : Condition)
      → l.is_status_condition_true (l.set_status_condition cs c) c.type ≡ is_true c.status
  pub set_ne :
      (cs : List Condition) (c : Condition) (t : String)
      → t ≢ c.type
      → l.is_status_condition_true (l.set_status_condition cs c) t ≡ l.is_status_condition_true cs t
  pub remove_self :
      (cs : List Condition) (t : String)
      → l.is_status_condition_true (l.remove_status_condition cs t) t ≡ false
  pub contains-add :
      (fs : List String) (f : String) → l.contains_finalizer (l.add_finalizer fs f) f ≡ true
  pub contains-remove :
      (fs : List String) (f : String) → l.contains_finalizer (l.remove_finalizer fs f) f ≡ false
  pub contains-remove_ne :
      (fs : List String) (f g : String)
      → f ≢ g
      → l.contains_finalizer (l.remove_finalizer fs g) f ≡ l.contains_finalizer fs f
