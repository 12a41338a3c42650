-- ===== src/Fixtures/Conditions.antt =====
-- A library of conditions and finalizers that keeps what `IsLibrary` asks for: conditions stand
-- with the latest first.
use hermes_operator.Common.{
  String, Bool, true, false, List, [], ◌∷◌, ◌≡◌, ◌≢◌, refl, arith, eq_iff, str_eq, if◌then◌else◌,
}
use hermes_operator.Api.Status.{Condition}
use hermes_operator.Kube.Library.{Library, IsLibrary, is_true}

abbrev is_condition_true : List Condition → String → Bool
is_condition_true [] t = false
is_condition_true (c ∷ cs) t =
    let rest = is_condition_true cs t in if str_eq c.type t then is_true c.status else rest

abbrev remove_condition : List Condition → String → List Condition
remove_condition [] t = []
remove_condition (c ∷ cs) t =
    let rest = remove_condition cs t in if str_eq c.type t then rest else c ∷ rest

abbrev contains : List String → String → Bool
contains [] f = false
contains (g ∷ fs) f = let rest = contains fs f in if str_eq g f then true else rest

abbrev without : List String → String → List String
without [] f = []
without (g ∷ fs) f = let rest = without fs f in if str_eq g f then rest else g ∷ rest

abbrev pub library : Library
library = record {
  set_status_condition = λ cs c. c ∷ cs;
  remove_status_condition = remove_condition;
  is_status_condition_true = is_condition_true;
  contains_finalizer = contains;
  add_finalizer = λ fs f. f ∷ fs;
  remove_finalizer = without;
}

remove_condition-false :
    (cs : List Condition) (t : String) → is_condition_true (remove_condition cs t) t ≡ false
remove_condition-false [] t = refl
remove_condition-false (c ∷ cs) t = ground (arith, remove_condition-false cs t)

contains-without : (fs : List String) (f : String) → contains (without fs f) f ≡ false
contains-without [] f = refl
contains-without (g ∷ fs) f = ground (arith, contains-without fs f)

contains-without_ne :
    (fs : List String) (f g : String) → f ≢ g → contains (without fs g) f ≡ contains fs f
contains-without_ne [] f g n = refl
contains-without_ne (h ∷ fs) f g n =
    ground (arith, contains-without_ne fs f g n, eq_iff h f, eq_iff h g, n)

pub library-IsLibrary : IsLibrary library
library-IsLibrary = record {
  set_self = λ cs c. ground (arith, eq_iff c.type c.type);
  set_ne = λ cs c t n. ground (arith, eq_iff c.type t, n);
  remove_self = remove_condition-false;
  contains-add = λ fs f. ground (arith, eq_iff f f);
  contains-remove = contains-without;
  contains-remove_ne = contains-without_ne;
}
