-- ===== src/SelfConfig/Policy/Paths.antt =====
-- internal/controller/selfconfig_policy.go, seen from outside: the paths of a patch, and what the
-- check of the protected keys answers.
use hermes_operator.Common.{
  String, Bool, true, false, Option, none, some, ◌≡◌, ◌≢◌, refl, arith, eq_iff, if◌then◌else◌,
}
use hermes_operator.SelfConfig.{Json, Fields, scalar, object, end, field}
use hermes_operator.SelfConfig.Policy.{join_path, stops, first_hit, walk, walk_fields}

-- `IsPath v prefix p`: `p` is the path of a node of `v`, which itself stands at `prefix`.
mutual
  pub data IsPath : Json → String → String → Type 0 where
    here : {v : Json} {prefix : String} → IsPath v prefix prefix
    below :
        {fs : Fields} {prefix p : String} → IsFieldPath fs prefix p → IsPath (object fs) prefix p

  pub data IsFieldPath : Fields → String → String → Type 0 where
    first :
        {k : String} {v : Json} {fs : Fields} {prefix p : String}
        → IsPath v (join_path prefix k) p
        → IsFieldPath (field k v fs) prefix p
    later :
        {k : String} {v : Json} {fs : Fields} {prefix p : String}
        → IsFieldPath fs prefix p
        → IsFieldPath (field k v fs) prefix p

-- The two tests on a prefix.
stops-true :
    (prefix : String) (f : String → Bool)
    → stops prefix f ≡ true
    → (f prefix ≡ true) × (prefix ≢ "")
stops-true prefix f h = (ground arith, λ e. ground (arith, eq_iff prefix ""))

stops-false :
    (prefix : String) (f : String → Bool) → stops prefix f ≡ false → prefix ≢ "" → f prefix ≡ false
stops-false prefix f h n = ground (arith, eq_iff prefix "")

-- What a part of the walk answers: a path that stops it, or none, and then no path does.
abbrev pub Found : (String → Bool) → (String → Type 0) → Option String → Type 0
Found f Here none = (p : String) → Here p → p ≢ "" → f p ≡ false
Found f Here (some p) = Here p × (f p ≡ true) × (p ≢ "")

module _ (f : String → Bool) where
  scalar-clear :
      {prefix p : String} → IsPath scalar prefix p → stops prefix f ≡ false → p ≢ "" → f p ≡ false
  scalar-clear {prefix} here h n = stops-false prefix f h n

  object-clear :
      {fs : Fields} {prefix p : String}
      → IsPath (object fs) prefix p
      → stops prefix f ≡ false
      → ((q : String) → IsFieldPath fs prefix q → q ≢ "" → f q ≡ false)
      → p ≢ ""
      → f p ≡ false
  object-clear {prefix} here h ih n = stops-false prefix f h n
  object-clear {p} (below b) h ih n = ih p b n

  fields-clear :
      {k : String} {v : Json} {fs : Fields} {prefix p : String}
      → IsFieldPath (field k v fs) prefix p
      → ((q : String) → IsPath v (join_path prefix k) q → q ≢ "" → f q ≡ false)
      → ((q : String) → IsFieldPath fs prefix q → q ≢ "" → f q ≡ false)
      → p ≢ ""
      → f p ≡ false
  fields-clear {p} (first a) h ih n = h p a n
  fields-clear {p} (later b) h ih n = ih p b n

  scalar-Found :
      (prefix : String) (t : Bool)
      → stops prefix f ≡ t
      → Found f (IsPath scalar prefix) (if t then some prefix else none)
  scalar-Found prefix true h = let (hit, named) = stops-true prefix f h in (here, hit, named)
  scalar-Found prefix false h = λ p path n. scalar-clear path h n

  object-Found :
      (fs : Fields) (prefix : String) (t : Bool) (below' : Option String)
      → stops prefix f ≡ t
      → Found f (IsFieldPath fs prefix) below'
      → Found f (IsPath (object fs) prefix) (if t then some prefix else below')
  object-Found fs prefix true b h ih =
      let (hit, named) = stops-true prefix f h in (here, hit, named)
  object-Found fs prefix false (some p) h ih = (below ih.0, ih.1, ih.2)
  object-Found fs prefix false none h ih = λ p path n. object-clear path h ih n

  fields-Found :
      (k : String) (v : Json) (fs : Fields) (prefix : String) (a b : Option String)
      → Found f (IsPath v (join_path prefix k)) a
      → Found f (IsFieldPath fs prefix) b
      → Found f (IsFieldPath (field k v fs) prefix) (first_hit a b)
  fields-Found k v fs prefix (some p) b h ih = (first h.0, h.1, h.2)
  fields-Found k v fs prefix none (some p) h ih = (later ih.0, ih.1, ih.2)
  fields-Found k v fs prefix none none h ih = λ p path n. fields-clear path h ih n

  mutual
    unfolding walk

    pub walk-Found : (v : Json) (prefix : String) → Found f (IsPath v prefix) (walk v prefix f)
    walk-Found scalar prefix = scalar-Found prefix (stops prefix f) refl
    walk-Found (object fs) prefix =
        object-Found fs prefix (stops prefix f) (walk_fields fs prefix f) refl
          (walk_fields-Found fs prefix)

    walk_fields-Found :
        (fs : Fields) (prefix : String) → Found f (IsFieldPath fs prefix) (walk_fields fs prefix f)
    walk_fields-Found end prefix = λ p path n. elim path [ ]
    walk_fields-Found (field k v fs) prefix =
        fields-Found k v fs prefix (walk v (join_path prefix k) f) (walk_fields fs prefix f)
          (walk-Found v (join_path prefix k)) (walk_fields-Found fs prefix)
