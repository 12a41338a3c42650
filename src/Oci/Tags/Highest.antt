-- ===== src/Oci/Tags/Highest.antt =====
-- What `HighestMatching` answers.
use mathlib.Core.List.{Memᴰ}
use mathlib.Core.List.Memᴰ
use mathlib.Core.Path.{subst}
use hermes_operator.Common.{
  String, true, false, Option, none, some, List, [], ◌∷◌, All, ◌≡◌, refl, sym, ap, ◌∙◌, arith,
  is_cons, Bool-cases, Option-cases, inl, inr, if◌then◌else◌, ◌↔◌,
}
use hermes_operator.Kube.Result.{Result, ok, err, Err, no_matching_tag}
use hermes_operator.Oci.Tags.{
  Semver, IsSemver, Ordered, last, keep, matching, pick, highest_matching,
}

All-mem : {A : Type 0} (P : A → Type 0) (xs : List A) {a : A} → All P xs → Memᴰ a xs → P a
All-mem P [] h m = elim m [ ]
All-mem P (x ∷ xs) h (Memᴰ.head e) = subst P (sym e) h.0
All-mem P (x ∷ xs) h (Memᴰ.tail m) = All-mem P xs h.1 m

mem-last : {V : Type 0} (vs : List V) {v : V} → last vs ≡ some v → Memᴰ v vs
mem-last [] e = cc
mem-last (v ∷ []) e = Memᴰ.head (cc)
mem-last (v ∷ u ∷ vs) e = Memᴰ.tail (mem-last (u ∷ vs) e)

-- A nonempty list has a last element.
last-some : {V : Type 0} (vs : List V) {v : V} → Memᴰ v vs → (m : V) × (last vs ≡ some m)
last-some [] i = elim i [ ]
last-some (v ∷ []) i = (v, refl)
last-some (v ∷ u ∷ vs) i = last-some (u ∷ vs) (Memᴰ.head refl)

module _ {V C : Type 0} (s : Semver V C) where
  last_max :
      (h : IsSemver s) (vs : List V) {m v : V}
      → Ordered s.less vs
      → last vs ≡ some m
      → Memᴰ v vs
      → s.less m v ≡ false
  last_max h [] o e i = elim i [ ]
  last_max h (x ∷ []) {m} {v} o e (Memᴰ.head i) =
      let same : m ≡ v = cc in subst (λ u. s.less m u ≡ false) same (h.less_irrefl m)
  last_max h (x ∷ []) o e (Memᴰ.tail i) = elim i [ ]
  last_max h (x ∷ y ∷ vs) {m} o e (Memᴰ.head i) =
      subst (λ u. s.less m u ≡ false) (sym i)
        (All-mem (λ u. s.less u x ≡ false) (y ∷ vs) o.0 (mem-last (y ∷ vs) e))
  last_max h (x ∷ y ∷ vs) o e (Memᴰ.tail i) = last_max h (y ∷ vs) o.1 e i

  -- A tag of the list that is the version `v` and satisfies the constraint.
  abbrev pub Matches : C → List String → V → Type 0
  Matches constraint tags v =
      (t : String) × Memᴰ t tags × (s.new_version t ≡ some v) × (s.check constraint v ≡ true)

  -- A tag of the list that is a version and satisfies the constraint, no such tag being higher.
  abbrev pub Highest : C → List String → String → Type 0
  Highest constraint tags best =
      (v : V) × Memᴰ best tags
      × (s.new_version best ≡ some v)
      × (s.check constraint v ≡ true)
      × ((t : String) (u : V)
          → Memᴰ t tags
          → s.new_version t ≡ some u
          → s.check constraint u ≡ true
          → s.less v u ≡ false)

  abbrev pub IsHighest : C → List String → Result String → Type 0
  IsHighest constraint tags (ok best) = Highest constraint tags best
  IsHighest constraint tags (err e) = e ≡ no_matching_tag

  Matches-cons :
      {constraint : C} (t : String) (tags : List String) {v : V}
      → Matches constraint tags v
      → Matches constraint (t ∷ tags) v
  Matches-cons t tags (u, m, p, q) = (u, Memᴰ.tail m, p, q)

  Matches-keep :
      (constraint : C) (t : String) (tags : List String) (o : Option V) (rest : List V) {v : V}
      → s.new_version t ≡ o
      → (Memᴰ v rest → Matches constraint tags v)
      → Memᴰ v (keep s constraint o rest)
      → Matches constraint (t ∷ tags) v
  Matches-keep constraint t tags none rest e ih m = Matches-cons t tags (ih m)
  Matches-keep constraint t tags (some u) rest {v} e ih m =
      elim (Bool-cases (s.check constraint u)) [
        | inl good ↦ go good (rw good at m)
        | inr bad ↦ Matches-cons t tags (ih (rw bad at m))
      ]
    where
      go : s.check constraint u ≡ true → Memᴰ v (u ∷ rest) → Matches constraint (t ∷ tags) v
      go good (Memᴰ.head i) = (t, Memᴰ.head refl, cc, rw i good)
      go good (Memᴰ.tail i) = Matches-cons t tags (ih i)

  matching-Matches :
      (constraint : C) (tags : List String) {v : V}
      → Memᴰ v (matching s constraint tags)
      → Matches constraint tags v
  unfolding matching
  matching-Matches constraint [] m = elim m [ ]
  matching-Matches constraint (t ∷ tags) m =
      Matches-keep constraint t tags (s.new_version t) (matching s constraint tags) refl
        (matching-Matches constraint tags) m

  mem-matching :
      (constraint : C) (tags : List String) {t : String} {v : V}
      → Memᴰ t tags
      → s.new_version t ≡ some v
      → s.check constraint v ≡ true
      → Memᴰ v (matching s constraint tags)
  unfolding matching
  mem-matching constraint [] m p q = elim m [ ]
  mem-matching constraint (t' ∷ tags) {v = v} (Memᴰ.head e) p q =
      let p' : s.new_version t' ≡ some v = cc in rw (p', q) (Memᴰ.head refl)
  mem-matching constraint (t' ∷ tags) (Memᴰ.tail m) p q = elim (Option-cases (s.new_version t')) [
    | inl none' ↦ rw none' (mem-matching constraint tags m p q)
    | inr (u, some') ↦ elim (Bool-cases (s.check constraint u)) [
      | inl good ↦ rw (some', good) (Memᴰ.tail (mem-matching constraint tags m p q))
      | inr bad ↦ rw (some', bad) (mem-matching constraint tags m p q)
    ]
  ]

  answer : List V → Result String
  answer versions =
      if is_cons versions then pick s (last (s.sort versions)) else err no_matching_tag

  answer-ok :
      (versions : List V) {best : String}
      → answer versions ≡ ok best
      → (m : V) × (last (s.sort versions) ≡ some m) × (s.original m ≡ best)
  unfolding answer
  answer-ok [] e = absurd (ground arith)
  answer-ok (v ∷ vs) e = elim (Option-cases (last (s.sort (v ∷ vs)))) [
    | inl none' ↦ absurd (ground arith)
    | inr (m, some') ↦ (m, some', ground arith)
  ]

  answer-err :
      (h : IsSemver s) (versions : List V) → answer versions ≡ err no_matching_tag → versions ≡ []
  unfolding answer
  answer-err h [] e = refl
  answer-err h (v ∷ vs) e =
      let (m, some') = last-some (s.sort (v ∷ vs)) (h.mem-sort v (v ∷ vs) (Memᴰ.head refl)) in
      absurd (ground arith)

  answer-err_only :
      (h : IsSemver s) (versions : List V) {e : Err} → answer versions ≡ err e → e ≡ no_matching_tag
  unfolding answer
  answer-err_only h [] e = ground arith
  answer-err_only h (v ∷ vs) e =
      let (m, some') = last-some (s.sort (v ∷ vs)) (h.mem-sort v (v ∷ vs) (Memᴰ.head refl)) in
      absurd (ground arith)

  highest_matching-answer :
      (tags : List String) (channel : String) {constraint : C}
      → s.new_constraint channel ≡ some constraint
      → highest_matching s tags channel ≡ answer (matching s constraint tags)
  unfolding highest_matching answer
  highest_matching-answer tags channel con = rw (con, highest_matching)

  no-matching :
      (constraint : C) (tags : List String)
      → ((t : String) (u : V)
          → Memᴰ t tags
          → s.new_version t ≡ some u
          → s.check constraint u ≡ false)
      → (vs : List V) → matching s constraint tags ≡ vs
      → vs ≡ []
  no-matching constraint tags all [] e = refl
  no-matching constraint tags all (v ∷ vs) e =
      let (t, m, p, q) =
        matching-Matches constraint tags (subst (Memᴰ v) (sym e) (Memᴰ.head refl)) in
      absurd (ground (arith, all t v m p))

module _ {V C : Type 0} (s : Semver V C) (h : IsSemver s) (tags : List String)
    (channel best : String) {constraint : C} (valid : s.new_constraint channel ≡ some constraint)
    (found : highest_matching s tags channel ≡ ok best) where
  chosen :
      (v : V) × (last (s.sort (matching s constraint tags)) ≡ some v)
      × Memᴰ best tags
      × (s.new_version best ≡ some v)
      × (s.check constraint v ≡ true)
  unfolding answer
  chosen =
      let vs = matching s constraint tags in
      let (m, is_last, text) =
        answer-ok s vs (sym (highest_matching-answer s tags channel valid) ∙ found) in
      let (t, listed, version, good) =
        matching-Matches s constraint tags (h.mem_of_sort m vs (mem-last (s.sort vs) is_last)) in
      let same : t ≡ best = sym (h.original-new_version t m version) ∙ text in
      (
        m,
        is_last,
        subst (λ b. Memᴰ b tags) same listed,
        subst (λ b. s.new_version b ≡ some m) same version,
        good,
      )

  -- The answer is the text of a version, the highest of those that match.
  chosen-Highest : Highest s constraint tags best
  chosen-Highest =
      let vs = matching s constraint tags in
      let (m, is_last, listed, version, good) = chosen in
      (
        m,
        listed,
        version,
        good,
        λ t u mem ver fits.
            last_max s h (s.sort vs) (h.sort-Ordered vs) is_last
              (h.mem-sort u vs (mem-matching s constraint tags mem ver fits)),
      )

module _ {V C : Type 0} (s : Semver V C) (h : IsSemver s) (tags : List String) (channel : String)
    {constraint : C} (valid : s.new_constraint channel ≡ some constraint) where
  answer-IsHighest :
      (r : Result String) → highest_matching s tags channel ≡ r → IsHighest s constraint tags r
  answer-IsHighest (ok best) e = chosen-Highest s h tags channel best valid e
  answer-IsHighest (err x) e =
      answer-err_only s h (matching s constraint tags)
        (sym (highest_matching-answer s tags channel valid) ∙ e)

  -- With a valid channel, the answer of `HighestMatching` is a tag of the list that is a version and
  -- satisfies the channel, and no tag of the list that is a version and satisfies the channel is
  -- higher; or it is the error ErrNoMatchingTag.
  pub highest_matching-IsHighest : IsHighest s constraint tags (highest_matching s tags channel)
  highest_matching-IsHighest = answer-IsHighest (highest_matching s tags channel) refl

-- With a valid channel, `HighestMatching` fails with ErrNoMatchingTag exactly when no tag that is
-- a version satisfies the channel.
pub highest_matching-err_iff :
    {V C : Type 0} (s : Semver V C) (h : IsSemver s) (tags : List String) (channel : String)
    {constraint : C}
    → s.new_constraint channel ≡ some constraint
    → (highest_matching s tags channel ≡ err no_matching_tag) ↔ (
        (t : String) (u : V)
        → Memᴰ t tags
        → s.new_version t ≡ some u
        → s.check constraint u ≡ false)
unfolding answer
highest_matching-err_iff s h tags channel {constraint} con =
    let same = highest_matching-answer s tags channel con in
    let vs = matching s constraint tags in
    (
      λ e t u m p. elim (Bool-cases (s.check constraint u)) [
        | inl good ↦ absurd (
            Memᴰ.not-nil (
              subst (Memᴰ u) (answer-err s h vs (sym same ∙ e))
                (mem-matching s constraint tags m p good)))
        | inr bad ↦ bad
      ],
      λ all. same ∙ ap (answer s) (no-matching s constraint tags all vs refl),
    )
