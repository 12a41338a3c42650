-- ===== src/Fixtures/Versions.antt =====
-- Versions ordered by the length of their text: every nonempty text is a version, and a channel is
-- satisfied by the versions that are no longer than it.
use Prim.Native.String.{count}
use mathlib.Core.List.{Memᴰ}
use hermes_operator.Common.{
  String, Bool, true, false, Option, none, some, List, [], ◌∷◌, All, ◌≡◌, arith, ltb, leb,
  if◌then◌else◌, is_empty, Bool-cases, inl, inr, ◌⊎◌,
}
use hermes_operator.Oci.Tags.{Semver, IsSemver, Ordered}

abbrev shorter : String → String → Bool
shorter a b = ltb (count a) (count b)

abbrev place : Bool → String → String → List String → List String → List String
place true x y ys rest = x ∷ y ∷ ys
place false x y ys rest = y ∷ rest

abbrev insert : String → List String → List String
insert x [] = x ∷ []
insert x (y ∷ ys) = place (shorter x y) x y ys (insert x ys)

abbrev insertion_sort : List String → List String
insertion_sort [] = []
insertion_sort (x ∷ xs) = insert x (insertion_sort xs)

abbrev version_of : String → Option String
version_of t = if is_empty t then none else some t

abbrev pub by_length : Semver String String
by_length = record {
  new_constraint = version_of;
  new_version = version_of;
  check = λ c v. leb (count v) (count c);
  less = shorter;
  sort = insertion_sort;
  original = λ v. v;
  major = λ v. 0;
  decimal = λ n. "0";
}

All-map :
    {P Q : String → Type 0} (xs : List String) → ((x : String) → P x → Q x) → All P xs → All Q xs
All-map [] f h = tt
All-map (x ∷ xs) f h = (f x h.0, All-map xs f h.1)

All-insert :
    (P : String → Type 0) (x : String) (ys : List String) → P x → All P ys → All P (insert x ys)
All-insert P x [] p h = (p, tt)
All-insert P x (y ∷ ys) p h = elim (Bool-cases (shorter x y)) [
  | inl lt ↦ rw lt (p, h)
  | inr ge ↦ rw ge (h.0, All-insert P x ys p h.1)
]

insert-Ordered :
    (x : String) (ys : List String) → Ordered shorter ys → Ordered shorter (insert x ys)
insert-Ordered x [] o = (tt, tt)
insert-Ordered x (y ∷ ys) o = elim (Bool-cases (shorter x y)) [
  | inl lt ↦ rw lt ((ground arith, All-map ys (λ u h. ground arith) o.0), o)
  | inr ge ↦ rw ge (All-insert (λ u. shorter u y ≡ false) x ys ge o.0, insert-Ordered x ys o.1)
]

sort-Ordered : (xs : List String) → Ordered shorter (insertion_sort xs)
sort-Ordered [] = tt
sort-Ordered (x ∷ xs) = insert-Ordered x (insertion_sort xs) (sort-Ordered xs)

mem-insert : (v x : String) (ys : List String) → (v ≡ x) ⊎ Memᴰ v ys → Memᴰ v (insert x ys)
mem-insert v x [] (inl e) = Memᴰ.head e
mem-insert v x [] (inr m) = elim m [ ]
mem-insert v x (y ∷ ys) (inl e) = elim (Bool-cases (shorter x y)) [
  | inl lt ↦ rw lt (Memᴰ.head e)
  | inr ge ↦ rw ge (Memᴰ.tail (mem-insert v x ys (inl e)))
]
mem-insert v x (y ∷ ys) (inr (Memᴰ.head e)) = elim (Bool-cases (shorter x y)) [
  | inl lt ↦ rw lt (Memᴰ.tail (Memᴰ.head e))
  | inr ge ↦ rw ge (Memᴰ.head e)
]
mem-insert v x (y ∷ ys) (inr (Memᴰ.tail k)) = elim (Bool-cases (shorter x y)) [
  | inl lt ↦ rw lt (Memᴰ.tail (Memᴰ.tail k))
  | inr ge ↦ rw ge (Memᴰ.tail (mem-insert v x ys (inr k)))
]

mem_of_place :
    (b : Bool) (v x y : String) (ys rest : List String)
    → (Memᴰ v rest → (v ≡ x) ⊎ Memᴰ v ys)
    → Memᴰ v (place b x y ys rest)
    → (v ≡ x) ⊎ Memᴰ v (y ∷ ys)
mem_of_place true v x y ys rest ih (Memᴰ.head e) = inl e
mem_of_place true v x y ys rest ih (Memᴰ.tail k) = inr k
mem_of_place false v x y ys rest ih (Memᴰ.head e) = inr (Memᴰ.head e)
mem_of_place false v x y ys rest ih (Memᴰ.tail k) = elim (ih k) [
  | inl e ↦ inl e
  | inr q ↦ inr (Memᴰ.tail q)
]

mem_of_insert : (v x : String) (ys : List String) → Memᴰ v (insert x ys) → (v ≡ x) ⊎ Memᴰ v ys
mem_of_insert v x [] (Memᴰ.head e) = inl e
mem_of_insert v x [] (Memᴰ.tail m) = elim m [ ]
mem_of_insert v x (y ∷ ys) m =
    mem_of_place (shorter x y) v x y ys (insert x ys) (mem_of_insert v x ys) m

mem-sort : (v : String) (xs : List String) → Memᴰ v xs → Memᴰ v (insertion_sort xs)
mem-sort v [] m = m
mem-sort v (x ∷ xs) (Memᴰ.head e) = mem-insert v x (insertion_sort xs) (inl e)
mem-sort v (x ∷ xs) (Memᴰ.tail m) = mem-insert v x (insertion_sort xs) (inr (mem-sort v xs m))

mem_of_sort : (v : String) (xs : List String) → Memᴰ v (insertion_sort xs) → Memᴰ v xs
mem_of_sort v [] m = m
mem_of_sort v (x ∷ xs) m = elim (mem_of_insert v x (insertion_sort xs) m) [
  | inl e ↦ Memᴰ.head e
  | inr k ↦ Memᴰ.tail (mem_of_sort v xs k)
]

pub by_length-IsSemver : IsSemver by_length
by_length-IsSemver = record {
  original-new_version = λ t v e. ground arith;
  less_irrefl = λ v. ground arith;
  sort-Ordered = sort-Ordered;
  mem-sort = mem-sort;
  mem_of_sort = mem_of_sort;
}
