-- ===== src/Resources/Workspace/Sorted.antt =====
-- internal/resources/workspace_configmap.go: what `sort.Strings` makes of the directories.
use mathlib.Core.List.{Permᴰ}
use mathlib.Core.List.Permᴰ as Perm
use Prim.Native.String.compare
use Prim.Native.String.{compare, then}
use Prim.Native.Char.{code}
use Prim.Native.Nat.{Ordering, compare as compare_ℕ}
use hermes_operator.Common.{
  String, true, false, Bool-cases, List, [], ◌∷◌, ◌≡◌, ◌≢◌, inl, inr, refl, arith,
}
use hermes_operator.Resources.Workspace.{sort_strings, insert, text_le}

-- No text stands before a lesser one, in the order of bytes.
abbrev pub IsSorted : List String → Type 0
IsSorted [] = Unit
IsSorted (d ∷ []) = Unit
IsSorted (d ∷ e ∷ ds) = (compare d e ≢ Ordering.gt) × IsSorted (e ∷ ds)

-- Of two texts one is not above the other.
text_le_total : (a b : String) → text_le a b ≡ false → text_le b a ≡ true
text_le_total String.[] String.[] e = refl
text_le_total String.[] (String.◌∷◌ d t) e =
    let law : compare String.[] (String.◌∷◌ d t) ≡ Ordering.lt = λ i. compare.nil-cons d t i in
    absurd (ground (arith, law))
text_le_total (String.◌∷◌ c s) String.[] e =
    let law : compare String.[] (String.◌∷◌ c s) ≡ Ordering.lt = λ i. compare.nil-cons c s i in
    ground (arith, law)
text_le_total (String.◌∷◌ c s) (String.◌∷◌ d t) e =
    let there : compare (String.◌∷◌ c s) (String.◌∷◌ d t)
        ≡ then (compare_ℕ (code c) (code d)) (compare s t) =
      λ i. compare.cons-cons c d s t i in
    let back : compare (String.◌∷◌ d t) (String.◌∷◌ c s)
        ≡ then (compare_ℕ (code d) (code c)) (compare t s) =
      λ i. compare.cons-cons d c t s i in
    ground (arith, there, back, text_le_total s t)

insert-Permᴰ : (d : String) (ds : List String) → Permᴰ (insert d ds) (d ∷ ds)
unfolding insert
insert-Permᴰ d [] = Perm.refl (d ∷ [])
insert-Permᴰ d (e ∷ ds) = elim (Bool-cases (text_le d e)) [
  | inl below ↦ rw below (Perm.refl (d ∷ e ∷ ds))
  | inr above ↦ rw above (Permᴰ.trans (Permᴰ.cons refl (insert-Permᴰ d ds)) (Permᴰ.swap refl refl))
]

text_le-ne : (a b : String) → text_le a b ≡ true → compare a b ≢ Ordering.gt
text_le-ne a b e g = ground arith

insert-behind :
    (e d : String) (ds : List String)
    → text_le d e ≡ false
    → IsSorted (e ∷ ds)
    → IsSorted (insert d ds)
    → IsSorted (e ∷ insert d ds)
unfolding insert
insert-behind e d [] above sorted rest = (text_le-ne e d (text_le_total d e above), tt)
insert-behind e d (x ∷ ds) above sorted rest = elim (Bool-cases (text_le d x)) [
  | inl below ↦ let h = rw below at rest in rw below (text_le-ne e d (text_le_total d e above), h)
  | inr beyond ↦ let h = rw beyond at rest in rw beyond (sorted.0, h)
]

tail-IsSorted : (d : String) (ds : List String) → IsSorted (d ∷ ds) → IsSorted ds
tail-IsSorted d [] sorted = tt
tail-IsSorted d (e ∷ ds) sorted = sorted.1

insert-IsSorted : (d : String) (ds : List String) → IsSorted ds → IsSorted (insert d ds)
unfolding insert
insert-IsSorted d [] sorted = tt
insert-IsSorted d (e ∷ ds) sorted = elim (Bool-cases (text_le d e)) [
  | inl below ↦ rw below (text_le-ne d e below, sorted)
  | inr above ↦
      rw above
        (insert-behind e d ds above sorted (insert-IsSorted d ds (tail-IsSorted e ds sorted)))
]

pub sort_strings-IsSorted : (ds : List String) → IsSorted (sort_strings ds)
unfolding sort_strings
sort_strings-IsSorted [] = tt
sort_strings-IsSorted (d ∷ ds) = insert-IsSorted d (sort_strings ds) (sort_strings-IsSorted ds)

pub sort_strings-Permᴰ : (ds : List String) → Permᴰ (sort_strings ds) ds
unfolding sort_strings
sort_strings-Permᴰ [] = Permᴰ.nil
sort_strings-Permᴰ (d ∷ ds) =
    Permᴰ.trans (insert-Permᴰ d (sort_strings ds)) (Permᴰ.cons refl (sort_strings-Permᴰ ds))
