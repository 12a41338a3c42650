-- ===== src/SelfConfig/Policy/Protected.antt =====
-- internal/controller/selfconfig_policy.go: what `CheckProtectedPaths` answers.
use hermes_operator.Common.{
  String, Bool, true, false, ap, Option, none, some, List, [], ◌∷◌, ◌≡◌, ◌≢◌, refl, ◌⊎◌, inl, inr,
  arith, eq_iff, is_empty, is_cons, not, Bool-cases,
}
use hermes_operator.Kube.Result.{Result, ok, err}
use hermes_operator.SelfConfig.{Fields, object}
use hermes_operator.SelfConfig.Policy.{
  walk, matches_any, hit_or_empty, add_glob, compile_all, hit_of, check_tree, check_protected_paths,
}
use hermes_operator.SelfConfig.Policy.Paths.{IsPath, Found, walk-Found}

not_nil : (xs : List String) → xs ≢ [] → not (is_cons xs) ≡ false
not_nil [] n = absurd (n refl)
not_nil (x ∷ xs) n = refl

module _ (unmarshal : String → Option Fields) (compile : String → Option (String → Bool)) where
  -- A pattern of the list matches the path.
  abbrev pub IsGuarded : List String → String → Type 0
  IsGuarded [] path = ⊥
  IsGuarded (p ∷ ps) path =
      ((g : String → Bool) × (compile p ≡ some g) × (g path ≡ true)) ⊎ IsGuarded ps path

  -- The compiled patterns match what the patterns match.
  Compiles : List String → Result (List (String → Bool)) → Type 0
  Compiles protected (ok globs) =
      (path : String)
      → (matches_any globs path ≡ true → IsGuarded protected path)
        × (matches_any globs path ≡ false → ¬ IsGuarded protected path)
  Compiles protected (err e) = Unit

  add-Compiles :
      (p : String) (ps : List String) (o : Option (String → Bool))
      (r : Result (List (String → Bool)))
      → compile p ≡ o
      → Compiles ps r
      → Compiles (p ∷ ps) (add_glob unmarshal compile o r)
  unfolding Compiles
  add-Compiles p ps none r e h = tt
  add-Compiles p ps (some g) (err x) e h = tt
  add-Compiles p ps (some g) (ok globs) e h = λ path.
      let (yes', no') = h path in
      (
        λ m. elim (Bool-cases (g path)) [
          | inl hit ↦ inl (g, e, hit)
          | inr miss ↦ inr (yes' (rw miss at m))
        ],
        λ m. elim [
          | inl (k, c, hit) ↦
              let same : k ≡ g = ground (arith, c, e) in ground (arith, ap (λ f. f path) same)
          | inr there ↦ no' (ground arith) there
        ],
      )

  compile_all-Compiles :
      (protected : List String) → Compiles protected (compile_all unmarshal compile protected)
  unfolding Compiles compile_all
  compile_all-Compiles [] = λ path. (λ m. cc, λ m g. g)
  compile_all-Compiles (p ∷ ps) =
      add-Compiles p ps (compile p) (compile_all unmarshal compile ps) refl
        (compile_all-Compiles ps)

  -- The answer for a patch with its tree and for compiled patterns.
  Answers : Fields → List String → Result String → Type 0
  Answers tree protected (ok hit) =
      (hit ≢ "" → IsPath (object tree) "" hit × IsGuarded protected hit)
      × (hit ≡ "" → (p : String) → IsPath (object tree) "" p → p ≢ "" → ¬ IsGuarded protected p)
  Answers tree protected (err e) = Unit

  hit-Answers :
      (tree : Fields) (protected : List String) (globs : List (String → Bool)) (o : Option String)
      → Compiles protected (ok globs)
      → Found (matches_any globs) (IsPath (object tree) "") o
      → Answers tree protected (ok (hit_or_empty o))
  unfolding Compiles Answers
  hit-Answers tree protected globs none c f =
      (λ n. absurd (n refl), λ e p path n. (c p).1 (f p path n))
  hit-Answers tree protected globs (some p) c f = (λ n. (f.0, (c p).0 f.1), λ e. absurd (f.2 e))

  tree-Answers :
      (tree : Fields) (protected : List String) (r : Result (List (String → Bool)))
      → Compiles protected r
      → Answers tree protected (hit_of unmarshal compile tree r)
  unfolding Answers
  tree-Answers tree protected (err e) c = tt
  tree-Answers tree protected (ok globs) c =
      hit-Answers tree protected globs (walk (object tree) "" (matches_any globs)) c
        (walk-Found (matches_any globs) (object tree) "")

  module _ (patch : String) (protected : List String) where
    check-Answers :
        (tree : Fields)
        → patch ≢ ""
        → protected ≢ []
        → unmarshal patch ≡ some tree
        → Answers tree protected (check_protected_paths unmarshal compile patch protected)
    unfolding check_protected_paths
    check-Answers tree n m e =
        let first : is_empty patch ≡ false = ground (arith, eq_iff patch "") in
        let second : not (is_cons protected) ≡ false = not_nil protected m in
        rw (first, second, e)
          (tree-Answers tree protected (compile_all unmarshal compile protected)
            (compile_all-Compiles protected))

    -- For a patch that is not empty and decodes to a JSON object, and a list of patterns that is
    -- not empty: a path that is answered is a path of the patch and matches a pattern.
    pub check_protected_paths-hit :
        (tree : Fields) (hit : String)
        → patch ≢ ""
        → protected ≢ []
        → unmarshal patch ≡ some tree
        → check_protected_paths unmarshal compile patch protected ≡ ok hit
        → hit ≢ ""
        → IsPath (object tree) "" hit × IsGuarded protected hit
    unfolding Answers
    check_protected_paths-hit tree hit n m e h = (rw h at (check-Answers tree n m e)).0

    -- For a patch that is not empty and decodes to a JSON object, and a list of patterns that is
    -- not empty: if no path is answered, no path of the patch, but for that of the whole, matches
    -- any pattern.
    pub check_protected_paths-clear :
        (tree : Fields) (p : String)
        → patch ≢ ""
        → protected ≢ []
        → unmarshal patch ≡ some tree
        → check_protected_paths unmarshal compile patch protected ≡ ok ""
        → IsPath (object tree) "" p
        → p ≢ ""
        → ¬ IsGuarded protected p
    unfolding Answers
    check_protected_paths-clear tree p n m e h = (rw h at (check-Answers tree n m e)).1 refl p

    tree-some :
        (o : Option Fields) (hit : String)
        → check_tree unmarshal compile o protected ≡ ok hit
        → (tree : Fields) × (o ≡ some tree)
    tree-some none hit h = absurd (ground arith)
    tree-some (some tree) hit h = (tree, refl)

    -- Only a patch that is a JSON object gets an answer.
    pub check_protected_paths-object :
        (hit : String)
        → patch ≢ ""
        → protected ≢ []
        → check_protected_paths unmarshal compile patch protected ≡ ok hit
        → (tree : Fields) × (unmarshal patch ≡ some tree)
    unfolding check_protected_paths
    check_protected_paths-object hit n m h =
        let first : is_empty patch ≡ false = ground (arith, eq_iff patch "") in
        let second : not (is_cons protected) ≡ false = not_nil protected m in
        tree-some (unmarshal patch) hit (rw (first, second) at h)
