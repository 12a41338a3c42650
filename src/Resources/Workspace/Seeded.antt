-- ===== src/Resources/Workspace/Seeded.antt =====
-- internal/resources/workspace_configmap.go: what the ConfigMap of the workspace holds, said of the
-- spec of the instance.
use mathlib.Core.List.{Memᴰ, Permᴰ}
use mathlib.Core.Path.{subst}
use text.Mathlib.TextLemmas.{append-nil}
use Prim.Native.String
use Prim.Native.String.compare
use Prim.Native.String.{compare, then}
use hermes_operator.Common.{
  String, Bool, true, false, Bool-cases, is_cons, str_eq-ne, str_eq, eq_iff, concat, Option, none,
  some, List, [], ◌∷◌, ◌++◌, All, Entries, get, put, get-put, get-put_ne, get-put_same, ◌≡◌, ◌≢◌,
  ◌⊎◌, inl, inr, refl, sym, ap, ◌∙◌, arith, ◌&&◌, bool_value,
}
use hermes_operator.Api.Spec.{WorkspaceFile}
use hermes_operator.Api.Instance.{HermesInstance}
use hermes_operator.Resources.Names.{semaphore_enabled}
use hermes_operator.Resources.Workspace.{
  encode_workspace_path, initial_dirs_key, file_content, seed_files, seed_dirs, sort_strings, lines,
  build_workspace_config_map,
}
use hermes_operator.Resources.Workspace.Sorted.{IsSorted, sort_strings-IsSorted, sort_strings-Permᴰ}

-- The file to which the use of Semaphore is explained.
abbrev pub IsSoul : HermesInstance → WorkspaceFile → Type 0
IsSoul i f = (f.path ≡ "SOUL.md") × (i.spec.semaphore.enabled ≡ some true)

abbrev pub HasContent : String → HermesInstance → WorkspaceFile → String → Type 0
HasContent soul i f v =
    (IsSoul i f × (v ≡ concat (soul ∷ "\n" ∷ f.content ∷ [])))
    ⊎ ((IsSoul i f → ⊥) × (v ≡ f.content))

-- The directories, each followed by a line feed.
abbrev pub with_feeds : List String → List String
with_feeds [] = []
with_feeds (d ∷ ds) = d ∷ "\n" ∷ with_feeds ds

pub record Seeded (soul : String) (i : HermesInstance) (m : Entries) : Type 0 where
  -- A file has the content of its spec, if no later file has the same key.
  pub files :
      (before after : List WorkspaceFile) (f : WorkspaceFile)
      → i.spec.workspace.initial_files ≡ before ++ (f ∷ after)
      → All (λ g. encode_workspace_path g.path ≢ encode_workspace_path f.path) after
      → (i.spec.workspace.initial_dirs ≡ [])
        ⊎ (encode_workspace_path f.path ≢ "__hermes_initial_dirs__")
      → (v : String) × (get (encode_workspace_path f.path) m ≡ some v) × HasContent soul i f v
  pub dirs :
      i.spec.workspace.initial_dirs ≢ []
      → (ds : List String) × Permᴰ ds i.spec.workspace.initial_dirs
        × IsSorted ds
        × (get "__hermes_initial_dirs__" m ≡ some (concat (with_feeds ds)))
  pub nothing_else :
      (k v : String)
      → get k m ≡ some v
      → ((k ≡ "__hermes_initial_dirs__") × (i.spec.workspace.initial_dirs ≢ []))
        ⊎ ((f : WorkspaceFile) × Memᴰ f i.spec.workspace.initial_files
            × (encode_workspace_path f.path ≡ k))

lines-with_feeds : (ds : List String) → lines ds ≡ concat (with_feeds ds)
lines-with_feeds [] = refl
lines-with_feeds (d ∷ ds) =
    ap (λ t. concat (d ∷ "\n" ∷ t ∷ [])) (lines-with_feeds ds)
    ∙ ap (λ t. String.◌++◌ d (String.◌++◌ "\n" t)) (append-nil (concat (with_feeds ds)))

module _ (soul : String) (i : HermesInstance) where
  soul_iff :
      (path : String) (enabled : Option Bool) (b : Bool)
      → (str_eq path "SOUL.md" && bool_value enabled) ≡ b
      → (b ≡ true → (path ≡ "SOUL.md") × (enabled ≡ some true))
        × (b ≡ false → (path ≡ "SOUL.md") × (enabled ≡ some true) → ⊥)
  soul_iff path none b e = (λ t. absurd (ground arith), λ f (p, q). ground arith)
  soul_iff path (some x) b e = (
    λ t. (ground (arith, eq_iff path "SOUL.md"), ap some (ground arith)),
    λ f (p, q). let yes' = ap bool_value q in ground (arith, eq_iff path "SOUL.md"),
  )

  file_content-HasContent : (f : WorkspaceFile) → HasContent soul i f (file_content soul i f)
  unfolding semaphore_enabled
  file_content-HasContent f =
      let (yes_soul, no_soul) = soul_iff f.path i.spec.semaphore.enabled _ refl in
      elim (Bool-cases (str_eq f.path "SOUL.md" && bool_value i.spec.semaphore.enabled)) [
        | inl both ↦ inl (yes_soul both, rw both refl)
        | inr other ↦ inr (no_soul other, rw other refl)
      ]

  -- Files with other keys leave an entry alone.
  seed_files-others :
      (k : String) (fs : List WorkspaceFile) (m : Entries)
      → All (λ g. encode_workspace_path g.path ≢ k) fs
      → get k (seed_files soul i fs m) ≡ get k m
  unfolding seed_files
  seed_files-others k [] m d = refl
  seed_files-others k (f ∷ fs) m d =
      seed_files-others k fs _ d.1
      ∙ get-put_ne (encode_workspace_path f.path) k _ m (λ e. d.0 (sym e))

  seed_files-last :
      (before after : List WorkspaceFile) (f : WorkspaceFile) (m : Entries)
      → All (λ g. encode_workspace_path g.path ≢ encode_workspace_path f.path) after
      → get (encode_workspace_path f.path) (seed_files soul i (before ++ (f ∷ after)) m)
        ≡ some (file_content soul i f)
  unfolding seed_files
  seed_files-last [] after f m d =
      seed_files-others (encode_workspace_path f.path) after _ d
      ∙ get-put_same (encode_workspace_path f.path) (file_content soul i f) m
  seed_files-last (g ∷ before) after f m d = seed_files-last before after f _ d

  seed_files-mem :
      (k v : String) (fs : List WorkspaceFile) (m : Entries)
      → get k (seed_files soul i fs m) ≡ some v
      → (get k m ≡ some v) ⊎ ((f : WorkspaceFile) × Memᴰ f fs × (encode_workspace_path f.path ≡ k))
  unfolding seed_files
  seed_files-mem k v [] m e = inl e
  seed_files-mem k v (f ∷ fs) m e =
      let j = encode_workspace_path f.path in
      elim (seed_files-mem k v fs (put j (file_content soul i f) m) e) [
        | inl here ↦ elim (Bool-cases (str_eq j k)) [
          | inl same ↦ inr (f, Memᴰ.head refl, ground (arith, eq_iff j k))
          | inr other ↦ inl (ground (arith, get-put j k (file_content soul i f) m))
        ]
        | inr (g, mem, same) ↦ inr (g, Memᴰ.tail mem, same)
      ]

  abbrev from_files : Entries
  from_files = seed_files soul i i.spec.workspace.initial_files []

  from_files-HasContent :
      (before after : List WorkspaceFile) (f : WorkspaceFile)
      → i.spec.workspace.initial_files ≡ before ++ (f ∷ after)
      → All (λ g. encode_workspace_path g.path ≢ encode_workspace_path f.path) after
      → (v : String) × (get (encode_workspace_path f.path) from_files ≡ some v)
        × HasContent soul i f v
  from_files-HasContent before after f all is_last = (
    file_content soul i f,
    ap (λ fs. get (encode_workspace_path f.path) (seed_files soul i fs [])) all
        ∙ seed_files-last before after f [] is_last,
    file_content-HasContent f,
  )

  from_files-mem :
      (k v : String)
      → get k from_files ≡ some v
      → (f : WorkspaceFile) × Memᴰ f i.spec.workspace.initial_files
        × (encode_workspace_path f.path ≡ k)
  unfolding get
  from_files-mem k v e = elim (seed_files-mem k v i.spec.workspace.initial_files [] e) [
    | inl here ↦ absurd (ground arith)
    | inr there ↦ there
  ]

  seed_dirs-Seeded :
      (ds : List String)
      → i.spec.workspace.initial_dirs ≡ ds
      → Seeded soul i (seed_dirs soul ds from_files)
  unfolding seed_dirs
  seed_dirs-Seeded [] none' = record {
    files = λ before after f all is_last other. from_files-HasContent before after f all is_last;
    dirs = λ n. absurd (n none');
    nothing_else = λ k v e. inr (from_files-mem k v e);
  }
  seed_dirs-Seeded (d ∷ ds) some' = record {
    files = λ before after f all is_last other.
        let k = encode_workspace_path f.path in
        let (v, here, content) = from_files-HasContent before after f all is_last in
        let free : k ≢ initial_dirs_key = elim other [
          | inl none' ↦ absurd (let two = ap is_cons (sym some' ∙ none') in ground arith)
          | inr n ↦ n
        ] in
        (v, get-put_ne initial_dirs_key k _ from_files free ∙ here, content);
    dirs = λ n. (
      sort_strings (d ∷ ds),
      subst (Permᴰ (sort_strings (d ∷ ds))) (sym some') (sort_strings-Permᴰ (d ∷ ds)),
      sort_strings-IsSorted (d ∷ ds),
      get-put_same initial_dirs_key _ from_files
          ∙ ap some (lines-with_feeds (sort_strings (d ∷ ds))),
    );
    nothing_else = λ k v e. elim (Bool-cases (str_eq k initial_dirs_key)) [
      | inl same ↦ inl (
        ground (arith, eq_iff k initial_dirs_key),
        λ none'. let two = ap is_cons (sym some' ∙ none') in ground arith,
      )
      | inr other ↦ inr (
          from_files-mem k v (
            sym (get-put_ne initial_dirs_key k _ from_files (str_eq-ne k initial_dirs_key other))
            ∙ e))
    ];
  }

  -- The desired ConfigMap holds what the spec seeds.
  pub build_workspace_config_map-Seeded :
      {S : Type 0} (s : S) → Seeded soul i (build_workspace_config_map soul s i).entries
  unfolding build_workspace_config_map
  build_workspace_config_map-Seeded s = seed_dirs-Seeded i.spec.workspace.initial_dirs refl
