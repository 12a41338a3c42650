-- ===== src/SelfConfig/Reconcile/Permits.antt =====
-- No write is issued for a request that the policy of its parent does not permit.
use mathlib.Core.List.{Memᴰ}
use hermes_operator.Common.{
  String, Bool, true, false, not, Option, none, some, List, [], ◌∷◌, ◌≡◌, ◌≢◌, refl, ap, ◌⊎◌, inl,
  inr, arith, eq_iff, is_cons, All, Bool-cases, bool_value, if◌then◌else◌,
}
use hermes_operator.Kube.Result.{Result, ok, err}
use hermes_operator.Kube.Library.{Library}
use hermes_operator.Api.Instance.{HermesInstance}
use hermes_operator.Api.SelfConfig.{HermesSelfConfig}
use hermes_operator.SelfConfig.{Fields, has_patch, raw_patch, object}
use hermes_operator.SelfConfig.Policy.{
  determine_actions, check_allowed_actions, check_protected_paths,
}
use hermes_operator.SelfConfig.Policy.Actions.{check_allowed_actions-nil}
use hermes_operator.SelfConfig.Policy.Paths.{IsPath}
use hermes_operator.SelfConfig.Policy.Protected.{
  IsGuarded, check_protected_paths-clear, check_protected_paths-object,
}
use hermes_operator.SelfConfig.Turn.{
  SelfConfigClient, Turn, DenyReason, disabled, no_mutations, not_allowed, is_settled,
  patch_verdict,
}
use hermes_operator.SelfConfig.Reconcile.{
  patch_gate, gates, deny, decide, for_parent, handle, handle_found, reconcile,
}

module _ {W : Type 0} (c : SelfConfigClient W) where
  -- No path of the patch matches a protected pattern.
  abbrev pub IsClear : List String → Fields → Type 0
  IsClear protected tree =
      (p : String)
      → IsPath (object tree) "" p
      → p ≢ ""
      → ¬ IsGuarded c.unmarshal c.compile protected p

  abbrev pub AllowsPatch : List String → Option String → Type 0
  AllowsPatch protected patch =
      (has_patch patch ≡ false)
      ⊎ ((protected ≡ [])
          ⊎ ((tree : Fields) × (c.unmarshal (raw_patch patch) ≡ some tree)
              × IsClear protected tree))

  -- What the parent's policy asks of a request.
  pub record IsPermitted (parent : HermesInstance) (sc : HermesSelfConfig) : Type 0 where
    pub enabled : bool_value parent.spec.self_configure.enabled ≡ true
    pub requests : determine_actions sc ≢ []
    pub allowed :
        All (λ a. Memᴰ a parent.spec.self_configure.allowed_actions) (determine_actions sc)
    pub allows_patch : AllowsPatch parent.spec.self_configure.protected_keys sc.spec.patch_config

module _ {W : Type 0} (c : SelfConfigClient W) (l : Library) where
  verdict_none : (r : Result String) → patch_verdict r ≡ none → r ≡ ok ""
  verdict_none (err e) h = absurd (ground arith)
  verdict_none (ok hit) h = ground (arith, eq_iff hit "")

  patch-AllowsPatch :
      (patch : Option String) (protected : List String)
      → has_patch patch ≡ true
      → check_protected_paths c.unmarshal c.compile (raw_patch patch) protected ≡ ok ""
      → AllowsPatch c protected patch
  patch-AllowsPatch none protected e h = absurd (ground arith)
  patch-AllowsPatch (some raw) [] e h = inr (inl refl)
  patch-AllowsPatch (some raw) (k ∷ ks) e h =
      let n : raw ≢ "" = λ q. ground (arith, eq_iff raw "") in
      let m : (k ∷ ks) ≢ [] = λ q. cc in
      let (tree, parsed) =
        check_protected_paths-object c.unmarshal c.compile raw (k ∷ ks) "" n m h in
      inr (
        inr (
          tree,
          parsed,
          λ p is_path q.
              check_protected_paths-clear c.unmarshal c.compile raw (k ∷ ks) tree p n m parsed h
                is_path q,
        ))

  gate-AllowsPatch :
      (parent : HermesInstance) (sc : HermesSelfConfig) (b : Bool)
      → has_patch sc.spec.patch_config ≡ b
      → patch_gate c l parent sc ≡ none
      → AllowsPatch c parent.spec.self_configure.protected_keys sc.spec.patch_config
  unfolding patch_gate
  gate-AllowsPatch parent sc false e h = inl e
  gate-AllowsPatch parent sc true e h =
      patch-AllowsPatch sc.spec.patch_config parent.spec.self_configure.protected_keys e (
        verdict_none
          (check_protected_paths c.unmarshal c.compile (raw_patch sc.spec.patch_config)
            parent.spec.self_configure.protected_keys)
          (rw e at h))

  -- The four tests of the gates, in their order.
  gates-open :
      {A : Type 0} (off none_asked some_over : Bool) (x y z : A) (last : Option A)
      → (if off then some x else if none_asked then some y else if some_over then some z else last)
        ≡ none
      → (off ≡ false) × (none_asked ≡ false) × (some_over ≡ false) × (last ≡ none)
  gates-open true none_asked some_over x y z last h = absurd (ground arith)
  gates-open false true some_over x y z last h = absurd (ground arith)
  gates-open false false true x y z last h = absurd (ground arith)
  gates-open false false false x y z last h = (refl, refl, refl, h)

  is_cons-false : {A : Type 0} (xs : List A) → is_cons xs ≡ false → xs ≡ []
  is_cons-false [] h = refl
  is_cons-false (x ∷ xs) h = absurd (ground arith)

  gates-IsPermitted :
      (parent : HermesInstance) (sc : HermesSelfConfig)
      → gates c l parent sc ≡ none
      → IsPermitted c parent sc
  unfolding gates
  gates-IsPermitted parent sc h =
      let requested = determine_actions sc in
      let policy = parent.spec.self_configure in
      let over = check_allowed_actions requested policy.allowed_actions in
      let (on, asked, fine, last) =
        gates-open (not (bool_value policy.enabled)) (not (is_cons requested)) (is_cons over)
          disabled no_mutations (not_allowed over policy.allowed_actions) (patch_gate c l parent sc)
          h in
      record {
        enabled = ground arith;
        requests = λ e. ground (arith, ap is_cons e);
        allowed =
            check_allowed_actions-nil requested policy.allowed_actions (is_cons-false over fine);
        allows_patch = gate-AllowsPatch parent sc (has_patch sc.spec.patch_config) refl last;
      }

  -- The writes of a turn are those before it, or the parent permits the request.
  abbrev IsGuardedBy : HermesInstance → Turn W → Turn W → Type 0
  IsGuardedBy parent s out = (out.writes ≡ s.writes) ⊎ IsPermitted c parent s.sc

  decide-IsGuardedBy :
      (parent : HermesInstance) (o : Option DenyReason) (s : Turn W)
      → gates c l parent s.sc ≡ o
      → IsGuardedBy parent s (decide c l parent o s).1
  unfolding decide deny
  decide-IsGuardedBy parent none s e = inr (gates-IsPermitted parent s.sc e)
  decide-IsGuardedBy parent (some reason) s e = inl (ground arith)

  -- The parent was read, and it permits the request.
  abbrev pub PermitsRead : Result HermesInstance → HermesSelfConfig → Type 0
  PermitsRead r sc = (parent : HermesInstance) × (r ≡ ok parent) × IsPermitted c parent sc

  for_parent-PermitsRead :
      (r : Result HermesInstance) (s : Turn W)
      → ((for_parent c l r s).1.writes ≡ s.writes) ⊎ PermitsRead r s.sc
  unfolding for_parent deny
  for_parent-PermitsRead (err e) s = inl (ground arith)
  for_parent-PermitsRead (ok parent) s =
      elim (decide-IsGuardedBy parent (gates c l parent s.sc) s refl) [
        | inl same ↦ inl same
        | inr permitted ↦ inr (parent, refl, permitted)
      ]

  -- The answer of the API server for the parent of a request.
  abbrev pub parent_of : HermesSelfConfig → W → Result HermesInstance
  parent_of sc w = (c.get_instance sc.spec.instance_ref sc.meta.namespace w).0

  handle-IsPermitted :
      (s : Turn W)
      → ((handle c l s).1.writes ≡ s.writes)
        ⊎ ((is_settled s.sc ≡ false) × PermitsRead (parent_of s.sc s.world) s.sc)
  unfolding handle
  handle-IsPermitted s = elim (Bool-cases (is_settled s.sc)) [
    | inl decided ↦ inl (ground (arith, decided))
    | inr undecided ↦
        let (r, w) = c.get_instance s.sc.spec.instance_ref s.sc.meta.namespace s.world in
        elim (for_parent-PermitsRead r (record s { world = w })) [
          | inl same ↦ inl (rw undecided same)
          | inr permitted ↦ inr (undecided, permitted)
        ]
  ]

  -- A request of a generation that is not decided yet was read, and then a parent that permits it.
  abbrev pub ReadsPermitted : Result HermesSelfConfig → W → Type 0
  ReadsPermitted r w =
      (sc : HermesSelfConfig) × (r ≡ ok sc)
      × (is_settled sc ≡ false)
      × PermitsRead (parent_of sc w) sc

  found-IsPermitted :
      (r : Result HermesSelfConfig) (s : Turn W)
      → ((handle_found c l r s).1.writes ≡ s.writes) ⊎ ReadsPermitted r s.world
  unfolding handle_found
  found-IsPermitted (err e) s = inl refl
  found-IsPermitted (ok sc) s = elim (handle-IsPermitted (record s { sc = sc })) [
    | inl same ↦ inl same
    | inr (fresh, permitted) ↦ inr (sc, refl, fresh, permitted)
  ]

  -- A turn issues no write at all, unless the request was read with a generation that is not
  -- decided yet, and then its parent, and the parent permits the request: self-configuration is
  -- enabled, the request asks for something, every action it asks for is allowed, and its patch is
  -- absent, or there are no protected keys, or it is a JSON object with no path that a protected
  -- pattern matches.
  pub reconcile-IsPermitted :
      (name namespace : String) (s : Turn W)
      → ((reconcile c l name namespace s).1.writes ≡ s.writes)
        ⊎ ReadsPermitted
            (c.get_self_config name namespace s.world).0
            (c.get_self_config name namespace s.world).1
  unfolding reconcile
  reconcile-IsPermitted name namespace s =
      let (r, w) = c.get_self_config name namespace s.world in
      found-IsPermitted r (record s { world = w })
