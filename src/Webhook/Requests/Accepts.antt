-- ===== src/Webhook/Requests/Accepts.antt =====
-- Which requests of an agent the webhook lets pass.
use hermes_operator.Common.{
  String, Bool, true, false, not, ◌&&◌, Option, none, some, ◌≡◌, ◌≢◌, refl, ◌⊎◌, inl, inr, arith,
  eq_iff, is_empty, is_some, bool_value, length,
}
use hermes_operator.Common.Flow.{◌>>◌, return_if, when}
use hermes_operator.Kube.Result.{Result, ok, err}
use hermes_operator.Api.Instance.{HermesInstance}
use hermes_operator.Api.SelfConfig.{HermesSelfConfig}
use hermes_operator.SelfConfig.{Fields, has_patch, raw_patch}
use hermes_operator.SelfConfig.Policy.{determine_actions}
use hermes_operator.Webhook.{
  Admission, Denial, denial_of, Check, instance_ref_required, snapshot_needs_honcho,
  invalid_merge_patch,
}
use hermes_operator.Webhook.Requests.{mutations, parent_answer, check_parent, check_patch, validate}

-- The webhook counts as many mutations as the controller finds actions.
pub length-determine_actions :
    (sc : HermesSelfConfig) → length (determine_actions sc) ≡ mutations sc
unfolding determine_actions mutations
length-determine_actions sc = ground arith

module _ {W : Type 0} (get : String → String → W → Result HermesInstance × W)
    (unmarshal : String → Option Fields) where
  -- A request that names a parent that is there, with a patch that is a JSON object, if any, and
  -- Honcho on the parent for a snapshot.
  pub record IsWellFormed (sc : HermesSelfConfig) (w : W) : Type 0 where
    pub instance_ref : sc.spec.instance_ref ≢ ""
    pub parent : HermesInstance
    pub is_read : (get sc.meta.namespace sc.spec.instance_ref w).0 ≡ ok parent
    pub honcho :
        (sc.spec.add_profile_snapshot ≡ none)
        ⊎ (bool_value parent.spec.profile_store.honcho.enabled ≡ true)
    pub patch :
        (has_patch sc.spec.patch_config ≡ false)
        ⊎ ((tree : Fields) × (unmarshal (raw_patch sc.spec.patch_config) ≡ some tree))

  return_if_admits :
      (b : Bool) (x : Denial) (k : Check W) (s : Admission W)
      → denial_of ((return_if b x >> k) s) ≡ none
      → (b ≡ false) × (denial_of (k s) ≡ none)
  return_if_admits true x k s d = absurd (ground arith)
  return_if_admits false x k s d = (refl, d)

  honcho_or_none :
      {A : Type 0} (o : Option A) (on : Bool)
      → is_some o && not on ≡ false
      → (o ≡ none) ⊎ (on ≡ true)
  honcho_or_none none on e = inl refl
  honcho_or_none (some x) true e = inr refl
  honcho_or_none (some x) false e = absurd (ground arith)

  abbrev Honcho : HermesInstance → HermesSelfConfig → Type 0
  Honcho parent sc =
      (sc.spec.add_profile_snapshot ≡ none)
      ⊎ (bool_value parent.spec.profile_store.honcho.enabled ≡ true)

  -- The rest of the checks, once the parent has been answered.
  parent_admits :
      (sc : HermesSelfConfig) (r : Result HermesInstance) (k : Check W) (s : Admission W)
      → denial_of ((parent_answer (some get) unmarshal sc r >> k) s) ≡ none
      → ((parent : HermesInstance) × (r ≡ ok parent) × Honcho parent sc) × (denial_of (k s) ≡ none)
  unfolding parent_answer
  parent_admits sc (err e) k s d = absurd (ground arith)
  parent_admits sc (ok parent) k s d =
      let (fine, rest) =
        return_if_admits
          (is_some sc.spec.add_profile_snapshot
            && not (bool_value parent.spec.profile_store.honcho.enabled))
          snapshot_needs_honcho k s d in
      (
        (
          parent,
          refl,
          honcho_or_none sc.spec.add_profile_snapshot
              (bool_value parent.spec.profile_store.honcho.enabled) fine,
        ),
        rest,
      )

  abbrev Parses : Option String → Type 0
  Parses patch =
      (has_patch patch ≡ false) ⊎ ((tree : Fields) × (unmarshal (raw_patch patch) ≡ some tree))

  patch_admits :
      (patch : Option String) (b : Bool) (o : Option Fields) (k : Check W) (s : Admission W)
      → has_patch patch ≡ b
      → unmarshal (raw_patch patch) ≡ o
      → denial_of ((when b (return_if (not (is_some o)) invalid_merge_patch) >> k) s) ≡ none
      → Parses patch
  patch_admits patch false o k s e q d = inl e
  patch_admits patch true none k s e q d = absurd (ground arith)
  patch_admits patch true (some tree) k s e q d = inr (tree, q)

  -- A request that the webhook admits, asking a client, is well formed: it names its instance, the
  -- instance is read, it has Honcho if a snapshot is asked for, and the patch is absent or a JSON
  -- object.
  pub validate-IsWellFormed :
      (sc : HermesSelfConfig) (s : Admission W)
      → denial_of (validate (some get) unmarshal sc s) ≡ none
      → IsWellFormed sc s.world
  unfolding validate check_parent check_patch
  validate-IsWellFormed sc s d =
      let (r, w) = get sc.meta.namespace sc.spec.instance_ref s.world in
      let s' = record s { world = w } in
      let (named, rest) =
        return_if_admits (is_empty sc.spec.instance_ref) instance_ref_required _ s d in
      let ((parent, e, honcho), rest') = parent_admits sc r _ s' rest in
      record {
        instance_ref = λ q. ground (arith, eq_iff sc.spec.instance_ref "");
        parent = parent;
        is_read = e;
        honcho = honcho;
        patch =
            patch_admits sc.spec.patch_config (has_patch sc.spec.patch_config)
              (unmarshal (raw_patch sc.spec.patch_config)) _ s' refl refl rest';
      }
