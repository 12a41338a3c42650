-- ===== src/Instance/Secrets.antt =====
-- internal/controller/hermesinstance_controller.go: what `reconcileSecret` does to the key of the API
-- server.
use hermes_operator.Common.{
  String, Bool, true, false, Option, some, ◌≡◌, ◌≢◌, ◌⊎◌, inl, inr, refl, ap, ◌∙◌, arith, is_empty,
  get, put, get-put_ne, get-put_same, is_empty-eq, str_eq-ne, text_or_empty, if◌then◌else◌,
}
use hermes_operator.Api.Instance.{HermesInstance}
use hermes_operator.Kube.Result.{Result, ok, err, is_ok}
use hermes_operator.Kube.Cluster.{Key, Object, IsCluster, IsKept, found_or, secret}
use hermes_operator.Resources.Secret.{
  api_server_key_secret_key, generate_api_server_key, build_gateway_token_secret,
}
use hermes_operator.Resources.Names.{gateway_token_secret_name}
use hermes_operator.Instance.{HermesInstanceReconciler}
use hermes_operator.Instance.Objects.{key, merge_labels, merge_annotations}
use hermes_operator.Instance.Steps.{secret_mutate, reconcile_secret, put_key, owned}

module _ {V C W S I : Type 0} (r : HermesInstanceReconciler V C W S I) where
  open r use {cluster, random, builders}

  -- The Secret of an instance.
  abbrev pub secret_key : HermesInstance → Key
  secret_key i = key secret (gateway_token_secret_name i) i

  -- The object before its key is looked at.
  abbrev dressed : HermesInstance → Object S → Object S
  dressed i o =
      let desired = build_gateway_token_secret builders.no_spec i in
      record (merge_annotations desired (merge_labels desired o)) {
        secret_type = desired.secret_type;
      }

  -- The Secret before a step and after it: the key is drawn once.
  pub record HasKey (i : HermesInstance) (old new : Object S) : Type 0 where
    pub owner : new.owner ≡ some i.meta.name
    pub others :
        (j : String) → j ≢ api_server_key_secret_key → get j new.entries ≡ get j old.entries
    pub kept_or_drawn :
        ((text_or_empty (get api_server_key_secret_key old.entries) ≢ "")
          × (get api_server_key_secret_key new.entries ≡ get api_server_key_secret_key old.entries))
        ⊎ ((text_or_empty (get api_server_key_secret_key old.entries) ≡ "")
            × (v : W) × (k : String) × ((generate_api_server_key random v).0 ≡ ok k)
            × (get api_server_key_secret_key new.entries ≡ some k))

  -- What the server keeps of such an object.
  HasKey-kept :
      (i : HermesInstance) (old given new : Object S)
      → IsKept S given new
      → HasKey i old given
      → HasKey i old new
  HasKey-kept i old given new same h = record {
    owner = same.owner ∙ h.owner;
    others = λ j d. ap (get j) same.entries ∙ h.others j d;
    kept_or_drawn = elim h.kept_or_drawn [
      | inl (full, kept) ↦ inl (full, ap (get api_server_key_secret_key) same.entries ∙ kept)
      | inr (lacks, v, k, drawn, put_in) ↦
          inr (lacks, v, k, drawn, ap (get api_server_key_secret_key) same.entries ∙ put_in)
    ];
  }

  module _ (stored : Key → W → Option (Object S)) (law : IsCluster W S cluster stored) where
    -- What the function gives: the object as it is, or with a key that has been drawn.
    given_cases :
        (i : HermesInstance) (o p : Object S) (b : Bool) (g : Result String × W) (w : W)
        → (owned r i (if b then put_key r o g else (ok o, w))).0 ≡ ok p
        → ((b ≡ false) × (p ≡ record o { owner = some i.meta.name }))
          ⊎ ((b ≡ true)
              × (k : String) × (g.0 ≡ ok k)
              × (p ≡ record o {
                owner = some i.meta.name;
                entries = put api_server_key_secret_key k o.entries;
              }))
    given_cases i o p false g w e = inl (refl, law.set_controller_reference-ok i o p e)
    given_cases i o p true (ok k, v) w e =
        inr (refl, k, refl, law.set_controller_reference-ok i _ p e)
    given_cases i o p true (err x, v) w e = ground arith

    -- What the function gives is the old object with its key, or with a key that it lacked.
    given-HasKey :
        (i : HermesInstance) (o p : Object S) (v : W)
        → (secret_mutate r i o v).0 ≡ ok p
        → HasKey i o p
    unfolding secret_mutate
    given-HasKey i o p v e =
        elim (given_cases i (dressed i o) p
          (is_empty (text_or_empty (get api_server_key_secret_key o.entries)))
          (generate_api_server_key random v) v e) [
            | inl (full, same) ↦ record {
              owner = ap (λ x. x.owner) same;
              others = λ j d. ap (λ x. get j x.entries) same;
              kept_or_drawn =
                  inl (str_eq-ne _ "" full, ap (λ x. get api_server_key_secret_key x.entries) same);
            }
            | inr (lacks, k, drawn, same) ↦ record {
              owner = ap (λ x. x.owner) same;
              others = λ j d.
                  ap (λ x. get j x.entries) same
                  ∙ get-put_ne api_server_key_secret_key j k o.entries d;
              kept_or_drawn = inr (
                is_empty-eq _ lacks,
                v,
                k,
                drawn,
                ap (λ x. get api_server_key_secret_key x.entries) same
                    ∙ get-put_same api_server_key_secret_key k o.entries,
              );
            }
          ]

    -- After a successful step the Secret is owned by the instance, and has a key: the one it had,
    -- or a freshly generated one if that was missing or empty; its other entries are unchanged.
    pub reconcile_secret-HasKey :
        (i : HermesInstance) (w : W)
        → is_ok (reconcile_secret r i w).0 ≡ true
        → (new : Object S) × (stored (secret_key i) (reconcile_secret r i w).1 ≡ some new)
          × HasKey i (found_or cluster.empty (stored (secret_key i) w)) new
    unfolding reconcile_secret
    reconcile_secret-HasKey i w e =
        let (v, given, new, made, kept, same, fit) =
          law.create_or_update-ok (secret_key i) (secret_mutate r i) w e in
        (new, kept, HasKey-kept i _ given new same (given-HasKey i _ given v made))
