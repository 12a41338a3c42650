-- ===== src/Oci/Cache/Fresh.antt =====
-- What the cache of tag lists guarantees.
use hermes_operator.Common.{
  ℕ, ◌+◌, ◌<◌, ◌==◌, ◌&&◌, is_some, String, Bool, true, Option, none, some, List, [], ◌∷◌, ◌≡◌,
  refl, arith, eq_iff, str_eq, if◌then◌else◌, inl, inr, Bool-cases,
}
use mathlib.Core.Path.{subst}
use mathlib.Core.Bool.{and-eq-true_iff}
use hermes_operator.Kube.Result.{Result, ok, err, Err, plain}
use hermes_operator.Oci.Cache.{
  CachedTags, OciClient, lookup, insert, Listing, listed, transport_error, failed, list_tags,
  after_list, is_fresh, read_clock, tags_of,
}

lookup-insert :
    (k j : String) (v : CachedTags) (m : List (String × CachedTags))
    → lookup j (insert k v m) ≡ (if str_eq k j then some v else lookup j m)
unfolding lookup insert
lookup-insert k j v [] = refl
lookup-insert k j v ((i, u) ∷ m) =
    ground (arith, eq_iff k j, eq_iff i k, eq_iff i j, lookup-insert k j v m)

module _ {W : Type 0} (now : W → ℕ × W) (valid_name : String → Bool)
    (list : String → W → Listing × W) where
  -- Every cached list was listed for its repository at some world.
  unfoldable pub IsGenuine : OciClient → Type 0
  IsGenuine c =
      (r : String) (v : CachedTags)
      → lookup r c.cache ≡ some v
      → (w : W) × ((list r w).0 ≡ listed v.tags)

  -- Within the ttl an answer comes from the cache: the registry is not asked, so whatever it would
  -- answer the result is the cached list, and the client does not change.
  pub list_tags_cached :
      (c : OciClient) (repository : String) (w : W) {v : CachedTags}
      → lookup repository c.cache ≡ some v
      → 0 < c.ttl
      → (now w).0 < v.fetched + c.ttl
      → list_tags now valid_name list c repository w ≡ (ok v.tags, c, (now w).1)
  unfolding list_tags
  list_tags_cached c repository w {v} h p q = rw (h, list_tags) (ground arith)

  insert-IsGenuine :
      (c : OciClient) (r : String) (v : CachedTags) (w : W)
      → IsGenuine c
      → (list r w).0 ≡ listed v.tags
      → IsGenuine (record c { cache = insert r v c.cache })
  unfolding IsGenuine
  insert-IsGenuine c r v w g e j u h = elim (Bool-cases (str_eq r j)) [
    | inl same ↦
        let e1 : r ≡ j = (eq_iff r j).0 same in
        let e2 : v ≡ u = ground (arith, lookup-insert r j v c.cache) in
        (
          w,
          subst (λ k. (list k w).0 ≡ listed u.tags) e1
              (subst (λ x. (list r w).0 ≡ listed x.tags) e2 e),
        )
    | inr other ↦ g j u (rw (lookup-insert r j v c.cache, other) at h)
  ]

  -- The answer was listed for the repository, and so is all that is cached.
  pub Listed : String → Result (List String) × OciClient × W → Type 0
  Listed r out =
      IsGenuine out.1
      × ((tags : List String) → out.0 ≡ ok tags → (w : W) × ((list r w).0 ≡ listed tags))

  err-Listed : (c : OciClient) (r : String) (e : Err) (w : W) → IsGenuine c → Listed r (err e, c, w)
  unfolding Listed
  err-Listed c r e w g = (g, λ ts same. absurd (ground arith))

  cached-Listed :
      (c : OciClient) (r : String) (o : Option CachedTags) (w : W)
      → IsGenuine c
      → lookup r c.cache ≡ o
      → is_some o ≡ true
      → Listed r (ok (tags_of o), c, w)
  unfolding Listed IsGenuine
  cached-Listed c r none w g h s = absurd (ground arith)
  cached-Listed c r (some v) w g h s = (g, λ ts same. let (w0, e) = g r v h in (w0, ground arith))

  after_list-Listed :
      (c : OciClient) (r : String) (w0 : W) (l : Listing) (w : W)
      → IsGenuine c
      → (list r w0).0 ≡ l
      → Listed r (after_list now valid_name list c r (lookup r c.cache) l w)
  unfolding Listed after_list
  after_list-Listed c r w0 (listed tags) w g e = (
    insert-IsGenuine c r (record { tags = tags; fetched = (now w).0 }) w0 g e,
    λ ts same. (w0, ground arith),
  )
  after_list-Listed c r w0 (transport_error code) w g e =
      elim (Bool-cases (code == 304 && is_some (lookup r c.cache))) [
        | inl kept ↦
            rw (kept)
              (cached-Listed c r (lookup r c.cache) w g refl ((and-eq-true_iff _ _).0 kept).1)
        | inr lost ↦ rw lost (err-Listed c r (plain "list tags") w g)
      ]
  after_list-Listed c r w0 failed w g e = err-Listed c r (plain "list tags") w g

  is_fresh-is_some :
      (t ttl : ℕ) (o : Option CachedTags) → is_fresh t ttl o ≡ true → is_some o ≡ true
  is_fresh-is_some t ttl none h = h
  is_fresh-is_some t ttl (some v) h = refl

  list_tags-Listed :
      (c : OciClient) (r : String) (w : W)
      → IsGenuine c
      → Listed r (list_tags now valid_name list c r w)
  unfolding list_tags
  list_tags-Listed c r w g =
      let o = lookup r c.cache in
      let (t, w1) = read_clock now valid_name list c o w in
      elim (Bool-cases (is_fresh t c.ttl o)) [
        | inl fresh ↦ rw fresh (cached-Listed c r o w1 g refl (is_fresh-is_some t c.ttl o fresh))
        | inr stale ↦ elim (Bool-cases (valid_name r)) [
          | inl good ↦
              rw (stale, good) (after_list-Listed c r w1 (list r w1).0 (list r w1).1 g refl)
          | inr bad ↦ rw (stale, bad) (err-Listed c r (plain "parse repository") w1 g)
        ]
      ]

  -- Whatever the registry answers, every list that the cache holds after a call was listed for its
  -- repository, if that held before the call.
  pub list_tags-IsGenuine :
      (c : OciClient) (r : String) (w : W)
      → IsGenuine c
      → IsGenuine (list_tags now valid_name list c r w).1
  unfolding Listed
  list_tags-IsGenuine c r w g = (list_tags-Listed c r w g).0

  -- A list of tags that is answered, from the cache or not, was listed for that repository.
  pub list_tags-ok :
      (c : OciClient) (r : String) (w : W) (tags : List String)
      → IsGenuine c
      → (list_tags now valid_name list c r w).0 ≡ ok tags
      → (w' : W) × ((list r w').0 ≡ listed tags)
  unfolding Listed
  list_tags-ok c r w tags g e = (list_tags-Listed c r w g).1 tags e
