-- ===== src/Oci/Cache.antt =====
-- internal/oci/client.go: `NewClient` and `ListTags` with its cache of tag lists. Times are in
-- seconds. Parsing a repository name and listing its tags are calls of go-containerregistry: a
-- section's parameters. The mutex only guards the map, and one call at a time is modelled.
pub mod Fresh
mod Tests
use hermes_operator.Common.{
  ℕ, ◌+◌, String, Bool, true, false, Option, none, some, List, [], ◌∷◌, if◌then◌else◌, ◌&&◌, ltb,
  ◌==◌, str_eq, is_some,
}
use hermes_operator.Kube.Result.{Result, ok, err, plain}

pub record CachedTags : Type 0 where
  pub tags : List String
  pub fetched : ℕ

-- The map of the client, and its ttl; 0 is no caching.
pub record OciClient : Type 0 where
  pub cache : List (String × CachedTags)
  pub ttl : ℕ

unfoldable pub new_client : ℕ → OciClient
new_client ttl = record { cache = []; ttl = ttl }

pub lookup : String → List (String × CachedTags) → Option CachedTags
lookup k [] = none
lookup k ((j, v) ∷ m) = if str_eq j k then some v else lookup k m

pub insert : String → CachedTags → List (String × CachedTags) → List (String × CachedTags)
insert k v [] = (k, v) ∷ []
insert k v ((j, u) ∷ m) = if str_eq j k then (k, v) ∷ m else (j, u) ∷ insert k v m

-- The answer of the registry: a list of tags, a transport error with its status code, or another.
pub data Listing : Type 0 where
  listed : List String → Listing
  transport_error : ℕ → Listing
  failed : Listing

abbrev pub is_fresh : ℕ → ℕ → Option CachedTags → Bool
is_fresh now ttl none = false
is_fresh now ttl (some cached) = ltb 0 ttl && ltb now (cached.fetched + ttl)

abbrev pub tags_of : Option CachedTags → List String
tags_of none = []
tags_of (some cached) = cached.tags

module _ {W : Type 0} (now : W → ℕ × W) (valid_name : String → Bool)
    (list : String → W → Listing × W) where
  -- The part after a listing; `cached` is what the cache held.
  after_list :
      OciClient → String → Option CachedTags → Listing → W → Result (List String) × OciClient × W
  after_list c repository cached (listed tags) w =
      let (t, w') = now w in
      (
        ok tags,
        record c { cache = insert repository (record { tags = tags; fetched = t }) c.cache },
        w',
      )
  after_list c repository cached (transport_error code) w =
      if code == 304 && is_some cached
      then (ok (tags_of cached), c, w)
      else (err (plain "list tags"), c, w)
  after_list c repository cached failed w = (err (plain "list tags"), c, w)

  -- The clock is read only if the repository is cached and the client caches.
  abbrev pub read_clock : OciClient → Option CachedTags → W → ℕ × W
  read_clock c none w = (0, w)
  read_clock c (some cached) w = if ltb 0 c.ttl then now w else (0, w)

  pub list_tags : OciClient → String → W → Result (List String) × OciClient × W
  unfolding after_list lookup
  list_tags c repository w =
      let cached = lookup repository c.cache in
      let (t, w1) = read_clock c cached w in
      if is_fresh t c.ttl cached
      then (ok (tags_of cached), c, w1)
      else if valid_name repository
      then (let (listing, w2) = list repository w1 in after_list c repository cached listing w2)
      else (err (plain "parse repository"), c, w1)
