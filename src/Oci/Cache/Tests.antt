-- ===== src/Oci/Cache/Tests.antt =====
-- A client with a ttl of 300 that lists at 10, and a registry that answers with the clock.
use hermes_operator.Common.{ℕ, String, Bool, true, [], ◌∷◌, ◌≡◌, refl, arith}
use hermes_operator.Kube.Result.{ok}
use hermes_operator.Oci.Cache.{OciClient, new_client, lookup, insert, Listing, listed, list_tags}
use hermes_operator.Oci.Cache.Fresh.{IsGenuine, list_tags-IsGenuine}

abbrev clock : ℕ → ℕ × ℕ
clock w = (w, w)

abbrev any_name : String → Bool
any_name r = true

abbrev registry : String → ℕ → Listing × ℕ
registry r w = (listed (r ∷ []), w)

abbrev filled : OciClient
filled = record { cache = ("repo", record { tags = "1" ∷ []; fetched = 10 }) ∷ []; ttl = 300 }

-- The first call lists, and the cache holds the answer.
first_lists : list_tags clock any_name registry (new_client 300) "repo" 10 ≡ (
  ok ("repo" ∷ []),
  record { cache = ("repo", record { tags = "repo" ∷ []; fetched = 10 }) ∷ []; ttl = 300 },
  10,
)
unfolding list_tags new_client insert
first_lists = refl

new_client-IsGenuine : IsGenuine clock any_name registry (new_client 300)
unfolding IsGenuine new_client lookup
new_client-IsGenuine r v e = absurd (ground arith)

list_tags-IsGenuine_example :
    IsGenuine clock any_name registry
      (list_tags clock any_name registry (new_client 300) "repo" 10).1
list_tags-IsGenuine_example =
    list_tags-IsGenuine clock any_name registry (new_client 300) "repo" 10 new_client-IsGenuine
