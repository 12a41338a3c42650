-- ===== src/Kube/Cluster.antt =====
-- The objects that belong to an instance, and the calls that keep them: the API server's, and
-- `CreateOrUpdate` and `SetControllerReference` of controller-runtime's controllerutil. None of
-- these is in the repository: they are an interface, and `IsCluster` says what is documented.
use hermes_operator.Common.{ℕ, String, Bool, true, Option, none, some, List, [], Entries, ◌≡◌, ◌≢◌}
use hermes_operator.Api.Instance.{HermesInstance}
use hermes_operator.Kube.Result.{Result, ok, err, is_ok, is_not_found, Err}

pub data Kind : Type 0 where
  secret pvc config_map network_policy service_account role role_binding service pdb hpa : Kind
  ingress http_route service_monitor prometheus_rule stateful_set deployment : Kind

pub record Key : Type 0 where
  pub kind : Kind
  pub name : String
  pub namespace : String

-- An object with the fields that the reconciler treats one by one; a field that its kind does not
-- have is empty. `entries` is the `Data` of a Secret or a ConfigMap, `spec` all that a builder sets
-- as a whole (a `Spec`, a Role's rules, the subjects of a RoleBinding).
pub record Object (S : Type 0) : Type 0 where
  pub labels : Entries
  pub annotations : Entries
  pub finalizers : List String
  pub deletion_timestamp : Option ℕ
  pub owner : Option String
  pub secret_type : String
  pub entries : Entries
  pub cluster_ip : String
  pub cluster_ips : List String
  pub spec : S

-- The function that `CreateOrUpdate` calls on the object that it has read; it may fail, and may
-- change the world (`crypto/rand`).
abbrev pub Mutate : Type 0 → Type 0 → Type 0
Mutate W S = Object S → W → Result (Object S) × W

pub record Cluster (W S : Type 0) : Type 0 where
  pub get : Key → W → Result (Object S) × W
  pub create : Key → Object S → W → Result (Unit {0}) × W
  pub delete : Key → W → Result (Unit {0}) × W
  pub create_or_update : Key → Mutate W S → W → Result (Unit {0}) × W
  pub set_controller_reference : HermesInstance → Object S → Result (Object S)
  -- The object that `CreateOrUpdate` hands over where there is none yet.
  pub empty : Object S

-- What the API server keeps of an object that it is given. It may default the rest, and gives a
-- Service without an address one.
pub record IsKept (S : Type 0) (given stored : Object S) : Type 0 where
  pub labels : stored.labels ≡ given.labels
  pub annotations : stored.annotations ≡ given.annotations
  pub owner : stored.owner ≡ given.owner
  pub entries : stored.entries ≡ given.entries
  pub cluster_ip : given.cluster_ip ≢ "" → stored.cluster_ip ≡ given.cluster_ip

abbrev pub found_or : {S : Type 0} → Object S → Option (Object S) → Object S
found_or d none = d
found_or d (some o) = o

-- What an accepted deletion leaves: no object, or one with finalizers, which stays until they are
-- removed and is marked.
abbrev pub IsDeleted : {S : Type 0} → Option (Object S) → Type 0
IsDeleted none = Unit
IsDeleted (some o) = (o.finalizers ≢ []) × (o.deletion_timestamp ≢ none)

-- What is documented of the calls, against what the server stores under a key.
pub record IsCluster (W S : Type 0) (c : Cluster W S) (stored : Key → W → Option (Object S))
    : Type 0 where
  -- Whether a stored spec is a given one with what the server defaults.
  pub fits : S → S → Bool
  -- An update stores what the function has made of the object stored before, or of the empty one.
  pub create_or_update-ok :
      (k : Key) (f : Mutate W S) (w : W)
      → is_ok (c.create_or_update k f w).0 ≡ true
      → (v : W) × (given : Object S) × (o : Object S) × ((f (found_or c.empty (stored k w)) v).0
          ≡ ok given)
        × (stored k (c.create_or_update k f w).1 ≡ some o)
        × IsKept S given o
        × (fits given.spec o.spec ≡ true)
  pub get-none :
      (k : Key) (w : W) (e : Err)
      → (c.get k w).0 ≡ err e
      → is_not_found e ≡ true
      → stored k (c.get k w).1 ≡ none
  pub get-stored : (k j : Key) (w : W) → stored j (c.get k w).1 ≡ stored j w
  pub get-ok : (k : Key) (w : W) (o : Object S) → (c.get k w).0 ≡ ok o → stored k w ≡ some o
  pub delete-ok :
      (k : Key) (w : W) → is_ok (c.delete k w).0 ≡ true → IsDeleted (stored k (c.delete k w).1)
  pub delete-none :
      (k : Key) (w : W) (e : Err)
      → (c.delete k w).0 ≡ err e
      → is_not_found e ≡ true
      → stored k (c.delete k w).1 ≡ none
  pub set_controller_reference-ok :
      (i : HermesInstance) (o p : Object S)
      → c.set_controller_reference i o ≡ ok p
      → p ≡ record o { owner = some i.meta.name }
