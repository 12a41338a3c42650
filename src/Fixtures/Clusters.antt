-- ===== src/Fixtures/Clusters.antt =====
-- A cluster that stores objects by their key, and a reconciler over it whose builders build objects
-- without labels.
use hermes_operator.Common.{
  ℕ, String, Bool, true, false, ◌&&◌, ◌==◌, is_cons, Bool-cases, inl, inr, Option, none, some, [],
  ◌∷◌, ◌≡◌, refl, ap, sym, arith, eq_iff, str_eq, if◌then◌else◌,
}
use mathlib.Core.Path.{subst}
use hermes_operator.Kube.Result.{Result, ok, err, Err, not_found, is_ok}
use hermes_operator.Kube.Client.{answer_or}
use hermes_operator.Kube.Cluster.{
  Kind, Key, Object, Cluster, IsCluster, IsKept, IsDeleted, found_or, secret, pvc, config_map,
  network_policy, service_account, role, role_binding, service, pdb, hpa, ingress, http_route,
  service_monitor, prometheus_rule, stateful_set, deployment,
}
use hermes_operator.Api.Instance.{HermesInstance}
use hermes_operator.AutoUpdate.{AutoUpdateReconciler}
use hermes_operator.Semaphore.{Http, Response}
use hermes_operator.Fixtures.Keys.{keys_yaml}
use hermes_operator.Instance.{Builders, HermesInstanceReconciler}
use hermes_operator.Fixtures.Instances.{plain_instance}
use hermes_operator.Fixtures.Conditions.{library}
use hermes_operator.Fixtures.Server.{server_over, sts_at}
use hermes_operator.Fixtures.Versions.{by_length}

abbrev kind_code : Kind → ℕ
kind_code secret = 0
kind_code pvc = 1
kind_code config_map = 2
kind_code network_policy = 3
kind_code service_account = 4
kind_code role = 5
kind_code role_binding = 6
kind_code service = 7
kind_code pdb = 8
kind_code hpa = 9
kind_code ingress = 10
kind_code http_route = 11
kind_code service_monitor = 12
kind_code prometheus_rule = 13
kind_code stateful_set = 14
kind_code deployment = 15

abbrev same_key : Key → Key → Bool
same_key j k =
    kind_code j.kind == kind_code k.kind && (str_eq j.name k.name && str_eq j.namespace k.namespace)

same_key_refl : (k : Key) → same_key k k ≡ true
same_key_refl k = ground (arith, eq_iff k.name k.name, eq_iff k.namespace k.namespace)

abbrev pub Store : Type 0
Store = Key → Option (Object ℕ)

abbrev pub no_objects : Store
no_objects k = none

abbrev pub bare : Object ℕ
bare = record {
  labels = [];
  annotations = [];
  owner = none;
  secret_type = "";
  entries = [];
  cluster_ip = "";
  cluster_ips = [];
  finalizers = [];
  deletion_timestamp = none;
  spec = 0;
}

abbrev pub with_object : Key → Option (Object ℕ) → Store → Store
with_object k o w j = if same_key j k then o else w j

abbrev found : Option (Object ℕ) → Result (Object ℕ)
found none = err not_found
found (some o) = ok o

abbrev apply_answer : Key → Result (Object ℕ) × Store → Result (Unit {0}) × Store
apply_answer k (ok o, w) = (ok tt, with_object k (some o) w)
apply_answer k (err e, w) = (err e, w)

-- An object with finalizers stays.
abbrev after_delete : Option (Object ℕ) → Option (Object ℕ)
after_delete none = none
after_delete (some o) =
    if is_cons o.finalizers then some (record o { deletion_timestamp = some 0 }) else none

abbrev pub store_cluster : Cluster Store ℕ
store_cluster = record {
  get = λ k w. (found (w k), w);
  create = λ k o w. (ok tt, with_object k (some o) w);
  delete = λ k w. (ok tt, with_object k (after_delete (w k)) w);
  create_or_update = λ k f w. apply_answer k (f (found_or bare (w k)) w);
  set_controller_reference = λ i o. ok (record o { owner = some i.meta.name });
  empty = bare;
}

abbrev pub stored : Key → Store → Option (Object ℕ)
stored k w = w k

with_object_same : (k : Key) (o : Option (Object ℕ)) (w : Store) → with_object k o w k ≡ o
with_object_same k o w = rw (same_key_refl k) refl

apply_answer-ok :
    (k : Key) (w : Store) (q : Result (Object ℕ) × Store)
    → is_ok (apply_answer k q).0 ≡ true
    → (given o : Object ℕ) × (q.0 ≡ ok given)
      × ((apply_answer k q).1 k ≡ some o)
      × IsKept ℕ given o
      × (given.spec == o.spec ≡ true)
apply_answer-ok k w (ok o, v) e = (
  o,
  o,
  refl,
  with_object_same k (some o) v,
  record {
    labels = refl;
    annotations = refl;
    owner = refl;
    entries = refl;
    cluster_ip = λ d. refl;
  },
  ground arith,
)
apply_answer-ok k w (err x, v) e = ground arith

found-none : (o : Option (Object ℕ)) (e : Err) → found o ≡ err e → o ≡ none
found-none none e p = refl
found-none (some o) e p = ground arith

found-some : (o : Option (Object ℕ)) (p : Object ℕ) → found o ≡ ok p → o ≡ some p
found-some none p e = ground arith
found-some (some o) p e = ap (λ r. some (answer_or r o)) e

after_delete-IsDeleted : (o : Option (Object ℕ)) → IsDeleted (after_delete o)
after_delete-IsDeleted none = tt
after_delete-IsDeleted (some o) = elim (Bool-cases (is_cons o.finalizers)) [
  | inl held ↦ rw held ((λ e. let empty = ap is_cons e in ground arith), λ e. ground arith)
  | inr free ↦ rw free tt
]

pub store_cluster-IsCluster : IsCluster Store ℕ store_cluster stored
store_cluster-IsCluster = record {
  fits = λ a b. a == b;
  create_or_update-ok = λ k f w e.
      let (given, o, made, kept, same, fit) = apply_answer-ok k w (f (found_or bare (w k)) w) e in
      (w, given, o, made, kept, same, fit);
  get-none = λ k w e p m. found-none (w k) e p;
  get-stored = λ k j w. refl;
  get-ok = λ k w o p. found-some (w k) o p;
  delete-ok = λ k w e.
      subst IsDeleted (sym (with_object_same k (after_delete (w k)) w))
        (after_delete-IsDeleted (w k));
  delete-none = λ k w e p m. ground arith;
  set_controller_reference-ok = λ i o p e. sym (ap (λ r. answer_or r o) e);
}

-- A Semaphore server that knows the project 7 and the users 1 and 8 of the plain instance.
abbrev pub semaphore_answer : Response
semaphore_answer = record {
  status = 200;
  cookies = ("semaphore", "c") ∷ [];
  named = ok (
      record { id = 7; name = "hermes" }
      ∷ record { id = 1; name = "admin" }
      ∷ record { id = 8; name = "hermes-agent" }
      ∷ []);
  id = ok 9;
  token = ok "t";
}

abbrev pub semaphore_server : {W : Type 0} → Http W
semaphore_server = record { send = λ q w. (ok semaphore_answer, w); trim_space = λ s. s }

abbrev pub store_updater : AutoUpdateReconciler String String Store
store_updater = record {
  library = library;
  client = server_over (λ w. 0) (err not_found) (sts_at "hermes:1" 1) [] [];
  semver = by_length;
  registry_set = false;
  backup_set = true;
  parse_duration = λ s. none;
}

abbrev pub build_bare : HermesInstance → Object ℕ
build_bare i = bare

abbrev pub bare_builders : Builders ℕ ℕ
bare_builders = record {
  no_spec = 0;
  semaphore_soul_block = "soul";
  pvc = build_bare;
  tailscale_serve_config = λ i. "{}";
  network_policy = build_bare;
  service_account = build_bare;
  role = build_bare;
  role_binding = build_bare;
  service = build_bare;
  pdb = build_bare;
  hpa = build_bare;
  ingress = build_bare;
  http_route = build_bare;
  service_monitor = build_bare;
  prometheus_rule = build_bare;
  grafana_dashboard_operator = build_bare;
  grafana_dashboard_instance = build_bare;
  restore_init_container = λ i. none;
  migration_init_container = λ i. none;
  stateful_set = λ i inits. bare;
  append_volume = λ v o. o;
  honcho_pvc = build_bare;
  honcho_service = build_bare;
  honcho_deployment = build_bare;
  honcho_network_policy = build_bare;
}

abbrev pub store_reconciler : HermesInstanceReconciler String String Store ℕ ℕ
store_reconciler = record {
  cluster = store_cluster;
  builders = bare_builders;
  random = record { read = λ n w. (ok [], w); encode_to_string = λ b. "k" };
  yaml = keys_yaml;
  http = semaphore_server;
  updater = store_updater;
  backup_set = true;
  migration_set = true;
  restore_set = true;
  auto_update_set = true;
  prometheus_operator_crds_present = false;
  get_instance = λ ns n w. (ok plain_instance, w);
  get_ready_replicas = λ ns n w. (ok 1, w);
}
