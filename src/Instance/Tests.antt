-- ===== src/Instance/Tests.antt =====
-- Steps and turns of the main reconciler over a cluster that stores objects by their key.
use hermes_operator.Common.{str_eq-ne, true, some, [], ◌∷◌, ◌≡◌, refl, ℕ, get}
use hermes_operator.Kube.Result.{is_ok}
use hermes_operator.Kube.Cluster.{Key, Object, service, config_map}
use hermes_operator.Kube.Client.{IsApiServer}
use hermes_operator.Controller.{St}
use hermes_operator.Api.Instance.{finalizer_semaphore_cleanup}
use hermes_operator.Resources.Workspace.{workspace_config_map_name}
use hermes_operator.Resources.Secret.{generate_api_server_key}
use hermes_operator.Instance.Objects.{key}
use hermes_operator.Instance.Steps.{
  reconcile_secret, secret_mutate, reconcile_service, service_mutate,
}
use hermes_operator.Instance.Secrets.{reconcile_secret-HasKey, HasKey, secret_key}
use hermes_operator.Instance.Tracks.{toggle-PartsTrack, PartsTrack, reconcile_service_address}
use hermes_operator.Resources.Workspace.Seeded.{Seeded}
use hermes_operator.Api.Instance.{HermesInstance}
use hermes_operator.Instance.Reconcile.{reconcile_found}
use hermes_operator.Instance.Ordered.{Updates, reconcile_found-Updates}
use hermes_operator.Instance.Deletes.{Deletes, reconcile_found-Deletes}
use hermes_operator.Fixtures.Instances.{plain_instance}
use hermes_operator.Fixtures.Conditions.{library-IsLibrary}
use hermes_operator.Fixtures.Clusters.{
  Store, stored, store_cluster-IsCluster, store_reconciler, no_objects, with_object, bare,
}

-- The first step draws a key.
drawn : is_ok (reconcile_secret store_reconciler plain_instance no_objects).0 ≡ true
unfolding reconcile_secret secret_mutate get generate_api_server_key
drawn = refl

reconcile_secret-HasKey_example :
    (new : Object ℕ) × (stored
        (secret_key store_reconciler plain_instance)
        (reconcile_secret store_reconciler plain_instance no_objects).1
      ≡ some new)
    × HasKey store_reconciler plain_instance bare new
reconcile_secret-HasKey_example =
    reconcile_secret-HasKey store_reconciler stored store_cluster-IsCluster plain_instance
      no_objects drawn

toggle-PartsTrack_example :
    PartsTrack store_reconciler stored store_cluster-IsCluster plain_instance no_objects
toggle-PartsTrack_example =
    toggle-PartsTrack store_reconciler stored store_cluster-IsCluster plain_instance no_objects

abbrev addressed : Object ℕ
addressed = record bare { cluster_ip = "10.0.0.1" }

abbrev with_service : Store
with_service = with_object (key service "hermes" plain_instance) (some addressed) no_objects

reconcile_service_address_example :
    (new : Object ℕ) × (stored
        (key service "hermes" plain_instance)
        (reconcile_service store_reconciler plain_instance with_service).1
      ≡ some new)
    × (new.cluster_ip ≡ "10.0.0.1")
unfolding reconcile_service service_mutate
reconcile_service_address_example =
    reconcile_service_address store_reconciler stored store_cluster-IsCluster plain_instance
      with_service addressed refl refl (str_eq-ne "10.0.0.1" "" refl)

-- What a request of the agent has put there.
abbrev patched : Object ℕ
patched = record bare { entries = ("selfconfig.yaml", "a: 1") ∷ [] }

abbrev workspace_key : Key
workspace_key = key config_map (workspace_config_map_name plain_instance) plain_instance

abbrev with_workspace : Store
with_workspace = with_object workspace_key (some patched) no_objects

-- An instance that seeds a file and two directories.
abbrev seeding : HermesInstance
seeding = record plain_instance {
  spec = record plain_instance.spec {
    workspace = record plain_instance.spec.workspace {
      initial_files = record { path = "a/b.md"; content = "text" } ∷ [];
      initial_dirs = "z" ∷ "y" ∷ [];
    };
  };
}

abbrev fresh : St Store
fresh = record { inst = plain_instance; world = no_objects; events = [] }

reconcile_found-Updates_example :
    Updates store_reconciler fresh (reconcile_found store_reconciler fresh)
reconcile_found-Updates_example = reconcile_found-Updates store_reconciler fresh refl

abbrev dying : St Store
dying = record {
  inst = record plain_instance {
    meta = record plain_instance.meta {
      finalizers = finalizer_semaphore_cleanup ∷ [];
      deletion_timestamp = some 0;
    };
  };
  world = no_objects;
  events = [];
}

api-IsApiServer : IsApiServer store_reconciler.updater.client
api-IsApiServer = record {
  status-update_status = λ i w. refl;
  finalizers-patch_instance = λ o i w. refl;
}

reconcile_found-Deletes_example :
    Deletes store_reconciler dying (reconcile_found store_reconciler dying)
reconcile_found-Deletes_example =
    reconcile_found-Deletes store_reconciler library-IsLibrary api-IsApiServer dying 0 refl
