-- ===== src/Semaphore/Tests.antt =====
-- A provisioning that creates what is missing, and a cleanup that deletes a project and a user.
use hermes_operator.Common.{true, some, [], ◌∷◌, refl}
use hermes_operator.Controller.{St}
use hermes_operator.Api.Instance.{HermesInstance}
use hermes_operator.Semaphore.{admin_secret}
use hermes_operator.Semaphore.Cleanup.{semaphore_cleanup}
use hermes_operator.Semaphore.Log.{Logged, logged_cluster, logged_http, AllJustified, AllAllowed}
use hermes_operator.Semaphore.Deletions.{semaphore_cleanup-AllJustified}
use hermes_operator.Semaphore.Provision.{reconcile_semaphore}
use hermes_operator.Semaphore.Creations.{reconcile_semaphore-AllAllowed}
use hermes_operator.Kube.Client.{Client}
use hermes_operator.Kube.Result.{err, not_found}
use hermes_operator.Fixtures.Server.{server_over, sts_at}
use hermes_operator.Fixtures.Instances.{plain_instance}
use hermes_operator.Fixtures.Clusters.{
  Store, store_cluster, semaphore_server, no_objects, with_object, bare,
}

abbrev cleaned_instance : HermesInstance
cleaned_instance = record plain_instance {
  spec = record plain_instance.spec {
    semaphore = record plain_instance.spec.semaphore {
      enabled = some true;
      cleanup_on_delete = some true;
      admin_token_secret_ref = some (record { name = "admin"; key = "p" });
    };
  };
}

abbrev with_password : St (Logged Store)
with_password = record {
  inst = cleaned_instance;
  world = (
    with_object (admin_secret "admin") (some (record bare { entries = ("p", "x") ∷ [] }))
        no_objects,
    [],
  );
  events = [];
}

semaphore_cleanup-AllJustified_example :
    AllJustified cleaned_instance
      (semaphore_cleanup
        (logged_cluster store_cluster)
        (logged_http semaphore_server)
        with_password).1.world.1
semaphore_cleanup-AllJustified_example =
    semaphore_cleanup-AllJustified store_cluster semaphore_server with_password tt

abbrev provisioned_instance : HermesInstance
provisioned_instance = record cleaned_instance {
  spec = record cleaned_instance.spec {
    semaphore = record cleaned_instance.spec.semaphore {
      token_secret_ref = some (record { name = "token"; key = "t" });
    };
  };
}

abbrev api : Client (Logged Store)
api = server_over (λ w. 0) (err not_found) (sts_at "hermes:1" 1) [] []

abbrev unprovisioned : St (Logged Store)
unprovisioned = record with_password { inst = provisioned_instance }

reconcile_semaphore-AllAllowed_example :
    AllAllowed provisioned_instance
      (reconcile_semaphore
        (logged_cluster store_cluster)
        api
        (logged_http semaphore_server)
        0
        unprovisioned).1.world.1
reconcile_semaphore-AllAllowed_example =
    reconcile_semaphore-AllAllowed store_cluster api semaphore_server 0 (λ o j w. refl)
      unprovisioned tt
