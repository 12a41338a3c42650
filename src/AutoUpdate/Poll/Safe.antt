-- ===== src/AutoUpdate/Poll/Safe.antt =====
-- What the specification gives for one turn of the sub-controller.
use hermes_operator.Common.{true, ◌≡◌, ◌≢◌}
use hermes_operator.Kube.Client.{IsApiServer}
use hermes_operator.Controller.{St}
use hermes_operator.AutoUpdate.{AutoUpdateReconciler}
use hermes_operator.AutoUpdate.Tags.{tags_of, running, previous, IsSoleWriter, IsCoherent}
use hermes_operator.AutoUpdate.Tags.Coherent.{Step-IsCoherent, Step-rolled_back}
use hermes_operator.AutoUpdate.Drive.{rollback_enabled}
use hermes_operator.AutoUpdate.Poll.{reconcile}
use hermes_operator.AutoUpdate.Poll.Steps.{reconcile-Step}

module _ {V C W : Type 0} (a : AutoUpdateReconciler V C W) (h : IsApiServer a.client)
    (sole : IsSoleWriter a.client) (s : St W) where
  -- A turn keeps the tags coherent: the tag that runs is the one that a rollback goes back to, and
  -- a rollout in flight is not to the tag that runs.
  pub reconcile-IsCoherent :
      IsCoherent s.inst.spec.image.tag (tags_of s.inst)
      → IsCoherent s.inst.spec.image.tag (tags_of (reconcile a s).1.inst)
  reconcile-IsCoherent c = Step-IsCoherent c (reconcile-Step a h sole s)

  -- From coherent tags, a turn that records another failed tag has rolled back with rollbacks
  -- enabled: the failed tag is the one that was rolled out, the tag in its place is the last that
  -- succeeded (or the one of the spec), and the tag that runs is not the one that failed.
  pub reconcile-rolled_back :
      IsCoherent s.inst.spec.image.tag (tags_of s.inst)
      → (tags_of (reconcile a s).1.inst).last_failed ≢ (tags_of s.inst).last_failed
      → (rollback_enabled s.inst ≡ true)
        × ((tags_of (reconcile a s).1.inst).last_failed ≡ (tags_of s.inst).target)
        × ((tags_of (reconcile a s).1.inst).current
            ≡ previous s.inst.spec.image.tag (tags_of s.inst))
        × (running s.inst.spec.image.tag (tags_of (reconcile a s).1.inst)
            ≢ (tags_of (reconcile a s).1.inst).last_failed)
  reconcile-rolled_back c = Step-rolled_back c (reconcile-Step a h sole s)
