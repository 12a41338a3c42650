-- ===== src/AutoUpdate/Keeps.antt =====
-- Writes of the instance that keep the tags.
use hermes_operator.Common.{◌≡◌, ◌∙◌}
use hermes_operator.Common.Flow.{M, run, ◌>>◌}
use hermes_operator.Api.Instance.{HermesInstance}
use hermes_operator.Kube.Result.{Err}
use hermes_operator.Kube.Client.{Client, IsApiServer, answer_or}
use hermes_operator.Controller.{St, write}
use hermes_operator.Controller.Rules.{write_rule, Leaves}
use hermes_operator.AutoUpdate.Tags.{Tags, tags_of, IsSoleWriter}

abbrev pub Has : Tags → HermesInstance → Type 0
Has t i = tags_of i ≡ t

module _ {W : Type 0} (client : Client W) (h : IsApiServer client)
    (sole : IsSoleWriter client) where
  -- A status update keeps the tags.
  pub update_status-Has :
      (t : Tags) (i : HermesInstance) (w : W)
      → Has t i
      → Has t (answer_or (client.update_status i w).0 i)
  update_status-Has t i w e = rw (h.status-update_status i w) e

  module _ {R : Type 0} (G : HermesInstance → Type 0) (t : Tags)
      (enough : (i : HermesInstance) → Has t i → G i) where
    -- A part of a handler after which the tags are still `t`.
    abbrev pub Rest : M (St W) R R → Type 0
    Rest m = (s : St W) → Has t s.inst → Leaves G (run m s)

    pub update_status_rule :
        (on_error : Err → R) (m : M (St W) R R)
        → Rest m
        → Rest (write client.update_status on_error >> m)
    update_status_rule on_error m k s here =
        let (r, w) = client.update_status s.inst s.world in
        write_rule G (Has t) r on_error m (record s { world = w }) enough here
          (update_status-Has t s.inst s.world here)
          λ i there. k (record s { inst = i; world = w }) there

    pub patch_instance_rule :
        (o : HermesInstance) (on_error : Err → R) (m : M (St W) R R)
        → Rest m
        → Rest (write (client.patch_instance o) on_error >> m)
    patch_instance_rule o on_error m k s here =
        let (r, w) = client.patch_instance o s.inst s.world in
        write_rule G (Has t) r on_error m (record s { world = w }) enough here
          (sole.tags-patch_instance o s.inst s.world ∙ here)
          λ i there. k (record s { inst = i; world = w }) there
