-- ===== src/Backup/Finalizer/Laws.antt =====
-- What adding and removing the finalizer leaves behind.
use hermes_operator.Common.{Bool, true, false, ◌≡◌, arith}
use hermes_operator.Api.Instance.{HermesInstance, finalizer_backup_on_delete}
use hermes_operator.Kube.Result.{ok, is_ok}
use hermes_operator.Kube.Library.{Library, IsLibrary}
use hermes_operator.Kube.Client.{Client, IsApiServer}
use hermes_operator.Controller.{St, set_finalizers}
use hermes_operator.Backup.Finalizer.{ensure_finalizer, remove_finalizer}

-- The finalizer stands in the instance in memory.
abbrev pub has_finalizer : Library → HermesInstance → Bool
has_finalizer l i = l.contains_finalizer i.meta.finalizers finalizer_backup_on_delete

module _ {W : Type 0} (l : Library) (c : Client W) where
  -- A removal that reports success leaves an instance without the finalizer.
  pub remove_finalizer-ok :
      (h : IsLibrary l) (a : IsApiServer c) (s : St W)
      → (remove_finalizer l c s).0 ≡ ok tt
      → has_finalizer l (remove_finalizer l c s).1.inst ≡ false
  unfolding remove_finalizer
  remove_finalizer-ok h a s e =
      let i = s.inst in
      let gone = set_finalizers (λ fs. l.remove_finalizer fs finalizer_backup_on_delete) i in
      ground (
        arith,
        h.contains-remove i.meta.finalizers finalizer_backup_on_delete,
        a.finalizers-patch_instance i gone s.world,
      )

  -- With backup on delete asked for, success means that the instance has the finalizer.
  pub ensure_finalizer-ok :
      (h : IsLibrary l) (a : IsApiServer c) (s : St W)
      → s.inst.spec.backup.on_delete ≡ true
      → (ensure_finalizer l c s).0 ≡ ok tt
      → has_finalizer l (ensure_finalizer l c s).1.inst ≡ true
  unfolding ensure_finalizer
  ensure_finalizer-ok h a s on e =
      let i = s.inst in
      let added = set_finalizers (λ fs. l.add_finalizer fs finalizer_backup_on_delete) i in
      ground (
        arith,
        h.contains-add i.meta.finalizers finalizer_backup_on_delete,
        a.finalizers-patch_instance i added s.world,
      )

  -- If every patch is accepted, the removal reports success.
  pub remove_finalizer_total :
      (s : St W)
      → ((o i : HermesInstance) (w : W) → is_ok (c.patch_instance o i w).0 ≡ true)
      → (remove_finalizer l c s).0 ≡ ok tt
  unfolding remove_finalizer
  remove_finalizer_total s fine =
      let gone = set_finalizers (λ fs. l.remove_finalizer fs finalizer_backup_on_delete) s.inst in
      ground (arith, fine s.inst gone s.world)
