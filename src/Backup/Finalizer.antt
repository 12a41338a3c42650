-- ===== src/Backup/Finalizer.antt =====
-- internal/controller/backup.go: `EnsureFinalizer` and `RemoveFinalizer`.
pub mod Laws
mod Tests
use hermes_operator.Common.{not}
use hermes_operator.Common.Flow.{◌>>=◌, ◌>>◌, finish, return_if, run}
use hermes_operator.Api.Instance.{finalizer_backup_on_delete}
use hermes_operator.Kube.Result.{ok, err, wrap}
use hermes_operator.Kube.Library.{Library}
use hermes_operator.Kube.Client.{Client}
use hermes_operator.Controller.{St, write, change, instance_now, set_finalizers}
use hermes_operator.Backup.{Done}

module _ {W : Type 0} (l : Library) (c : Client W) where
  pub ensure_finalizer : St W → Done × St W
  ensure_finalizer = run do
    i ← instance_now
    return_if (not i.spec.backup.on_delete) (ok tt)
    return_if (l.contains_finalizer i.meta.finalizers finalizer_backup_on_delete) (ok tt)
    change (set_finalizers λ fs. l.add_finalizer fs finalizer_backup_on_delete)
    write (c.patch_instance i) (λ e. err (wrap "patch finalizer add" e))
    finish (ok tt)

  unfoldable pub remove_finalizer : St W → Done × St W
  remove_finalizer = run do
    i ← instance_now
    return_if (not (l.contains_finalizer i.meta.finalizers finalizer_backup_on_delete)) (ok tt)
    change (set_finalizers λ fs. l.remove_finalizer fs finalizer_backup_on_delete)
    write (c.patch_instance i) (λ e. err (wrap "patch finalizer remove" e))
    finish (ok tt)
