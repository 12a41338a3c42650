-- ===== src/Instance/Deletes.antt =====
-- internal/controller/hermesinstance_controller.go: the deletion path of `Reconcile`.
use hermes_operator.Common.{
  ℕ, Bool, true, false, not, ◌≡◌, ◌⊎◌, inl, inr, refl, ap, sym, arith, Option, some, none,
  if◌then◌else◌, is_some,
}
use hermes_operator.Common.Flow.{M, run, sub, ◌>>=◌, ◌>>◌, when, return_if}
use hermes_operator.Api.Instance.{finalizer_semaphore_cleanup}
use hermes_operator.Kube.Result.{Result, ok, err, Err, is_ok}
use hermes_operator.Kube.Library.{IsLibrary}
use hermes_operator.Kube.Client.{IsApiServer}
use hermes_operator.Controller.{St, instance_now, set_finalizers}
use hermes_operator.Backup.Deletion.{Held, handle_deletion}
use hermes_operator.Semaphore.Cleanup.{Cleaned, cleaned, panicked, semaphore_cleanup}
use hermes_operator.Instance.{HermesInstanceReconciler}
use hermes_operator.Instance.Reconcile.{
  Outcome, requeue, failed, panic, delete_instance, update_instance, reconcile_found, after_backup,
  wants_cleanup, after_cleanup,
}

-- An error, or a backup that is not finished.
abbrev pub IsHeld : Held → Type 0
IsHeld h = is_ok h.result ≡ true → h.held ≡ true

abbrev held_outcome : Result ℕ → Outcome
held_outcome (ok n) = requeue n
held_outcome (err e) = failed e

module _ {V C W S I : Type 0} (r : HermesInstanceReconciler V C W S I) where
  open r use {updater}
  open updater use {library, client}

  -- The backup sub-controller, if there is one, has let the instance go, and left this state.
  abbrev pub IsReleased : St W → St W → Type 0
  IsReleased s t =
      ((r.backup_set ≡ false) × (t ≡ s))
      ⊎ ((r.backup_set ≡ true)
          × ((handle_deletion library client s).0.held ≡ false)
          × (t ≡ (handle_deletion library client s).1))

  -- The ways of a turn that deletes an instance.
  pub data Deletes (s : St W) : Outcome × St W → Type 0 where
    -- The backup fails or holds the instance: nothing else is done.
    held_back :
        {out : Outcome × St W}
        → r.backup_set ≡ true
        → IsHeld (handle_deletion library client s).0
        → out.0 ≡ held_outcome (handle_deletion library client s).0.result
        → out.1 ≡ (handle_deletion library client s).1
        → Deletes s out
    -- The Semaphore server is not to be cleaned up.
    left :
        {out : Outcome × St W}
        → IsReleased s out.1
        → wants_cleanup r out.1.inst ≡ false
        → out.0 ≡ requeue 0
        → Deletes s out
    -- The cleanup fails: it is tried again after 30 seconds.
    retried :
        {out : Outcome × St W} (t : St W) (e : Err)
        → IsReleased s t
        → wants_cleanup r t.inst ≡ true
        → semaphore_cleanup r.cluster r.http t ≡ (cleaned (err e), out.1)
        → out.0 ≡ requeue 30
        → Deletes s out
    crashed :
        {out : Outcome × St W} (t : St W)
        → IsReleased s t
        → wants_cleanup r t.inst ≡ true
        → semaphore_cleanup r.cluster r.http t ≡ (panicked, out.1)
        → out.0 ≡ panic
        → Deletes s out
    -- The cleanup has succeeded: the finalizer is off the instance in memory.
    let_go :
        {out : Outcome × St W} (t u : St W)
        → IsReleased s t
        → wants_cleanup r t.inst ≡ true
        → semaphore_cleanup r.cluster r.http t ≡ (cleaned (ok tt), u)
        → out ≡ run (after_cleanup r (cleaned (ok tt))) u
        → library.contains_finalizer out.1.inst.meta.finalizers finalizer_semaphore_cleanup ≡ false
        → Deletes s out

  -- What follows the backup.
  abbrev rest : M (St W) Outcome Outcome
  rest = do
    i ← instance_now
    return_if (not (wants_cleanup r i)) (requeue 0)
    answer ← sub (semaphore_cleanup r.cluster r.http)
    after_cleanup r answer

  module _ (ll : IsLibrary library) (lc : IsApiServer client) where
    -- After the patch the finalizer is off the instance in memory.
    after_cleanup-contains_finalizer :
        (s : St W)
        → library.contains_finalizer
            (run (after_cleanup r (cleaned (ok tt))) s).1.inst.meta.finalizers
            finalizer_semaphore_cleanup
          ≡ false
    after_cleanup-contains_finalizer s =
        let off =
          set_finalizers (λ fs. library.remove_finalizer fs finalizer_semaphore_cleanup) s.inst in
        ground (
          arith,
          ll.contains-remove s.inst.meta.finalizers finalizer_semaphore_cleanup,
          lc.finalizers-patch_instance s.inst off s.world,
        )

    after_cleanup-Deletes :
        (s t : St W) (d : Cleaned) (u : St W)
        → IsReleased s t
        → wants_cleanup r t.inst ≡ true
        → semaphore_cleanup r.cluster r.http t ≡ (d, u)
        → Deletes s (run (after_cleanup r d) u)
    after_cleanup-Deletes s t panicked u free wants e = crashed t free wants e refl
    after_cleanup-Deletes s t (cleaned (err x)) u free wants e = retried t x free wants e refl
    after_cleanup-Deletes s t (cleaned (ok x)) u free wants e =
        let_go t u free wants e refl (after_cleanup-contains_finalizer u)

    wants_cleanup-Deletes :
        (s t : St W) (b : Bool)
        → IsReleased s t
        → wants_cleanup r t.inst ≡ b
        → Deletes s (
            run
              (return_if (not b) (requeue 0)
                >> (do answer ← sub (semaphore_cleanup r.cluster r.http); after_cleanup r answer))
              t)
    wants_cleanup-Deletes s t false free wants = left free wants refl
    wants_cleanup-Deletes s t true free wants =
        let out = semaphore_cleanup r.cluster r.http t in
        after_cleanup-Deletes s t out.0 out.1 free wants refl

    rest-Deletes : (s t : St W) → IsReleased s t → Deletes s (run rest t)
    rest-Deletes s t free = wants_cleanup-Deletes s t (wants_cleanup r t.inst) free refl

    after_backup-Deletes :
        (s t : St W) (q : Result ℕ) (b : Bool)
        → r.backup_set ≡ true
        → handle_deletion library client s ≡ (record { result = q; held = b }, t)
        → Deletes s (run (after_backup r (record { result = q; held = b }) >> rest) t)
    after_backup-Deletes s t (err x) b is_set e =
        held_back is_set (λ fine. ground (arith, e, fine))
          (sym (ap (λ o. held_outcome o.0.result) e)) (sym (ap (λ o. o.1) e))
    after_backup-Deletes s t (ok n) true is_set e =
        held_back is_set (λ fine. ap (λ o. o.0.held) e) (sym (ap (λ o. held_outcome o.0.result) e))
          (sym (ap (λ o. o.1) e))
    after_backup-Deletes s t (ok n) false is_set e =
        rest-Deletes s t (inr (is_set, ap (λ o. o.0.held) e, sym (ap (λ o. o.1) e)))

    backup-Deletes :
        (s : St W) (b : Bool)
        → r.backup_set ≡ b
        → Deletes s (
            run
              (when b (do held ← sub (handle_deletion library client); after_backup r held) >> rest)
              s)
    backup-Deletes s false e = rest-Deletes s s (inl (e, refl))
    backup-Deletes s true e =
        let out = handle_deletion library client s in
        after_backup-Deletes s out.1 out.0.result out.0.held e refl

    found-Deletes :
        (s : St W) (dt : Option ℕ) (n : ℕ)
        → dt ≡ some n
        → Deletes s (run (if is_some dt then delete_instance r else update_instance r) s)
    unfolding delete_instance
    found-Deletes s none n e = ground arith
    found-Deletes s (some m) n e = backup-Deletes s r.backup_set refl

    -- Where the API server keeps its documented answers, a turn on an instance that is being deleted
    -- ends in one of five ways. The backup fails or still holds the instance, and the turn returns
    -- its answer and does nothing else. Or the backup, if there is one, has let go, and: no cleanup
    -- of the Semaphore server is asked for, and nothing else is done; or the cleanup fails, and is
    -- tried again after 30 seconds; or it panics; or it succeeds, and the instance in memory no longer
    -- has the finalizer of the cleanup; that patch is then the only other call.
    pub reconcile_found-Deletes :
        (s : St W) (n : ℕ)
        → s.inst.meta.deletion_timestamp ≡ some n
        → Deletes s (reconcile_found r s)
    unfolding reconcile_found
    reconcile_found-Deletes s n e = found-Deletes s s.inst.meta.deletion_timestamp n e
