-- ===== src/Semaphore/Creations.antt =====
-- internal/controller/hermesinstance_controller.go: what `reconcileSemaphore` creates.
use hermes_operator.Common.{
  ℕ, String, Bool, true, false, not, ◌≡◌, sym, Option, some, none, is_empty, get, text_or_empty,
}
use mathlib.Core.Path.{subst}
use hermes_operator.Common.Flow.{M, run, ◌>>=◌, ◌>>◌, finish, return_if}
use hermes_operator.Api.Features.{SecretKeySelector}
use hermes_operator.Api.Instance.{HermesInstance}
use hermes_operator.Kube.Result.{Result, ok, err, Err, plain}
use hermes_operator.Kube.Client.{Client}
use hermes_operator.Kube.Cluster.{Object, Cluster}
use hermes_operator.Controller.{St, store, change, write}
use hermes_operator.Controller.After.{
  After, bind_rule, checked_rule, guard_rule, optional_rule, ended_rule,
}
use hermes_operator.Semaphore.{Http, log_in}
use hermes_operator.Semaphore.Provision.{
  Done, reconcile_semaphore, provision, ensure_project, ensure_user, ensure_member, ensure_token,
  with_refs, ensure_skill, fails, add_skill, has_skill,
}
use hermes_operator.Resources.Names.{semaphore_enabled}
use hermes_operator.Semaphore.Log.{Logged, logged_http, logged_cluster, AllAllowed}
use hermes_operator.Semaphore.Posts.{
  log_in-Keeps, ensure_project-Keeps, ensure_user-Keeps, ensure_member-Keeps, ensure_token-Keeps,
}

-- The API server's calls on the instance leave the log alone.
module _ {W S : Type 0} (c : Cluster W S) (k : Client (Logged W)) (h : Http W) (no_spec : S)
    (i : HermesInstance)
    (quiet : (o j : HermesInstance) (w : Logged W) → (k.patch_instance o j w).1.1 ≡ w.1) where
  abbrev I : St (Logged W) → Type 0
  I s = AllAllowed i s.world.1

  store-Keeps :
      (r : Result HermesInstance) (f : Err → Done) (s : St (Logged W))
      → I s
      → After {A = Unit {0}} I (λ _. I) (store r f s)
  store-Keeps (ok j) f s a = a
  store-Keeps (err e) f s a = a

  ensure_skill-Keeps :
      (s : St (Logged W))
      → I s
      → After I (λ _. I) (ensure_skill (logged_cluster c) k (logged_http h) no_spec s)
  unfolding ensure_skill
  ensure_skill-Keeps s a =
      let j = add_skill s.inst in
      let (answer, w) = k.patch_instance s.inst j s.world in
      optional_rule {R = Done} I (not (has_skill s.inst.spec.skills))
        (change add_skill >> write (k.patch_instance s.inst) (fails "patch semaphore skill")) s a
        (store-Keeps answer (fails "patch semaphore skill") (record s { inst = j; world = w })
          (subst (AllAllowed i) (sym (quiet s.inst j s.world)) a))

  -- What follows the project and the user.
  abbrev settle : String → String → ℕ → ℕ → SecretKeySelector → M (St (Logged W)) Done Done
  settle base cookie project user token = do
    ensure_member (logged_cluster c) k (logged_http h) no_spec base cookie project user
    ensure_token (logged_cluster c) k (logged_http h) no_spec i token
    ensure_skill (logged_cluster c) k (logged_http h) no_spec
    finish (ok tt)

  settle-Keeps :
      (base cookie : String) (project user : ℕ) (token : SecretKeySelector) (s : St (Logged W))
      → I s
      → After I (λ _. I) (settle base cookie project user token s)
  settle-Keeps base cookie project user token s a =
      bind_rule I (λ _. I) (λ _. I) _ _
        (ensure_member-Keeps c k h no_spec i base cookie project user s a)
        λ _ t a1.
          bind_rule I (λ _. I) (λ _. I) _ _ (ensure_token-Keeps c k h no_spec i token t a1)
            λ _ u a2. bind_rule I (λ _. I) (λ _. I) _ _ (ensure_skill-Keeps u a2) λ _ v a3. a3

  provision-Keeps :
      (admin token : SecretKeySelector) (s : St (Logged W))
      → I s
      → After I (λ _. I) (provision (logged_cluster c) k (logged_http h) no_spec i admin token s)
  unfolding provision
  provision-Keeps admin token s a =
      let base = i.spec.semaphore.url in
      bind_rule I (λ _. I) (λ _. I) _ _ (checked_rule I (λ _. I) _ _ _ a λ _ _. a)
        λ (found : Object S) t a1.
          let password = h.trim_space (text_or_empty (get admin.key found.entries)) in
          let missing : Done = err (plain "admin password empty") in
          bind_rule I (λ _. I) (λ _. I) (return_if (is_empty password) missing t)
            (λ _.
              log_in (logged_http h) base "admin" password (fails "semaphore login") err
              >>= λ cookie.
                  ensure_project (logged_cluster c) k (logged_http h) no_spec base cookie i
                  >>= λ project.
                      ensure_user (logged_cluster c) k (logged_http h) no_spec base cookie i
                      >>= λ user. settle base cookie project user token)
            (guard_rule I (is_empty password) missing t a1)
            λ _ u a2.
              bind_rule I (λ _. I) (λ _. I) _ _
                (log_in-Keeps c k h no_spec i base "admin" password (fails "semaphore login") err u
                  a2)
                λ cookie v a3.
                  bind_rule I (λ _. I) (λ _. I) _ _
                    (ensure_project-Keeps c k h no_spec i base cookie v a3)
                    λ project w a4.
                      bind_rule I (λ _. I) (λ _. I) _ _
                        (ensure_user-Keeps c k h no_spec i base cookie w a4)
                        λ user x a5. settle-Keeps base cookie project user token x a5

  with_refs-Keeps :
      (admin token : Option SecretKeySelector) (s : St (Logged W))
      → I s
      → After I (λ _. I) (with_refs (logged_cluster c) k (logged_http h) no_spec i admin token s)
  with_refs-Keeps (some admin) (some token) s a = provision-Keeps admin token s a
  with_refs-Keeps none token s a = a
  with_refs-Keeps (some admin) none s a = a

  reconciled :
      (b : Bool) (admin token : Option SecretKeySelector) (s : St (Logged W))
      → I s
      → I
          (run
            (return_if b (ok tt)
              >> with_refs (logged_cluster c) k (logged_http h) no_spec i admin token)
            s).1
  reconciled true admin token s a = a
  reconciled false admin token s a =
      ended_rule I (with_refs (logged_cluster c) k (logged_http h) no_spec i admin token) s
        (with_refs-Keeps admin token s a)

-- Where the API server's patch of an instance does not talk to the Semaphore server, every request of
-- the provisioning is allowed by the server's own listings before it: it deletes nothing, and posts the
-- project and the user of the instance only if the server has listed no id for their names. This holds
-- of the log after the provisioning if it holds of the log before.
pub reconcile_semaphore-AllAllowed :
    {W S : Type 0} (c : Cluster W S) (k : Client (Logged W)) (h : Http W) (no_spec : S)
    (quiet : (o j : HermesInstance) (w : Logged W) → (k.patch_instance o j w).1.1 ≡ w.1)
    (s : St (Logged W))
    → AllAllowed s.inst s.world.1
    → AllAllowed s.inst
        (reconcile_semaphore (logged_cluster c) k (logged_http h) no_spec s).1.world.1
unfolding reconcile_semaphore
reconcile_semaphore-AllAllowed c k h no_spec quiet s =
    reconciled c k h no_spec s.inst quiet (not (semaphore_enabled s.inst))
      s.inst.spec.semaphore.admin_token_secret_ref s.inst.spec.semaphore.token_secret_ref s
