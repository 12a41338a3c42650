-- ===== src/Semaphore/Posts.antt =====
-- internal/controller/hermesinstance_controller.go: the parts of `reconcileSemaphore` that talk to the
-- server, and the log of the exchanges.
use hermes_operator.Common.{
  ℕ, String, not, ◌==◌, ◌≡◌, inl, refl, arith, List, any, is_empty, get, text_or_empty,
}
use mathlib.Core.Path.{subst}
use hermes_operator.Common.Flow.{go, M, return_if}
use hermes_operator.Api.Features.{SecretKeySelector}
use hermes_operator.Api.Instance.{HermesInstance}
use hermes_operator.Kube.Result.{Result, ok, err, Err, plain, is_not_found}
use hermes_operator.Kube.Client.{Client}
use hermes_operator.Kube.Cluster.{Object, Cluster}
use hermes_operator.Controller.{St}
use hermes_operator.Controller.After.{
  After, bind_rule, checked_rule, branch_rule, guard_rule, optional_rule,
}
use hermes_operator.Semaphore.{
  no_body, credentials, empty_object, Http, Response, Request, Named, get_request, post, Endpoint,
  login, projects, users, tokens, project_users, Body, new_project, manager, find_id,
  agent_username, agent_password, decode_named, log_in, request,
}
use hermes_operator.Semaphore.Provision.{
  Done, ensure_project, ensure_user, ensure_member, ensure_token, generate_token, api_post,
  create_if_missing, accepted, members_or_none, fails, on_token_secret, token_key, token_object,
}
use hermes_operator.Semaphore.Log.{Logged, logged_http, logged_cluster, Listed, MayPost, AllAllowed}

module _ {W S : Type 0} (c : Cluster W S) (k : Client (Logged W)) (h : Http W) (no_spec : S)
    (i : HermesInstance) where
  abbrev I : St (Logged W) → Type 0
  I s = AllAllowed i s.world.1

  -- A part that keeps the log allowed, whatever it answers.
  abbrev Keeps : {A : Type 0} → M (St (Logged W)) Done A → Type 0
  Keeps {A} m = (s : St (Logged W)) → I s → After {A = A} I (λ _. I) (m s)

  -- The answer to a request, and the state after it.
  abbrev sent : Request → St (Logged W) → Result Response × St (Logged W)
  sent q s = let (answer, w) = (logged_http h).send q s.world in (answer, record s { world = w })

  api_post-Keeps :
      (base cookie what : String) (p : Endpoint) (b : Body) (s : St (Logged W))
      → MayPost i s.world.1 p b
      → I s
      → After I
          (λ _. I)
          (api_post (logged_cluster c) k (logged_http h) no_spec base cookie p b what s)
  api_post-Keeps base cookie what p b s may a =
      let (answer, t) = sent (request (logged_http h) base post p b cookie) s in
      checked_rule I (λ _. I) (accepted answer) (fails what) t (may, a) λ x e. (may, a)

  create_if_missing-Keeps :
      (base cookie what : String) (id : ℕ) (p : Endpoint) (b : Body) (s : St (Logged W))
      → (id ≡ 0 → MayPost i s.world.1 p b)
      → I s
      → After I
          (λ _. I)
          (create_if_missing (logged_cluster c) k (logged_http h) no_spec base cookie id p b what s)
  create_if_missing-Keeps base cookie what id p b s may a =
      branch_rule I (λ _. I) (id == 0) _ _ s
        (λ z.
          bind_rule I (λ _. I) (λ _. I) _ _
            (api_post-Keeps base cookie what p b s (may (ground arith)) a)
            λ created t a'. checked_rule I (λ _. I) created.id (fails what) t a' λ _ _. a')
        λ _. a

  pub ensure_project-Keeps :
      (base cookie : String) (s : St (Logged W))
      → I s
      → After I
          (λ _. I)
          (ensure_project (logged_cluster c) k (logged_http h) no_spec base cookie i s)
  unfolding ensure_project
  ensure_project-Keeps base cookie s a =
      let (answer, t) = sent (request (logged_http h) base get_request projects no_body cookie) s in
      let name = i.meta.name in
      let Q : List Named → St (Logged W) → Type 0 =
        λ known u. I u × Listed projects name (find_id name known) u.world.1 in
      bind_rule I Q (λ _. I) _ _
        (checked_rule I Q (decode_named answer) (fails "list projects") t (tt, a)
          λ known e. ((tt, a), inl (refl, refl, known, e, refl)))
        λ known u q.
          create_if_missing-Keeps base cookie "create project" (find_id name known) projects
            (new_project name) u (λ z. (refl, subst (λ n. Listed projects name n u.world.1) z q.1))
            q.0

  pub ensure_user-Keeps :
      (base cookie : String) (s : St (Logged W))
      → I s
      → After I (λ _. I) (ensure_user (logged_cluster c) k (logged_http h) no_spec base cookie i s)
  unfolding ensure_user
  ensure_user-Keeps base cookie s a =
      let (answer, t) = sent (request (logged_http h) base get_request users no_body cookie) s in
      let name = agent_username i in
      let Q : List Named → St (Logged W) → Type 0 =
        λ known u. I u × Listed users name (find_id name known) u.world.1 in
      bind_rule I Q (λ _. I) _ _
        (checked_rule I Q (decode_named answer) (fails "list users") t (tt, a)
          λ known e. ((tt, a), inl (refl, refl, known, e, refl)))
        λ known u q.
          create_if_missing-Keeps base cookie "create user" (find_id name known) users _ u
            (λ z. (_, _, refl, subst (λ n. Listed users name n u.world.1) z q.1)) q.0

  pub ensure_member-Keeps :
      (base cookie : String) (project user : ℕ) (s : St (Logged W))
      → I s
      → After I
          (λ _. I)
          (ensure_member (logged_cluster c) k (logged_http h) no_spec base cookie project user s)
  unfolding ensure_member
  ensure_member-Keeps base cookie project user s a =
      let (answer, t) =
        sent (request (logged_http h) base get_request (project_users project) no_body cookie) s in
      optional_rule I (not (any (λ m. m.id == user) (members_or_none (decode_named answer)))) _ t
        (tt, a)
        (bind_rule I (λ _. I) (λ _. I) _ _
          (api_post-Keeps base cookie "add user to project" (project_users project) (manager user) t
            (user, refl) (tt, a))
          λ _ u a'. a')

  pub log_in-Keeps :
      (base user password : String) (f g : Err → Done) (s : St (Logged W))
      → I s
      → After I (λ _. I) (log_in (logged_http h) base user password f g s)
  log_in-Keeps base user password f g s a =
      let (answer, t) =
        sent
          (record {
            method = post;
            base = base;
            path = login;
            body = credentials user password;
            cookie = "";
          })
          s in
      bind_rule I (λ _. I) (λ _. I) _ _ (checked_rule I (λ _. I) answer f t (tt, a) λ _ _. (tt, a))
        λ x u a'.
          let session = text_or_empty (get "semaphore" x.cookies) in
          let missing = g (plain "no semaphore session cookie") in
          bind_rule I (λ _. I) (λ _. I) (return_if (is_empty session) missing u) (λ _. go session)
            (guard_rule I (is_empty session) missing u a') λ _ v b. b

  generate_token-Keeps :
      (ref : SecretKeySelector) (s : St (Logged W))
      → I s
      → After I (λ _. I) (generate_token (logged_cluster c) k (logged_http h) no_spec i ref s)
  unfolding generate_token
  generate_token-Keeps ref s a =
      let base = i.spec.semaphore.url in
      bind_rule I {B = Unit {0}} (λ _. I) (λ _. I) _ _
        (log_in-Keeps base (agent_username i) (agent_password i) (fails "user login") err s a)
        λ cookie t a'.
          let (answer, u) = sent (request (logged_http h) base post tokens empty_object cookie) t in
          bind_rule I (λ _. I) (λ _. I) _ _
            (checked_rule I (λ _. I) answer (fails "generate token") u (tt, a') λ _ _. (tt, a'))
            λ response v b.
              bind_rule I (λ _. I) (λ _. I) _ _
                (checked_rule I (λ _. I) response.token (fails "decode token") v b λ _ _. b)
                λ token x b'.
                  let (created, w) =
                    (logged_cluster c).create (token_key i ref) (token_object no_spec ref token)
                      x.world in
                  checked_rule I (λ _. I) created (fails "create token secret")
                    (record x { world = w }) b' λ _ _. b'

  on_token_secret-Keeps :
      (ref : SecretKeySelector) (found : Result (Object S)) (s : St (Logged W))
      → I s
      → After I
          (λ _. I)
          (on_token_secret (logged_cluster c) k (logged_http h) no_spec i ref found s)
  on_token_secret-Keeps ref (ok o) s a = a
  on_token_secret-Keeps ref (err e) s a =
      branch_rule I (λ _. I) (is_not_found e) _ _ s (λ _. generate_token-Keeps ref s a) λ _. a

  pub ensure_token-Keeps :
      (ref : SecretKeySelector) (s : St (Logged W))
      → I s
      → After I (λ _. I) (ensure_token (logged_cluster c) k (logged_http h) no_spec i ref s)
  unfolding ensure_token
  ensure_token-Keeps ref s a =
      let (found, w) = (logged_cluster c).get (token_key i ref) s.world in
      on_token_secret-Keeps ref found (record s { world = w }) a
