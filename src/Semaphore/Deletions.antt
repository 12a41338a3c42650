-- ===== src/Semaphore/Deletions.antt =====
-- internal/controller/hermesinstance_controller.go: what `semaphoreCleanup` deletes.
use hermes_operator.Common.{
  ℕ, String, Bool, true, false, ◌==◌, ◌≡◌, ◌≢◌, inl, inr, refl, arith, Option, some, none, List,
  is_empty, get, text_or_empty,
}
use hermes_operator.Common.Flow.{run, go, ◌>>=◌, ◌>>◌, finish, return_if, when}
use hermes_operator.Api.Features.{SecretKeySelector}
use hermes_operator.Api.Instance.{HermesInstance}
use hermes_operator.Kube.Result.{Result, err, plain}
use hermes_operator.Kube.Cluster.{Object, Cluster}
use hermes_operator.Controller.{St}
use hermes_operator.Controller.Rules.{check_rule, return_if_rule, when_rule, inner_check_rule}
use hermes_operator.Semaphore.{
  post, login, credentials, log_in, admin_secret, Http, Response, Named, Method, get_request,
  delete_request, Endpoint, projects, users, one_project, one_user, no_body, request, find_id,
  agent_username, decode_named,
}
use hermes_operator.Semaphore.Cleanup.{
  Cleaned, cleaned, semaphore_cleanup, clean_up_with, clean_up_as, clean_up_project,
  delete_project_and_user, delete_user, is_agent, fails, nothing_left,
}
use hermes_operator.Semaphore.Log.{Logged, logged_http, logged_cluster, Listed, AllJustified}

module _ {W S : Type 0} (c : Cluster W S) (h : Http W) (i : HermesInstance) where
  abbrev Fine : Cleaned × St (Logged W) → Type 0
  Fine out = AllJustified i out.1.world.1

  -- The state after a request.
  abbrev sent :
      Method → Endpoint → String → String → St (Logged W) → Result Response × St (Logged W)
  sent m p base cookie s =
      let (answer, w) =
        (logged_http h).send (request (logged_http h) base m p no_body cookie) s.world in
      (answer, record s { world = w })

  delete_user-Fine :
      (base cookie : String) (user : ℕ) (s : St (Logged W))
      → is_agent (logged_cluster c) (logged_http h) user ≡ true
      → Listed users (agent_username i) user s.world.1
      → AllJustified i s.world.1
      → Fine (
          run
            (delete_user (logged_cluster c) (logged_http h) base cookie user >> finish nothing_left)
            s)
  delete_user-Fine base cookie user s agent lu a =
      let (answer, t) = sent delete_request (one_user user) base cookie s in
      inner_check_rule Fine answer (fails "delete user") (λ x. go tt) (λ x. finish nothing_left) t
        (λ e failed. ((λ m. (ground arith, ground arith, lu)), a))
        λ deleted gone. ((λ m. (ground arith, ground arith, lu)), a)

  delete_project_and_user-Fine :
      (base cookie : String) (project user : ℕ) (s : St (Logged W))
      → project ≢ 0
      → Listed projects i.meta.name project s.world.1
      → Listed users (agent_username i) user s.world.1
      → AllJustified i s.world.1
      → Fine (
          run
            (delete_project_and_user (logged_cluster c) (logged_http h) base cookie project user)
            s)
  unfolding delete_project_and_user
  delete_project_and_user-Fine base cookie project user s d lp lu a =
      let (answer, t) = sent delete_request (one_project project) base cookie s in
      let agent = is_agent (logged_cluster c) (logged_http h) user in
      let m = delete_user (logged_cluster c) (logged_http h) base cookie user in
      check_rule Fine answer (fails "delete project") (λ x. when agent m >> finish nothing_left) t
        (λ e failed. ((λ z. (d, lp)), a))
        λ x done.
          when_rule Fine agent m (finish nothing_left) t
            (λ wanted. delete_user-Fine base cookie user t wanted (inr lu) ((λ z. (d, lp)), a))
            λ unwanted. ((λ z. (d, lp)), a)

  -- A `GET` deletes nothing.
  listed_justified :
      (p : Endpoint) (base cookie : String) (s : St (Logged W))
      → AllJustified i s.world.1
      → AllJustified i (sent get_request p base cookie s).1.world.1
  listed_justified p base cookie s a = ((λ m. ground arith), a)

  clean_up_project-Fine :
      (cookie : String) (project : ℕ) (s : St (Logged W))
      → project ≢ 0
      → Listed projects i.meta.name project s.world.1
      → AllJustified i s.world.1
      → Fine (run (clean_up_project (logged_cluster c) (logged_http h) i cookie project) s)
  unfolding clean_up_project
  clean_up_project-Fine cookie project s d lp a =
      let base = i.spec.semaphore.url in
      let (answer, t) = sent get_request users base cookie s in
      let quiet = listed_justified users base cookie s a in
      check_rule Fine (decode_named answer) (fails "list users")
        (λ known.
          delete_project_and_user (logged_cluster c) (logged_http h) base cookie project
            (find_id (agent_username i) known))
        t (λ e failed. quiet)
        λ known found.
          delete_project_and_user-Fine base cookie project (find_id (agent_username i) known) t d
            (inr lp) (inl (refl, refl, known, found, refl)) quiet

  clean_up_as-Fine :
      (cookie : String) (s : St (Logged W))
      → AllJustified i s.world.1
      → Fine (run (clean_up_as (logged_cluster c) (logged_http h) i cookie) s)
  unfolding clean_up_as
  clean_up_as-Fine cookie s a =
      let base = i.spec.semaphore.url in
      let (answer, t) = sent get_request projects base cookie s in
      let quiet = listed_justified projects base cookie s a in
      let rest = λ (known : List Named).
        clean_up_project (logged_cluster c) (logged_http h) i cookie (find_id i.meta.name known) in
      check_rule Fine (decode_named answer) (fails "list projects")
        (λ known. return_if (find_id i.meta.name known == 0) nothing_left >> rest known) t
        (λ e failed. quiet)
        λ known found.
          return_if_rule Fine (find_id i.meta.name known == 0) nothing_left (rest known) t
            (λ missing. quiet)
            λ there.
              clean_up_project-Fine cookie (find_id i.meta.name known) t (ground arith)
                (inl (refl, refl, known, found, refl)) quiet

  entered-Fine :
      (b : Bool) (cookie : String) (no_cookie : Cleaned) (s : St (Logged W))
      → AllJustified i s.world.1
      → Fine (
          run
            ((return_if b no_cookie >> go cookie)
              >>= clean_up_as (logged_cluster c) (logged_http h) i)
            s)
  entered-Fine true cookie no_cookie s a = a
  entered-Fine false cookie no_cookie s a = clean_up_as-Fine cookie s a

  -- A login deletes nothing.
  log_in-Fine :
      (base password : String) (s : St (Logged W))
      → AllJustified i s.world.1
      → Fine (
          run
            (log_in
                (logged_http h)
                base
                "admin"
                password
                (fails "semaphore login")
                (λ e. cleaned (err e))
              >>= clean_up_as (logged_cluster c) (logged_http h) i)
            s)
  log_in-Fine base password s a =
      let (answer, w) =
        (logged_http h).send
          (record {
            method = post;
            base = base;
            path = login;
            body = credentials "admin" password;
            cookie = "";
          })
          s.world in
      let session = λ (x : Response). text_or_empty (get "semaphore" x.cookies) in
      let no_cookie = cleaned (err (plain "no semaphore session cookie")) in
      inner_check_rule Fine answer (fails "semaphore login")
        (λ x. return_if (is_empty (session x)) no_cookie >> go (session x))
        (clean_up_as (logged_cluster c) (logged_http h) i) (record s { world = w })
        (λ e failed. ((λ m. ground arith), a))
        λ x done.
          entered-Fine (is_empty (session x)) (session x) no_cookie (record s { world = w })
            ((λ m. ground arith), a)

  clean_up_with-Fine :
      (ref : Option SecretKeySelector) (s : St (Logged W))
      → AllJustified i s.world.1
      → Fine (run (clean_up_with (logged_cluster c) (logged_http h) i ref) s)
  unfolding clean_up_with
  clean_up_with-Fine none s a = a
  clean_up_with-Fine (some admin) s a =
      let (found, w) = (logged_cluster c).get (admin_secret admin.name) s.world in
      let password = λ (o : Object S). text_or_empty (get admin.key o.entries) in
      let enter = λ (o : Object S).
        log_in (logged_http h) i.spec.semaphore.url "admin" (password o) (fails "semaphore login")
          (λ e. cleaned (err e))
        >>= clean_up_as (logged_cluster c) (logged_http h) i in
      let empty = cleaned (err (plain "admin password empty")) in
      check_rule Fine found (fails "read admin token secret")
        (λ o. return_if (is_empty (password o)) empty >> enter o) (record s { world = w })
        (λ e failed. a)
        λ o read.
          return_if_rule Fine (is_empty (password o)) empty (enter o) (record s { world = w })
            (λ missing. a)
            λ there. log_in-Fine i.spec.semaphore.url (password o) (record s { world = w }) a

-- Every deletion that the cleanup asks of the Semaphore server is justified by the server's own
-- listings before it: a project is deleted only if it is listed under the instance's name, and a
-- user only if it is listed under the agent's name and is not the user 1. This holds of the log after
-- the cleanup if it holds of the log before.
pub semaphore_cleanup-AllJustified :
    {W S : Type 0} (c : Cluster W S) (h : Http W) (s : St (Logged W))
    → AllJustified s.inst s.world.1
    → AllJustified s.inst (semaphore_cleanup (logged_cluster c) (logged_http h) s).1.world.1
unfolding semaphore_cleanup
semaphore_cleanup-AllJustified c h s =
    clean_up_with-Fine c h s.inst s.inst.spec.semaphore.admin_token_secret_ref s
