-- ===== src/Semaphore/Cleanup.antt =====
-- internal/controller/hermesinstance_controller.go: `semaphoreCleanup`, which deletes the project and
-- the user of an instance that is being deleted.
use hermes_operator.Common.{
  ℕ, String, Bool, not, ◌&&◌, ◌==◌, ltb, Option, none, some, is_empty, get, text_or_empty,
}
use hermes_operator.Common.Flow.{M, ◌>>=◌, ◌>>◌, finish, return_if, when, run, go}
use hermes_operator.Api.Features.{SecretKeySelector}
use hermes_operator.Api.Instance.{HermesInstance}
use hermes_operator.Kube.Result.{Result, ok, err, Err, plain, wrap}
use hermes_operator.Kube.Cluster.{Cluster}
use hermes_operator.Controller.{St, call, check, instance_now}
use hermes_operator.Semaphore.{
  projects, users, one_project, one_user, delete_request, no_body, Http, agent_username, find_id,
  admin_secret, log_in, request, get_named,
}

-- What the cleanup comes to: an error or nil, or the panic of a nil pointer.
pub data Cleaned : Type 0 where
  cleaned : Result (Unit {0}) → Cleaned
  panicked : Cleaned

abbrev pub fails : String → Err → Cleaned
fails what e = cleaned (err (wrap what e))

abbrev pub nothing_left : Cleaned
nothing_left = cleaned (ok tt)

module _ {W S : Type 0} (c : Cluster W S) (h : Http W) where
  -- The deletions: the status of an answer is not read, and the administrator is never deleted.
  abbrev pub delete_user : String → String → ℕ → M (St W) Cleaned (Unit {0})
  delete_user base cookie user_id = do
    deleted ←
        call (h.send (request h base delete_request (one_user user_id) no_body cookie))
          (fails "delete user")
    go tt

  abbrev pub is_agent : ℕ → Bool
  is_agent user_id = ltb 0 user_id && not (user_id == 1)

  unfoldable pub delete_project_and_user : String → String → ℕ → ℕ → M (St W) Cleaned Cleaned
  delete_project_and_user base cookie project_id user_id = do
    deleted ←
        call (h.send (request h base delete_request (one_project project_id) no_body cookie))
          (fails "delete project")
    when (is_agent user_id) (delete_user base cookie user_id)
    finish nothing_left

  -- The project is there: the agent is looked for, and both are deleted.
  unfoldable pub clean_up_project : HermesInstance → String → ℕ → M (St W) Cleaned Cleaned
  unfolding delete_project_and_user
  clean_up_project i cookie project_id = do
    users_listed ← get_named h i.spec.semaphore.url users cookie
    known_users ← check users_listed (fails "list users")
    delete_project_and_user i.spec.semaphore.url cookie project_id
        (find_id (agent_username i) known_users)

  unfoldable pub clean_up_as : HermesInstance → String → M (St W) Cleaned Cleaned
  unfolding clean_up_project
  clean_up_as i cookie = do
    projects_listed ← get_named h i.spec.semaphore.url projects cookie
    known_projects ← check projects_listed (fails "list projects")
    return_if (find_id i.meta.name known_projects == 0) nothing_left
    clean_up_project i cookie (find_id i.meta.name known_projects)

  -- Without a reference to the admin's Secret, the next read goes through a nil pointer.
  unfoldable pub clean_up_with :
      HermesInstance → Option SecretKeySelector → M (St W) Cleaned Cleaned
  unfolding clean_up_as
  clean_up_with i none = finish panicked
  clean_up_with i (some admin) = do
    found ← call (c.get (admin_secret admin.name)) (fails "read admin token secret")
    let password = text_or_empty (get admin.key found.entries)
    return_if (is_empty password) (cleaned (err (plain "admin password empty")))
    cookie ←
        log_in h i.spec.semaphore.url "admin" password (fails "semaphore login")
          (λ e. cleaned (err e))
    clean_up_as i cookie

  unfoldable pub semaphore_cleanup : St W → Cleaned × St W
  unfolding clean_up_with
  semaphore_cleanup =
      run do i ← instance_now; clean_up_with i i.spec.semaphore.admin_token_secret_ref
