-- ===== src/Semaphore/Provision.antt =====
-- internal/controller/hermesinstance_controller.go: `reconcileSemaphore`, which provisions the
-- project, the user, the membership, the token and the skill of an instance.
use hermes_operator.Common.{
  ℕ, String, Bool, not, ◌==◌, leb, Option, none, some, List, [], ◌∷◌, ◌++◌, any, is_empty, str_eq,
  concat, get, text_or_empty, if◌then◌else◌,
}
use hermes_operator.Common.Flow.{M, ◌>>=◌, ◌>>◌, exit, finish, return_if, when, run, go}
use hermes_operator.Api.Features.{SecretKeySelector}
use hermes_operator.Api.Spec.{InstanceSkill}
use hermes_operator.Api.Instance.{HermesInstance}
use hermes_operator.Kube.Result.{Result, ok, err, Err, plain, wrap, is_not_found}
use hermes_operator.Kube.Client.{Client}
use hermes_operator.Kube.Cluster.{Key, Object, Cluster, secret}
use hermes_operator.Controller.{St, call, try, check, write, change, instance_now}
use hermes_operator.Resources.Names.{semaphore_enabled}
use hermes_operator.Semaphore.{
  Endpoint, projects, users, tokens, project_users, post, Body, empty_object, new_project, new_user,
  manager, Named, Response, Http, agent_username, agent_password, find_id, admin_secret, log_in,
  request, get_named,
}

abbrev pub Done : Type 0
Done = Result (Unit {0})

abbrev pub fails : String → Err → Done
fails what e = err (wrap what e)

abbrev pub has_skill : List InstanceSkill → Bool
has_skill = any λ s. str_eq s.source "semaphore-ui"

abbrev pub add_skill : HermesInstance → HermesInstance
add_skill i = record i {
  spec = record i.spec {
    skills = i.spec.skills ++ record { source = "semaphore-ui"; version = "" } ∷ [];
  };
}

-- The Secret of the token: it has no owner.
abbrev pub token_object : {S : Type 0} → S → SecretKeySelector → String → Object S
token_object s ref token = record {
  labels = [];
  annotations = [];
  owner = none;
  secret_type = "";
  entries = (ref.key, token) ∷ [];
  cluster_ip = "";
  cluster_ips = [];
  finalizers = [];
  deletion_timestamp = none;
  spec = s;
}

abbrev pub token_key : HermesInstance → SecretKeySelector → Key
token_key i ref = record { kind = secret; name = ref.name; namespace = i.meta.namespace }

-- `apiPost`'s test of the answer.
abbrev pub accepted : Result Response → Result Response
accepted (ok response) = if leb 400 response.status then err (plain "POST") else ok response
accepted (err e) = err e

-- A failed listing of the members reads as an empty one.
abbrev pub members_or_none : Result (List Named) → List Named
members_or_none (ok ms) = ms
members_or_none (err e) = []

module _ {W S : Type 0} (c : Cluster W S) (k : Client W) (h : Http W) (no_spec : S) where
  module _ (base cookie : String) where
    abbrev pub api_post : Endpoint → Body → String → M (St W) Done Response
    api_post p b what = do
      answer ← try (h.send (request h base post p b cookie))
      check (accepted answer) (fails what)

    -- `if id == 0 { create }`.
    abbrev pub create_if_missing : ℕ → Endpoint → Body → String → M (St W) Done ℕ
    create_if_missing id p b what =
        if id == 0 then (do created ← api_post p b what; check created.id (fails what)) else go id

    unfoldable pub ensure_project : HermesInstance → M (St W) Done ℕ
    ensure_project i = do
      listed ← get_named h base projects cookie
      known ← check listed (fails "list projects")
      create_if_missing (find_id i.meta.name known) projects (new_project i.meta.name)
          "create project"

    unfoldable pub ensure_user : HermesInstance → M (St W) Done ℕ
    ensure_user i = do
      listed ← get_named h base users cookie
      known ← check listed (fails "list users")
      create_if_missing (find_id (agent_username i) known) users
          (new_user (concat (i.meta.name ∷ " Agent" ∷ [])) (agent_username i)
            (concat (agent_username i ∷ "@semaphore.local" ∷ [])) (agent_password i))
          "create user"

    unfoldable pub ensure_member : ℕ → ℕ → M (St W) Done (Unit {0})
    ensure_member project user = do
      listed ← get_named h base (project_users project) cookie
      when (not (any (λ m. m.id == user) (members_or_none listed)))
          (do added ← api_post (project_users project) (manager user) "add user to project"; go tt)

  -- The user logs in and asks for a token.
  unfoldable pub generate_token : HermesInstance → SecretKeySelector → M (St W) Done (Unit {0})
  generate_token i ref = do
    cookie ←
        log_in h i.spec.semaphore.url (agent_username i) (agent_password i) (fails "user login") err
    response ←
        call (h.send (request h i.spec.semaphore.url post tokens empty_object cookie))
          (fails "generate token")
    token ← check response.token (fails "decode token")
    call (c.create (token_key i ref) (token_object no_spec ref token)) (fails "create token secret")

  abbrev pub on_token_secret :
      HermesInstance → SecretKeySelector → Result (Object S) → M (St W) Done (Unit {0})
  on_token_secret i ref (ok o) = go tt
  on_token_secret i ref (err e) =
      if is_not_found e then generate_token i ref else exit (fails "read token secret" e)

  unfoldable pub ensure_token : HermesInstance → SecretKeySelector → M (St W) Done (Unit {0})
  unfolding generate_token
  ensure_token i ref = do found ← try (c.get (token_key i ref)); on_token_secret i ref found

  unfoldable pub ensure_skill : M (St W) Done (Unit {0})
  ensure_skill = do
    i ← instance_now
    when (not (has_skill i.spec.skills))
        (do change add_skill; write (k.patch_instance i) (fails "patch semaphore skill"))

  unfoldable pub provision :
      HermesInstance → SecretKeySelector → SecretKeySelector → M (St W) Done Done
  unfolding ensure_project ensure_user ensure_member ensure_token ensure_skill
  provision i admin token = do
    found ← call (c.get (admin_secret admin.name)) (fails "read admin secret")
    let password = h.trim_space (text_or_empty (get admin.key found.entries))
    return_if (is_empty password) (err (plain "admin password empty"))
    cookie ← log_in h i.spec.semaphore.url "admin" password (fails "semaphore login") err
    project ← ensure_project i.spec.semaphore.url cookie i
    user ← ensure_user i.spec.semaphore.url cookie i
    ensure_member i.spec.semaphore.url cookie project user
    ensure_token i token
    ensure_skill
    finish (ok tt)

  abbrev pub with_refs :
      HermesInstance → Option SecretKeySelector → Option SecretKeySelector → M (St W) Done Done
  with_refs i (some admin) (some token) = provision i admin token
  with_refs i none token = finish (err (plain "adminTokenSecretRef or tokenSecretRef not set"))
  with_refs i (some admin) none =
      finish (err (plain "adminTokenSecretRef or tokenSecretRef not set"))

  unfoldable pub reconcile_semaphore : St W → Done × St W
  unfolding provision
  reconcile_semaphore = run do
    i ← instance_now
    return_if (not (semaphore_enabled i)) (ok tt)
    with_refs i i.spec.semaphore.admin_token_secret_ref i.spec.semaphore.token_secret_ref
