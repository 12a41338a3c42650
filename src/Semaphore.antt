-- ===== src/Semaphore.antt =====
-- internal/controller/hermesinstance_controller.go: the integration with a Semaphore server: the
-- requests that it gets, and what both the provisioning and the cleanup do with its answers.
pub mod Provision
pub mod Cleanup
pub mod Log
pub mod Deletions
pub mod Posts
pub mod Creations
mod Tests
use hermes_operator.Common.{
  ℕ, String, Bool, true, false, List, [], ◌∷◌, is_empty, str_eq, concat, get, text_or_empty,
  Entries, if◌then◌else◌,
}
use hermes_operator.Common.Flow.{M, ◌>>=◌, ◌>>◌, finish, return_if, go}
use hermes_operator.Api.Instance.{HermesInstance}
use hermes_operator.Kube.Result.{Result, ok, err, Err, plain, wrap}
use hermes_operator.Kube.Cluster.{Key, secret}
use hermes_operator.Controller.{St, call, try, check}

-- The paths that the controller uses below the base URL, with the numbers printed into them.
pub data Endpoint : Type 0 where
  login projects users tokens : Endpoint
  one_project one_user project_users : ℕ → Endpoint

pub data Method : Type 0 where
  get_request post delete_request : Method

-- The bodies; the source prints them with `fmt.Sprintf`.
pub data Body : Type 0 where
  no_body empty_object : Body
  credentials : String → String → Body
  new_project : String → Body
  -- Display name, user name, e-mail, password; never an administrator.
  new_user : String → String → String → String → Body
  manager : ℕ → Body

pub record Request : Type 0 where
  pub method : Method
  pub base : String
  pub path : Endpoint
  pub body : Body
  -- The session; "" for none.
  pub cookie : String

-- A project with its name, a user with its user name. An id is not negative.
pub record Named : Type 0 where
  pub id : ℕ
  pub name : String

-- A response: its body is what `json.Decode` makes of it for the type that the code asks for.
pub record Response : Type 0 where
  pub status : ℕ
  pub cookies : Entries
  pub named : Result (List Named)
  pub id : Result ℕ
  pub token : Result String

-- `http.DefaultClient.Do`, and `strings.TrimSpace`.
pub record Http (W : Type 0) : Type 0 where
  pub send : Request → W → Result Response × W
  pub trim_space : String → String

abbrev pub agent_username : HermesInstance → String
agent_username i = concat (i.meta.name ∷ "-agent" ∷ [])

abbrev pub agent_password : HermesInstance → String
agent_password i = concat (agent_username i ∷ "-auto" ∷ [])

-- The loop that looks for a name: 0 where there is none.
unfoldable pub find_id : String → List Named → ℕ
find_id name [] = 0
find_id name (p ∷ ps) = if str_eq p.name name then p.id else find_id name ps

-- The admin's Secret is always in this namespace.
abbrev pub admin_secret : String → Key
admin_secret name = record { kind = secret; name = name; namespace = "semaphore" }

-- `apiGet`: the answer decoded, whatever its status.
abbrev pub decode_named : Result Response → Result (List Named)
decode_named (ok response) = response.named
decode_named (err e) = err e

module _ {W : Type 0} (h : Http W) (base : String) where
  -- A login: the cookie of the session.
  abbrev pub log_in : {R : Type 0} → String → String → (Err → R) → (Err → R) → M (St W) R String
  log_in user password failed no_cookie = do
    response ←
        call
          (h.send (record {
            method = post;
            base = base;
            path = login;
            body = credentials user password;
            cookie = "";
          }))
          failed
    let cookie = text_or_empty (get "semaphore" response.cookies)
    return_if (is_empty cookie) (no_cookie (plain "no semaphore session cookie"))
    go cookie

  abbrev pub request : Method → Endpoint → Body → String → Request
  request m p b cookie = record { method = m; base = base; path = p; body = b; cookie = cookie }

  -- `GET` of a list of named things.
  abbrev pub get_named : {R : Type 0} → Endpoint → String → M (St W) R (Result (List Named))
  get_named p cookie = do
    answer ← try (h.send (request get_request p no_body cookie))
    go (decode_named answer)
