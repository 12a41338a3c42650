-- ===== src/Semaphore/Log.antt =====
-- internal/controller/hermesinstance_controller.go: the exchanges with the Semaphore server. The world
-- is extended by their log, the latest first, which nothing reads.
use hermes_operator.Common.{ℕ, String, ◌≡◌, ◌≢◌, ◌⊎◌, List, [], ◌∷◌}
use hermes_operator.Api.Instance.{HermesInstance}
use hermes_operator.Kube.Result.{Result, ok}
use hermes_operator.Kube.Cluster.{Cluster}
use hermes_operator.Semaphore.{
  Request, Response, Http, get_request, delete_request, Endpoint, login, projects, users, tokens,
  one_project, one_user, project_users, Method, post, Body, new_project, new_user, manager,
  agent_password, Named, find_id, decode_named, agent_username,
}

pub record Exchange : Type 0 where
  pub request : Request
  pub answer : Result Response

abbrev pub Logged : Type 0 → Type 0
Logged W = W × List Exchange

abbrev pub over : {W A : Type 0} → (W → A × W) → Logged W → A × Logged W
over f (w, log) = let (a, w') = f w in (a, (w', log))

-- The server behind a log.
abbrev pub logged_http : {W : Type 0} → Http W → Http (Logged W)
logged_http h = record {
  send =
      λ q (w, log). let (a, w') = h.send q w in (a, (w', record { request = q; answer = a } ∷ log));
  trim_space = h.trim_space;
}

-- The calls of the API server leave no trace in it.
abbrev pub logged_cluster : {W S : Type 0} → Cluster W S → Cluster (Logged W) S
logged_cluster c = record {
  get = λ k. over (c.get k);
  create = λ k o. over (c.create k o);
  delete = λ k. over (c.delete k);
  create_or_update = λ k f (w, log).
      let (a, w') = c.create_or_update k (λ o v. let (b, l) = f o (v, log) in (b, l.0)) w in
      (a, (w', log));
  set_controller_reference = c.set_controller_reference;
  empty = c.empty;
}

-- An earlier answer of the listing at a path has that id for that name.
abbrev pub Listed : Endpoint → String → ℕ → List Exchange → Type 0
Listed p name n [] = ⊥
Listed p name n (e ∷ log) =
    ((e.request.method ≡ get_request)
      × (e.request.path ≡ p)
      × (known : List Named) × (decode_named e.answer ≡ ok known)
      × (find_id name known ≡ n))
    ⊎ Listed p name n log

-- What may be deleted, by the exchanges before: the project that the server lists under the
-- instance's name, and the user that it lists under the agent's name, but never the user 1.
abbrev pub MayDelete : HermesInstance → List Exchange → Endpoint → Type 0
MayDelete i log (one_project n) = (n ≢ 0) × Listed projects i.meta.name n log
MayDelete i log (one_user n) = (n ≢ 0) × (n ≢ 1) × Listed users (agent_username i) n log
MayDelete i log login = ⊥
MayDelete i log projects = ⊥
MayDelete i log users = ⊥
MayDelete i log tokens = ⊥
MayDelete i log (project_users n) = ⊥

abbrev pub IsJustified : HermesInstance → Exchange → List Exchange → Type 0
IsJustified i e log = e.request.method ≡ delete_request → MayDelete i log e.request.path

-- Every deletion of a log is justified by the exchanges before it.
abbrev pub AllJustified : HermesInstance → List Exchange → Type 0
AllJustified i [] = Unit
AllJustified i (e ∷ log) = IsJustified i e log × AllJustified i log

-- What may be posted, by the exchanges before: the project of the instance's name and the user of the
-- agent's name, each only if the server's listing has no id for it, a membership, a login, a token.
abbrev pub MayPost : HermesInstance → List Exchange → Endpoint → Body → Type 0
MayPost i log projects b = (b ≡ new_project i.meta.name) × Listed projects i.meta.name 0 log
MayPost i log users b =
    (full : String) × (mail : String) × (b
      ≡ new_user full (agent_username i) mail (agent_password i))
    × Listed users (agent_username i) 0 log
MayPost i log (project_users n) b = (user : ℕ) × (b ≡ manager user)
MayPost i log login b = Unit
MayPost i log tokens b = Unit
MayPost i log (one_project n) b = ⊥
MayPost i log (one_user n) b = ⊥

abbrev pub MaySend : HermesInstance → List Exchange → Request → Method → Type 0
MaySend i log q get_request = Unit
MaySend i log q post = MayPost i log q.path q.body
MaySend i log q delete_request = ⊥

-- Every request of a log is allowed by the exchanges before it.
abbrev pub AllAllowed : HermesInstance → List Exchange → Type 0
AllAllowed i [] = Unit
AllAllowed i (e ∷ log) = MaySend i log e.request e.request.method × AllAllowed i log
