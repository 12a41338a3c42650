-- ===== src/Resources/Secret.antt =====
-- internal/resources/secret.go: the Secret with the key of the agent's API server. `crypto/rand` and
-- `encoding/hex` are parameters.
use hermes_operator.Common.{ℕ, String, none, List, [], ◌∷◌}
use hermes_operator.Kube.Result.{Result, ok, err, wrap}
use hermes_operator.Kube.Cluster.{Object}
use hermes_operator.Api.Instance.{HermesInstance}
use hermes_operator.Resources.Labels.{labels_for_instance}

abbrev pub api_server_key_secret_key : String
api_server_key_secret_key = "api_server_key"

-- `rand.Read` of so many bytes, and `hex.EncodeToString`.
pub record Random (W : Type 0) : Type 0 where
  pub read : ℕ → W → Result (List ℕ) × W
  pub encode_to_string : List ℕ → String

abbrev pub api_server_key : {W : Type 0} → Random W → Result (List ℕ) → Result String
api_server_key r (ok b) = ok (r.encode_to_string b)
api_server_key r (err e) = err (wrap "generate api server key" e)

unfoldable pub generate_api_server_key : {W : Type 0} → Random W → W → Result String × W
generate_api_server_key r w = let (b, w') = r.read 32 w in (api_server_key r b, w')

-- The desired Secret; `s` is the part of an object that a Secret does not have.
unfoldable pub build_gateway_token_secret : {S : Type 0} → S → HermesInstance → Object S
build_gateway_token_secret s i = record {
  labels = labels_for_instance i;
  annotations = ("hermes.agent/placeholder", "true") ∷ [];
  owner = none;
  secret_type = "Opaque";
  entries = [];
  cluster_ip = "";
  cluster_ips = [];
  finalizers = [];
  deletion_timestamp = none;
  spec = s;
}
