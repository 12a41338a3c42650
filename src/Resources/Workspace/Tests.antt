-- ===== src/Resources/Workspace/Tests.antt =====
-- The workspace of an instance: paths and keys.
use hermes_operator.Common.{◌≡◌, ◌↔◌, refl}
use hermes_operator.Resources.Workspace.{encode_workspace_path, decode_workspace_path, decode_from}
use hermes_operator.Resources.Workspace.RoundTrip.{
  IsDecodable, decode_workspace_path-encode_workspace_path,
}

decode_workspace_path-encode_workspace_path_example :
    (decode_workspace_path (encode_workspace_path "a/b_c") ≡ "a/b_c") ↔ IsDecodable "a/b_c"
decode_workspace_path-encode_workspace_path_example =
    decode_workspace_path-encode_workspace_path "a/b_c"

-- Two paths with one key.
collide : encode_workspace_path "a/_b" ≡ encode_workspace_path "a_/b"
unfolding encode_workspace_path
collide = refl

-- A path that does not come back.
lost : decode_workspace_path (encode_workspace_path "a_/b") ≡ "a/_b"
unfolding decode_workspace_path decode_from encode_workspace_path
lost = refl
