-- ===== src/Resources/Workspace/RoundTrip.antt =====
-- internal/resources/workspace_configmap.go: where the decoding of a key gives the path back.
use Prim.Native.String.{String}
use Prim.Native.Char.{Char}
use text.Mathlib.TextEquality.{Char-path}
use hermes_operator.Common.{
  Bool, true, false, ◌≡◌, refl, ap, sym, ◌∙◌, ◌↔◌, inl, inr, Bool-cases, arith, not, ◌||◌,
}
use hermes_operator.Resources.Workspace.{
  is_slash, is_low, starts_low, drop_one, prepend, encode_workspace_path, decode_workspace_path,
  decode_from,
}

-- A text whose first character is not a '_' or a "/".
abbrev begins_plain : String → Bool
begins_plain String.[] = true
begins_plain (String.◌∷◌ c s) = not (is_low c || is_slash c)

-- No '_' of the path is followed by another '_' or by a "/".
abbrev pub IsDecodable : String → Type 0
IsDecodable String.[] = Unit
IsDecodable (String.◌∷◌ c s) = (is_low c ≡ true → begins_plain s ≡ true) × IsDecodable s

-- A '_' that waits is written out in front of a text that begins plainly.
pending-encode :
    (s : String)
    → begins_plain s ≡ true
    → decode_from true (encode_workspace_path s)
      ≡ prepend "_" (decode_from false (encode_workspace_path s))
unfolding decode_from encode_workspace_path
pending-encode String.[] e = refl
pending-encode (String.◌∷◌ c s) e = ground arith

slash-path : (c : Char) → is_slash c ≡ true → c ≡ "/"
slash-path c e = Char-path c "/" (ground arith)

low-path : (c : Char) → is_low c ≡ true → c ≡ "_"
low-path c e = Char-path c "_" (ground arith)

decode-encode : (p : String) → IsDecodable p → decode_from false (encode_workspace_path p) ≡ p
unfolding decode_from encode_workspace_path
decode-encode String.[] d = refl
decode-encode (String.◌∷◌ c s) d =
    ground (arith, slash-path c, low-path c, decode-encode s d.1, pending-encode s, d.0)

-- A '_' in front of a path comes back only before a plain text.
pending-plain :
    (s : String)
    → decode_from true (encode_workspace_path s) ≡ String.◌∷◌ "_" s
    → begins_plain s ≡ true
unfolding decode_from encode_workspace_path
pending-plain String.[] e = refl
pending-plain (String.◌∷◌ c s) e = elim (Bool-cases (is_slash c)) [
  | inl slash ↦ let head = ap starts_low (rw slash at e) in absurd (ground arith)
  | inr other ↦ elim (Bool-cases (is_low c)) [
    | inl low ↦ let head = ap starts_low (rw (other, low) at e) in absurd (ground arith)
    | inr high ↦ ground arith
  ]
]

-- A path that comes back has a rest that comes back, and a '_' of it stands before a plain text.
decode-cons :
    (c : Char) (s : String)
    → decode_from false (encode_workspace_path (String.◌∷◌ c s)) ≡ String.◌∷◌ c s
    → (is_low c ≡ true → begins_plain s ≡ true) × (decode_from false (encode_workspace_path s) ≡ s)
unfolding decode_from encode_workspace_path
decode-cons c s e = elim (Bool-cases (is_slash c)) [
  | inl slash ↦ (λ low. ground arith, let rest = ap drop_one e in ground arith)
  | inr other ↦ elim (Bool-cases (is_low c)) [
    | inl low ↦
        let waits : decode_from true (encode_workspace_path s) ≡ String.◌∷◌ "_" s =
          ground (arith, low-path c) in
        let plain = pending-plain s waits in
        (λ l. plain, ap drop_one (sym (pending-encode s plain) ∙ waits))
    | inr high ↦ (λ low. ground arith, let rest = ap drop_one e in ground arith)
  ]
]

IsDecodable-decode : (p : String) → decode_from false (encode_workspace_path p) ≡ p → IsDecodable p
IsDecodable-decode String.[] e = tt
IsDecodable-decode (String.◌∷◌ c s) e =
    let (plain, rest) = decode-cons c s e in (plain, IsDecodable-decode s rest)

-- Decoding the key of a path gives the path back exactly if no '_' of the path is followed by
-- another '_' or by a "/".
pub decode_workspace_path-encode_workspace_path :
    (p : String) → (decode_workspace_path (encode_workspace_path p) ≡ p) ↔ IsDecodable p
unfolding decode_workspace_path
decode_workspace_path-encode_workspace_path p = (IsDecodable-decode p, decode-encode p)
