-- ===== src/Fixtures/Keys.antt =====
-- A printer that writes only the keys of a map, and its reader: enough for what is relied on of YAML.
use Prim.Native.Char.{code}
use Prim.Native.String.{String}
use mathlib.Core.Path.{subst}
use hermes_operator.Common.{
  Bool, true, false, ◌≡◌, refl, ap, sym, ◌∙◌, arith, ◌==◌, is_some, is_empty, if◌then◌else◌,
}
use hermes_operator.Common.{is_empty-cons}
use hermes_operator.Kube.Result.{ok}
use hermes_operator.Kube.Client.{answer_or}
use hermes_operator.Resources.Yaml.{Fields, flag, end, field, look}
use hermes_operator.Resources.Config.{Yaml, IsYaml}

-- A key: each character behind an 'x', and a ';' at its end.
abbrev print_key : String → String → String
print_key String.[] rest = String.◌∷◌ ";" rest
print_key (String.◌∷◌ c s) rest = String.◌∷◌ "x" (String.◌∷◌ c (print_key s rest))

abbrev print : Fields → String
print end = "."
print (field k v m) = String.◌∷◌ "," (print_key k (print m))

-- The key that a text goes on with, and the rest; or, between keys, all that is left.
abbrev read : Bool → String → String × Fields
read true (String.◌∷◌ x (String.◌∷◌ c s)) =
    let on = read true s in
    let out = read false (String.◌∷◌ c s) in
    if code x == b'x' then (String.◌∷◌ c on.0, on.1) else ("", out.1)
read true (String.◌∷◌ x String.[]) = ("", end)
read true String.[] = ("", end)
read false String.[] = ("", end)
read false (String.◌∷◌ x s) =
    let on = read true s in if code x == b',' then ("", field on.0 (flag true) on.1) else ("", end)

abbrev keys : Fields → Fields
keys end = end
keys (field k v m) = field k (flag true) (keys m)

read-print_key :
    (k : String) (m : Fields) → read true (print_key k (print m)) ≡ (k, (read false (print m)).1)
read-print_key String.[] end = refl
read-print_key String.[] (field k v m) = refl
read-print_key (String.◌∷◌ c s) m = ap (λ o. (String.◌∷◌ c o.0, o.1)) (read-print_key s m)

read-print : (m : Fields) → (read false (print m)).1 ≡ keys m
read-print end = refl
read-print (field k v m) =
    ap (λ o. field o.0 (flag true) o.1) (read-print_key k m)
    ∙ ap (field k (flag true)) (read-print m)

look-keys : (j : String) (m : Fields) → is_some (look j m) ≡ true → is_some (look j (keys m)) ≡ true
unfolding look
look-keys j end e = e
look-keys j (field k v m) e = ground (arith, look-keys j m)

abbrev pub keys_yaml : Yaml
keys_yaml = record {
  unmarshal = λ s. ok (read false s).1;
  marshal = λ m. ok (print m);
  json_to_yaml = λ s. ok s;
}

print_nonempty : (m : Fields) → is_empty (print m) ≡ false
print_nonempty end = refl
print_nonempty (field k v m) = is_empty-cons "," (print_key k (print m))

pub keys_yaml-IsYaml : IsYaml keys_yaml
keys_yaml-IsYaml = record {
  marshal-ok = λ m. refl;
  marshal-nonempty =
      λ m s e. subst (λ t. is_empty t ≡ false) (ap (λ r. answer_or r "") e) (print_nonempty m);
  unmarshal-marshal = λ k s m n e f has.
      let same =
        sym (read-print m)
        ∙ (ap (λ t. (read false t).1) (ap (λ r. answer_or r "") e) ∙ ap (λ r. answer_or r end) f) in
      subst (λ x. is_some (look k x) ≡ true) same (look-keys k m has);
}
