-- ===== src/Kube/Result.antt =====
-- Go's `(value, error)` results. An error keeps what the code asks of it: `apierrors.IsNotFound`,
-- `apierrors.IsAlreadyExists` and `errors.Is` look through `%w` wrappers.
use hermes_operator.Common.{String, Bool, true, false, ◌≡◌, refl, ◌⊎◌, inl, inr}

pub data Err : Type 0 where
  not_found already_exists no_matching_tag no_match : Err
  plain : String → Err
  wrap : String → Err → Err

abbrev pub is_not_found : Err → Bool
is_not_found not_found = true
is_not_found already_exists = false
is_not_found no_matching_tag = false
is_not_found no_match = false
is_not_found (plain s) = false
is_not_found (wrap s e) = is_not_found e

abbrev pub is_already_exists : Err → Bool
is_already_exists not_found = false
is_already_exists already_exists = true
is_already_exists no_matching_tag = false
is_already_exists no_match = false
is_already_exists (plain s) = false
is_already_exists (wrap s e) = is_already_exists e

abbrev pub is_no_matching_tag : Err → Bool
is_no_matching_tag not_found = false
is_no_matching_tag already_exists = false
is_no_matching_tag no_matching_tag = true
is_no_matching_tag no_match = false
is_no_matching_tag (plain s) = false
is_no_matching_tag (wrap s e) = is_no_matching_tag e

-- `meta.IsNoMatchError` or `runtime.IsNotRegisteredError`: the kind is not installed. The code asks
-- it only of errors that come unwrapped from a call.
abbrev pub is_no_match : Err → Bool
is_no_match not_found = false
is_no_match already_exists = false
is_no_match no_matching_tag = false
is_no_match no_match = true
is_no_match (plain s) = false
is_no_match (wrap s e) = false

pub data Result {ℓ} (A : Type ℓ) : Type ℓ where
  ok : A → Result A
  err : Err → Result A

abbrev pub is_ok {ℓ} : {A : Type ℓ} → Result A → Bool
is_ok (ok a) = true
is_ok (err e) = false

pub Result-cases {ℓ} :
    {A : Type ℓ} (r : Result A) → ((a : A) × (r ≡ ok a)) ⊎ ((e : Err) × (r ≡ err e))
Result-cases (ok a) = inl (a, refl)
Result-cases (err e) = inr (e, refl)
