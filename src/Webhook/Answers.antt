-- ===== src/Webhook/Answers.antt =====
-- Logic that the validators' statements share.
use hermes_operator.Common.{
  String, Bool, true, false, not, ◌&&◌, Option, none, some, List, [], ◌∷◌, ◌≡◌, ◌≢◌, refl, ◌⊎◌, inl,
  inr, ◌↔◌, arith, eq_iff, is_empty, is_cons, is_some, bool_value,
}

pub empty_iff : (t : String) → (is_empty t ≡ false) ↔ (t ≢ "")
empty_iff t = (λ e q. ground (arith, eq_iff t ""), λ n. ground (arith, eq_iff t "", n))

pub cons_iff {ℓ} : {A : Type ℓ} (xs : List A) → (not (is_cons xs) ≡ false) ↔ (xs ≢ [])
cons_iff [] = (λ e q. cc, λ n. absurd (n refl))
cons_iff (x ∷ xs) = (λ e q. cc, λ n. refl)

-- `*p` is true.
pub on_iff : (b : Option Bool) → (bool_value b ≡ true) ↔ (b ≡ some true)
on_iff none = (λ e. cc, λ e. cc)
on_iff (some true) = (λ e. refl, λ e. refl)
on_iff (some false) = (λ e. cc, λ e. cc)

pub both_iff {ℓ κ} :
    {A : Type ℓ} {B : Type κ} (a : Option A) (b : Option B)
    → (is_some a && is_some b ≡ false) ↔ ((a ≡ none) ⊎ (b ≡ none))
both_iff none b = (λ e. inl refl, λ h. refl)
both_iff (some x) none = (λ e. inr refl, λ h. refl)
both_iff (some x) (some y) = (λ e. cc, λ h. ground arith)
