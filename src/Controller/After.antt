-- ===== src/Controller/After.antt =====
-- Rules for the parts of a handler: what holds where a part stops the handler, and what holds where it
-- goes on.
use hermes_operator.Common.{Bool, true, false, ◌≡◌, refl, if◌then◌else◌}
use hermes_operator.Common.Flow.{Flow, stop, go, M, run, return_if, when}
use hermes_operator.Kube.Result.{Result, ok, err, Err}
use hermes_operator.Controller.{check}

-- A part of a handler: `I` holds of the state where it stops, `Q` of its value where it goes on.
abbrev pub After : {S R A : Type 0} → (S → Type 0) → (A → S → Type 0) → Flow S R A → Type 0
After I Q (stop r s) = I s
After I Q (go a s) = Q a s

module _ {S R : Type 0} (I : S → Type 0) where
  pub bind_rule :
      {A B : Type 0} (Q : A → S → Type 0) (T : B → S → Type 0) (f : Flow S R A) (k : A → M S R B)
      → After I Q f
      → ((a : A) (s : S) → Q a s → After I T (k a s))
      → After I T (elim f [ stop r s ↦ stop r s | go a s ↦ k a s ])
  bind_rule Q T (stop r s) k p q = p
  bind_rule Q T (go a s) k p q = q a s p

  pub checked_rule :
      {A : Type 0} (Q : A → S → Type 0) (r : Result A) (k : Err → R) (s : S)
      → I s
      → ((a : A) → r ≡ ok a → Q a s)
      → After I Q (check r k s)
  checked_rule Q (ok a) k s p q = q a refl
  checked_rule Q (err e) k s p q = p

  pub branch_rule :
      {A : Type 0} (Q : A → S → Type 0) (b : Bool) (m n : M S R A) (s : S)
      → (b ≡ true → After I Q (m s))
      → (b ≡ false → After I Q (n s))
      → After I Q ((if b then m else n) s)
  branch_rule Q true m n s p q = p refl
  branch_rule Q false m n s p q = q refl

  pub guard_rule : (b : Bool) (r : R) (s : S) → I s → After I (λ _. I) (return_if b r s)
  guard_rule true r s p = p
  guard_rule false r s p = p

  pub optional_rule :
      (b : Bool) (m : M S R (Unit {0})) (s : S)
      → I s
      → After I (λ _. I) (m s)
      → After I (λ _. I) (when b m s)
  optional_rule true m s p q = q
  optional_rule false m s p q = p

  ended :
      (f : Flow S R R)
      → After I (λ _. I) f
      → I (elim f as (λ _. R × S) [ stop r s ↦ (r, s) | go r s ↦ (r, s) ]).1
  ended (stop r s) p = p
  ended (go r s) p = p

  pub ended_rule : (m : M S R R) (s : S) → After I (λ _. I) (m s) → I (run m s).1
  ended_rule m s p = ended (m s) p
