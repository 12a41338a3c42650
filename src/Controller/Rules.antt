-- ===== src/Controller/Rules.antt =====
-- Rules for what holds when a handler has returned: `P` is a predicate on its value and final
-- state, and each rule takes one step of the handler.
use hermes_operator.Common.{Bool, true, false, ◌≡◌, refl, if◌then◌else◌}
use hermes_operator.Common.Flow.{M, ◌>>=◌, ◌>>◌, return_if, when, run}
use hermes_operator.Api.Instance.{HermesInstance}
use hermes_operator.Kube.Result.{Result, ok, err, Err}
use hermes_operator.Kube.Client.{answer_or}
use hermes_operator.Controller.{St, check, store}

module _ {S R : Type 0} (P : R × S → Type 0) where
  pub return_if_rule :
      (b : Bool) (r : R) (m : M S R R) (s : S)
      → (b ≡ true → P (r, s))
      → (b ≡ false → P (run m s))
      → P (run (return_if b r >> m) s)
  return_if_rule true r m s p q = p refl
  return_if_rule false r m s p q = q refl

  pub if_rule :
      (b : Bool) (m n : M S R R) (s : S)
      → (b ≡ true → P (run m s))
      → (b ≡ false → P (run n s))
      → P (run (if b then m else n) s)
  if_rule true m n s p q = p refl
  if_rule false m n s p q = q refl

  pub check_rule :
      {A : Type 0} (r : Result A) (on_error : Err → R) (k : A → M S R R) (s : S)
      → ((e : Err) → r ≡ err e → P (on_error e, s))
      → ((a : A) → r ≡ ok a → P (run (k a) s))
      → P (run (check r on_error >>= k) s)
  check_rule (ok a) on_error k s p q = q a refl
  check_rule (err e) on_error k s p q = p e refl

module _ {W R : Type 0} (P : R × St W → Type 0) where
  pub store_rule :
      (r : Result HermesInstance) (on_error : Err → R) (m : M (St W) R R) (s : St W)
      → ((e : Err) → r ≡ err e → P (on_error e, s))
      → ((i : HermesInstance) → r ≡ ok i → P (run m (record s { inst = i })))
      → P (run (store r on_error >> m) s)
  store_rule (ok i) on_error m s p q = q i refl
  store_rule (err e) on_error m s p q = p e refl

module _ {S R : Type 0} (P : R × S → Type 0) where
  pub when_rule :
      (b : Bool) (m : M S R (Unit {0})) (n : M S R R) (s : S)
      → (b ≡ true → P (run (m >> n) s))
      → (b ≡ false → P (run n s))
      → P (run (when b m >> n) s)
  when_rule true m n s p q = p refl
  when_rule false m n s p q = q refl

  -- A check inside a part of the handler.
  pub inner_check_rule :
      {A B : Type 0} (r : Result A) (on_error : Err → R) (k : A → M S R B) (n : B → M S R R) (s : S)
      → ((e : Err) → r ≡ err e → P (on_error e, s))
      → ((a : A) → r ≡ ok a → P (run (k a >>= n) s))
      → P (run ((check r on_error >>= k) >>= n) s)
  inner_check_rule (ok a) on_error k n s p q = q a refl
  inner_check_rule (err e) on_error k n s p q = p e refl

-- What a return leaves of the instance in memory.
abbrev pub Leaves : {W R : Type 0} → (HermesInstance → Type 0) → R × St W → Type 0
Leaves G out = G out.1.inst

-- A write of the instance: `G` is what every return guarantees of the instance in memory, and `T`
-- what holds of it here, with the server's answer or without.
module _ {W R : Type 0} (G : HermesInstance → Type 0) (T : HermesInstance → Type 0) where
  pub write_rule :
      (r : Result HermesInstance) (on_error : Err → R) (m : M (St W) R R) (s : St W)
      → ((i : HermesInstance) → T i → G i)
      → T s.inst
      → T (answer_or r s.inst)
      → ((i : HermesInstance) → T i → Leaves G (run m (record s { inst = i })))
      → Leaves G (run (store r on_error >> m) s)
  write_rule (ok i) on_error m s enough here there k = k i there
  write_rule (err e) on_error m s enough here there k = enough s.inst here
