-- ===== src/Common/Flow.antt =====
-- Handlers with early returns over an explicit state: a step goes on with a value, or stops with
-- the value that the whole handler returns.
use mathlib.Core.Bool.{Bool, true, false}

pub data Flow (S R A : Type 0) : Type 0 where
  stop : R → S → Flow S R A
  go : A → S → Flow S R A

-- A handler in the making: `R` is what it returns, `A` what this part computes.
abbrev pub M : Type 0 → Type 0 → Type 0 → Type 0
M S R A = S → Flow S R A

infixl 5 ◌>>=◌ ◌>>◌
abbrev pub ◌>>=◌ : {S R A B : Type 0} → M S R A → (A → M S R B) → M S R B
◌>>=◌ m k s = elim (m s) [ stop r s' ↦ stop r s' | go a s' ↦ k a s' ]

abbrev pub ◌>>◌ : {S R B : Type 0} → M S R (Unit {0}) → M S R B → M S R B
m >> k = m >>= λ _. k

-- `return r`.
abbrev pub exit : {S R A : Type 0} → R → M S R A
exit r s = stop r s

-- The last value of a handler.
abbrev pub finish : {S R : Type 0} → R → M S R R
finish r s = go r s

-- `if b { return r }`.
abbrev pub return_if : {S R : Type 0} → Bool → R → M S R (Unit {0})
return_if true r s = stop r s
return_if false r s = go tt s

-- `if b { m }`.
abbrev pub when : {S R : Type 0} → Bool → M S R (Unit {0}) → M S R (Unit {0})
when true m s = m s
when false m s = go tt s

-- A handler is finished by its last value, or by the return that it took.
abbrev pub run : {S R : Type 0} → M S R R → S → R × S
run m s = elim (m s) [ stop r s' ↦ (r, s') | go r s' ↦ (r, s') ]

-- A finished handler called from another one.
abbrev pub sub : {S R A : Type 0} → (S → A × S) → M S R A
sub f s = let (a, s') = f s in go a s'
