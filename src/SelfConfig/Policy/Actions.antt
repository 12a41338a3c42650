-- ===== src/SelfConfig/Policy/Actions.antt =====
-- What the check of the requested actions answers.
use mathlib.Core.List.{Memᴰ}
use mathlib.Core.Path.{subst}
use hermes_operator.Common.{
  Bool, true, false, List, [], ◌∷◌, ◌≡◌, refl, sym, ◌↔◌, arith, eq_iff, any, All, Bool-cases, inl,
  inr, if◌then◌else◌,
}
use hermes_operator.Api.Features.{
  SelfConfigAction, skills, config, env_vars, workspace_files, profiles, unknown,
}
use hermes_operator.SelfConfig.{same_action}
use hermes_operator.SelfConfig.Policy.{check_allowed_actions}

same_action-eq : (a b : SelfConfigAction) → same_action a b ≡ true → a ≡ b
same_action-eq (unknown a) (unknown b) h = ground (arith, eq_iff a b)
same_action-eq skills b h = ground arith
same_action-eq config b h = ground arith
same_action-eq env_vars b h = ground arith
same_action-eq workspace_files b h = ground arith
same_action-eq profiles b h = ground arith
same_action-eq (unknown a) skills h = cc
same_action-eq (unknown a) config h = cc
same_action-eq (unknown a) env_vars h = cc
same_action-eq (unknown a) workspace_files h = cc
same_action-eq (unknown a) profiles h = cc

same_action_refl : (a : SelfConfigAction) → same_action a a ≡ true
same_action_refl (unknown a) = ground (arith, eq_iff a a)
same_action_refl a = refl

any-mem :
    (a : SelfConfigAction) (allowed : List SelfConfigAction)
    → any (same_action a) allowed ≡ true
    → Memᴰ a allowed
any-mem a [] h = cc
any-mem a (b ∷ bs) h = elim (Bool-cases (same_action a b)) [
  | inl same ↦ Memᴰ.head (same_action-eq a b same)
  | inr other ↦ Memᴰ.tail (any-mem a bs (ground arith))
]

mem-any :
    (a : SelfConfigAction) (allowed : List SelfConfigAction)
    → Memᴰ a allowed
    → any (same_action a) allowed ≡ true
mem-any a [] m = elim m [ ]
mem-any a (b ∷ bs) (Memᴰ.head e) =
    let h = subst (λ x. same_action a x ≡ true) e (same_action_refl a) in ground arith
mem-any a (b ∷ bs) (Memᴰ.tail m) = ground (arith, mem-any a bs m)

-- One round of the loop, for the test of its action.
step-mem :
    (a b : SelfConfigAction) (t : Bool) (bs allowed denied : List SelfConfigAction)
    → any (same_action b) allowed ≡ t
    → (Memᴰ a denied → Memᴰ a bs × ¬ Memᴰ a allowed)
    → Memᴰ a (if t then denied else b ∷ denied)
    → Memᴰ a (b ∷ bs) × ¬ Memᴰ a allowed
step-mem a b true bs allowed denied h ih m = let (there, out) = ih m in (Memᴰ.tail there, out)
step-mem a b false bs allowed denied h ih (Memᴰ.head e) =
    (Memᴰ.head e, λ m. let in_set = mem-any b allowed (subst (λ x. Memᴰ x allowed) e m) in cc)
step-mem a b false bs allowed denied h ih (Memᴰ.tail m) =
    let (there, out) = ih m in (Memᴰ.tail there, out)

step_mem_back :
    (a b : SelfConfigAction) (t : Bool) (bs allowed denied : List SelfConfigAction)
    → any (same_action b) allowed ≡ t
    → (Memᴰ a bs → Memᴰ a denied)
    → ¬ Memᴰ a allowed
    → Memᴰ a (b ∷ bs)
    → Memᴰ a (if t then denied else b ∷ denied)
step_mem_back a b true bs allowed denied h ih out (Memᴰ.head e) =
    absurd (out (subst (λ x. Memᴰ x allowed) (sym e) (any-mem b allowed h)))
step_mem_back a b true bs allowed denied h ih out (Memᴰ.tail m) = ih m
step_mem_back a b false bs allowed denied h ih out (Memᴰ.head e) = Memᴰ.head e
step_mem_back a b false bs allowed denied h ih out (Memᴰ.tail m) = Memᴰ.tail (ih m)

denied-mem :
    (a : SelfConfigAction) (requested allowed : List SelfConfigAction)
    → Memᴰ a (check_allowed_actions requested allowed)
    → Memᴰ a requested × ¬ Memᴰ a allowed
unfolding check_allowed_actions
denied-mem a [] allowed m = elim m [ ]
denied-mem a (b ∷ bs) allowed m =
    step-mem a b (any (same_action b) allowed) bs allowed (check_allowed_actions bs allowed) refl
      (denied-mem a bs allowed) m

mem-denied :
    (a : SelfConfigAction) (requested allowed : List SelfConfigAction)
    → ¬ Memᴰ a allowed
    → Memᴰ a requested
    → Memᴰ a (check_allowed_actions requested allowed)
unfolding check_allowed_actions
mem-denied a [] allowed out m = elim m [ ]
mem-denied a (b ∷ bs) allowed out m =
    step_mem_back a b (any (same_action b) allowed) bs allowed (check_allowed_actions bs allowed)
      refl (mem-denied a bs allowed out) out m

-- The denied actions are exactly the requested ones that are not allowed.
pub check_allowed_actions-mem_iff :
    (a : SelfConfigAction) (requested allowed : List SelfConfigAction)
    → Memᴰ a (check_allowed_actions requested allowed) ↔ (Memᴰ a requested × ¬ Memᴰ a allowed)
check_allowed_actions-mem_iff a requested allowed =
    (denied-mem a requested allowed, λ h. mem-denied a requested allowed h.1 h.0)

-- Nothing is denied: every requested action is allowed.
pub check_allowed_actions-nil :
    (requested allowed : List SelfConfigAction)
    → check_allowed_actions requested allowed ≡ []
    → All (λ a. Memᴰ a allowed) requested
unfolding check_allowed_actions
check_allowed_actions-nil [] allowed h = tt
check_allowed_actions-nil (b ∷ bs) allowed h = elim (Bool-cases (any (same_action b) allowed)) [
  | inl fine ↦ (any-mem b allowed fine, check_allowed_actions-nil bs allowed (ground arith))
  | inr denied ↦ absurd (ground arith)
]
