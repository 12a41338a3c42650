-- ===== src/SelfConfig/Reconcile/Outcome.antt =====
-- A request that is applied, from its status: what was written for it, and what it reports.
use hermes_operator.Common.{
  ℕ, String, Bool, true, false, Option, none, some, List, ◌++◌, ◌≡◌, ◌≢◌, ap, refl, ◌∙◌, inl, inr,
  arith, Bool-cases, if◌then◌else◌,
}
use hermes_operator.Kube.Result.{Result, ok, err, Err, is_not_found}
use hermes_operator.Kube.Library.{Library}
use hermes_operator.Api.Instance.{HermesInstance}
use hermes_operator.Api.SelfConfig.{HermesSelfConfig, applied}
use hermes_operator.SelfConfig.Reconcile.Settles.{IsStatusServer}
use hermes_operator.SelfConfig.Turn.{
  SelfConfigClient, Turn, parent_not_found, apply_failed, Write, one_hour, is_settled, DenyReason,
}
use hermes_operator.SelfConfig.Reconcile.{
  denied_turn, updated, mark_applied, deny, conclude, decide, for_parent, handle, gates, apply_all,
}
use hermes_operator.SelfConfig.Reconcile.Applies.{HasHoncho, planned, owned, Wrote, apply_all-Wrote}

module _ {W : Type 0} (c : SelfConfigClient W) (l : Library) (h : IsStatusServer c) where
  -- The turn has applied the request to a parent: what it wrote, and what the status reports.
  abbrev pub Applies : HermesInstance → HermesSelfConfig → List Write → Turn W → Type 0
  Applies parent sc before out =
      (t : ℕ) × HasHoncho parent sc.spec.add_profile_snapshot
      × (out.writes ≡ before ++ planned c l parent sc t)
      × (out.sc.status.applied_fields ≡ owned c l parent sc t)
      × (out.sc.status.phase ≡ applied)

  -- A turn that asks to be called again in an hour has applied the request.
  abbrev AppliesIf : HermesInstance → HermesSelfConfig → List Write → Result ℕ × Turn W → Type 0
  AppliesIf parent sc before (ok n, s) = n ≡ one_hour → Applies parent sc before s
  AppliesIf parent sc before (err e, s) = Unit

  marked :
      (parent : HermesInstance) (sc : HermesSelfConfig) (before : List Write) (s : Turn W) (t : ℕ)
      (answer : Result HermesSelfConfig × W)
      → c.update_status s.sc s.world ≡ answer
      → HasHoncho parent sc.spec.add_profile_snapshot
      → s.writes ≡ before ++ planned c l parent sc t
      → s.sc.status.applied_fields ≡ owned c l parent sc t
      → s.sc.status.phase ≡ applied
      → AppliesIf parent sc before (updated c l one_hour s answer)
  marked parent sc before s t (ok sc', w) q honcho e f p = λ n. (
    t,
    honcho,
    e,
    h.fields-update_status s.sc sc' s.world w q ∙ f,
    h.phase-update_status s.sc sc' s.world w q ∙ p,
  )
  marked parent sc before s t (err x, w) q honcho e f p = tt

  -- A denial asks for no further call.
  NotHour : Result ℕ → Type 0
  NotHour r = r ≢ ok one_hour

  denied-NotHour :
      (s : Turn W) (answer : Result HermesSelfConfig × W) → NotHour (updated c l 0 s answer).0
  unfolding NotHour
  denied-NotHour s (ok sc, w) = λ e. ground arith
  denied-NotHour s (err x, w) = λ e. ground arith

  deny-NotHour :
      (parent : Option HermesInstance) (reason : DenyReason) (s : Turn W)
      → NotHour (deny c l parent reason s).0
  unfolding deny
  deny-NotHour parent reason s =
      let s' = denied_turn c l parent reason s in denied-NotHour s' (c.update_status s'.sc s'.world)

  not_hour :
      (parent : HermesInstance) (sc : HermesSelfConfig) (before : List Write)
      (out : Result ℕ × Turn W)
      → NotHour out.0
      → AppliesIf parent sc before out
  unfolding NotHour
  not_hour parent sc before (ok n, s) d = λ e. absurd (d (ap ok e))
  not_hour parent sc before (err x, s) d = tt

  hour :
      (parent : HermesInstance) (sc : HermesSelfConfig) (before : List Write)
      (out : Result ℕ × Turn W)
      → AppliesIf parent sc before out
      → out.0 ≡ ok one_hour
      → Applies parent sc before out.1
  hour parent sc before (ok n, s) d e = d (ground arith)
  hour parent sc before (err x, s) d e = absurd (ground arith)

  deny-AppliesIf :
      (parent : HermesInstance) (sc : HermesSelfConfig) (before : List Write)
      (o : Option HermesInstance) (reason : DenyReason) (s : Turn W)
      → AppliesIf parent sc before (deny c l o reason s)
  deny-AppliesIf parent sc before o reason s =
      not_hour parent sc before (deny c l o reason s) (deny-NotHour o reason s)

  conclude-AppliesIf :
      (parent : HermesInstance) (sc : HermesSelfConfig) (s : Turn W)
      (out : Result (List String) × Turn W)
      → Wrote c l parent sc s out
      → AppliesIf parent sc s.writes (conclude c l parent out)
  unfolding mark_applied
  conclude-AppliesIf parent sc s (ok fields, s') (t, honcho, e, f) =
      let (now, w) = c.now s'.world in marked parent sc s.writes _ t _ refl honcho e f refl
  conclude-AppliesIf parent sc s (err e, s') u =
      deny-AppliesIf parent sc s.writes (some parent) (apply_failed e) s'

  decide-AppliesIf :
      (parent : HermesInstance) (o : Option DenyReason) (s : Turn W)
      → AppliesIf parent s.sc s.writes (decide c l parent o s)
  unfolding decide
  decide-AppliesIf parent none s =
      conclude-AppliesIf parent s.sc s (apply_all c l parent s.sc s)
        (apply_all-Wrote c l parent s.sc s)
  decide-AppliesIf parent (some reason) s =
      deny-AppliesIf parent s.sc s.writes (some parent) reason s

  absent : (reason : DenyReason) (s : Turn W) → (deny c l none reason s).0 ≢ ok one_hour
  unfolding NotHour
  absent reason s = deny-NotHour none reason s

  abbrev the_error : Err → Result ℕ
  the_error x = err x

  failing : (x : Err) → the_error x ≢ ok one_hour
  failing x e = ground arith

  -- The parent was read, and the request applied to it.
  abbrev pub AppliesTo : Result HermesInstance → HermesSelfConfig → List Write → Turn W → Type 0
  AppliesTo r sc before out =
      (parent : HermesInstance) × (r ≡ ok parent) × Applies parent sc before out

  for_parent-AppliesTo :
      (r : Result HermesInstance) (s : Turn W)
      → (for_parent c l r s).0 ≡ ok one_hour
      → AppliesTo r s.sc s.writes (for_parent c l r s).1
  unfolding for_parent
  for_parent-AppliesTo (ok parent) s e = (
    parent,
    refl,
    hour parent s.sc s.writes (decide c l parent (gates c l parent s.sc) s)
        (decide-AppliesIf parent (gates c l parent s.sc) s) e,
  )
  for_parent-AppliesTo (err x) s e = elim (Bool-cases (is_not_found x)) [
    | inl gone ↦ absurd (absent (parent_not_found s.sc.spec.instance_ref) s (rw gone at e))
    | inr other ↦ absurd (failing x (rw other at e))
  ]

  -- The canary lets an undecided request through.
  undecided_turn :
      (P : Turn W → Type 0) (s : Turn W) (b : Bool)
      → b ≡ false
      → (rest : Result ℕ × Turn W) → (rest.0 ≡ ok one_hour → P rest.1)
      → (if b then (ok one_hour, s) else rest).0 ≡ ok one_hour
      → P (if b then (ok one_hour, s) else rest).1
  undecided_turn P s true e rest k q = absurd (ground arith)
  undecided_turn P s false e rest k q = k q

  -- With an API server that answers a status update with the phase and the fields that it is given:
  -- a turn of an undecided request that returns without an error and asks to be called again in an
  -- hour has read the parent, has issued exactly the writes of the request, in the order skills,
  -- environment, ConfigMap, snapshot Job, each only if the request has the part, and has stored the
  -- phase Applied with the fields of the request; a snapshot needs Honcho on the parent.
  pub handle-AppliesTo :
      (s : Turn W)
      → is_settled s.sc ≡ false
      → (handle c l s).0 ≡ ok one_hour
      → AppliesTo
          (c.get_instance s.sc.spec.instance_ref s.sc.meta.namespace s.world).0
          s.sc
          s.writes
          (handle c l s).1
  unfolding handle
  handle-AppliesTo s undecided e =
      let (r, w) = c.get_instance s.sc.spec.instance_ref s.sc.meta.namespace s.world in
      undecided_turn (AppliesTo r s.sc s.writes) s (is_settled s.sc) undecided
        (for_parent c l r (record s { world = w }))
        (for_parent-AppliesTo r (record s { world = w })) e
