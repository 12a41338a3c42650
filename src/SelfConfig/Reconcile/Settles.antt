-- ===== src/SelfConfig/Reconcile/Settles.antt =====
-- A request is decided once: its next turn does nothing.
use hermes_operator.Common.{
  ℕ, String, true, Option, none, some, List, ◌≡◌, refl, inl, inr, arith, Bool-cases,
}
use hermes_operator.Kube.Result.{Result, ok, err, is_not_found}
use hermes_operator.Kube.Library.{Library}
use hermes_operator.Api.Instance.{HermesInstance}
use hermes_operator.Api.SelfConfig.{HermesSelfConfig}
use hermes_operator.SelfConfig.Turn.{
  SelfConfigClient, Turn, DenyReason, parent_not_found, one_hour, is_settled, phase_settled,
}
use hermes_operator.SelfConfig.Reconcile.{
  updated, gates, deny, mark_applied, conclude, apply_all, decide, for_parent, handle,
}

-- What the API server documents of a status update: it answers with the status that it is given,
-- and leaves the generation, which counts changes of the spec, alone.
pub record IsStatusServer {W : Type 0} (c : SelfConfigClient W) : Type 0 where
  pub phase-update_status :
      (sc sc' : HermesSelfConfig) (w w' : W)
      → c.update_status sc w ≡ (ok sc', w')
      → sc'.status.phase ≡ sc.status.phase
  pub observed-update_status :
      (sc sc' : HermesSelfConfig) (w w' : W)
      → c.update_status sc w ≡ (ok sc', w')
      → sc'.status.observed_generation ≡ sc.status.observed_generation
  pub generation-update_status :
      (sc sc' : HermesSelfConfig) (w w' : W)
      → c.update_status sc w ≡ (ok sc', w')
      → sc'.meta.generation ≡ sc.meta.generation
  pub fields-update_status :
      (sc sc' : HermesSelfConfig) (w w' : W)
      → c.update_status sc w ≡ (ok sc', w')
      → sc'.status.applied_fields ≡ sc.status.applied_fields

module _ {W : Type 0} (c : SelfConfigClient W) (l : Library) (h : IsStatusServer c) where
  -- A turn that returns no error leaves the request decided.
  abbrev pub Settles : Result ℕ × Turn W → Type 0
  Settles (ok n, s) = is_settled s.sc ≡ true
  Settles (err e, s) = Unit

  updated-Settles :
      (after : ℕ) (s : Turn W) (answer : Result HermesSelfConfig × W)
      → c.update_status s.sc s.world ≡ answer
      → s.sc.status.observed_generation ≡ s.sc.meta.generation
      → phase_settled s.sc.status.phase ≡ true
      → Settles (updated c l after s answer)
  updated-Settles after s (ok sc, w) q e p =
      let phase = h.phase-update_status s.sc sc s.world w q in
      let observed = h.observed-update_status s.sc sc s.world w q in
      let generation = h.generation-update_status s.sc sc s.world w q in
      ground (arith, phase, observed, generation)
  updated-Settles after s (err x, w) q e p = tt

  conclude-Settles :
      (parent : HermesInstance) (r : Result (List String)) (s : Turn W)
      → Settles (conclude c l parent (r, s))
  unfolding mark_applied deny
  conclude-Settles parent (ok fields) s =
      let (t, w) = c.now s.world in updated-Settles one_hour _ _ refl refl refl
  conclude-Settles parent (err e) s = updated-Settles 0 _ _ refl refl refl

  deny-Settles :
      (parent : Option HermesInstance) (reason : DenyReason) (s : Turn W)
      → Settles (deny c l parent reason s)
  unfolding deny
  deny-Settles parent reason s = updated-Settles 0 _ _ refl refl refl

  decide-Settles :
      (parent : HermesInstance) (o : Option DenyReason) (s : Turn W)
      → Settles (decide c l parent o s)
  unfolding decide
  decide-Settles parent (some reason) s = deny-Settles (some parent) reason s
  decide-Settles parent none s =
      conclude-Settles parent (apply_all c l parent s.sc s).0 (apply_all c l parent s.sc s).1

  for_parent-Settles : (r : Result HermesInstance) (s : Turn W) → Settles (for_parent c l r s)
  unfolding for_parent
  for_parent-Settles (ok parent) s = decide-Settles parent (gates c l parent s.sc) s
  for_parent-Settles (err e) s = elim (Bool-cases (is_not_found e)) [
    | inl gone ↦ rw gone (deny-Settles none (parent_not_found s.sc.spec.instance_ref) s)
    | inr other ↦ rw other tt
  ]

  handle-Settles : (s : Turn W) → Settles (handle c l s)
  unfolding handle
  handle-Settles s =
      let (r, w) = c.get_instance s.sc.spec.instance_ref s.sc.meta.namespace s.world in
      elim (Bool-cases (is_settled s.sc)) [
        | inl decided ↦ rw decided decided
        | inr undecided ↦ rw undecided (for_parent-Settles r (record s { world = w }))
      ]

  settled :
      (out : Result ℕ × Turn W) (n : ℕ) → Settles out → out.0 ≡ ok n → is_settled out.1.sc ≡ true
  settled (ok m, s) n d e = d
  settled (err x, s) n d e = absurd (ground arith)

  handle_idle : (s : Turn W) → is_settled s.sc ≡ true → handle c l s ≡ (ok one_hour, s)
  unfolding handle
  handle_idle s e = ground (arith, e)

  -- With an API server that answers a status update with the phase and the observed generation that
  -- it is given, and leaves the generation alone: once a turn has returned without an error, the
  -- next turn of the request that it stored, at any later state of the cluster, changes nothing and
  -- asks to be called again in an hour. So a request is decided once for each generation, whether
  -- it was applied or denied.
  pub handle_once :
      (s : Turn W) (n : ℕ) (later : W)
      → (handle c l s).0 ≡ ok n
      → let next = record ((handle c l s).1) { world = later } in
        handle c l next ≡ (ok one_hour, next)
  handle_once s n later e =
      handle_idle (record ((handle c l s).1) { world = later })
        (settled (handle c l s) n (handle-Settles s) e)
