-- ===== src/Instance/Tracks.antt =====
-- internal/controller/hermesinstance_controller.go: what the steps leave in the cluster.
use hermes_operator.Common.{
  String, Bool, true, false, Option, some, none, ◌≡◌, ◌≢◌, refl, ap, sym, ◌∙◌, arith, eq_iff,
  is_empty, bool_value, if◌then◌else◌,
}
use mathlib.Core.Path.{subst}
use hermes_operator.Common.Flow.{run, finish}
use hermes_operator.Api.Instance.{HermesInstance}
use hermes_operator.Kube.Result.{Result, ok, err, Err, is_ok, is_not_found}
use hermes_operator.Kube.Cluster.{
  Key, Object, Mutate, IsCluster, IsDeleted, found_or, network_policy, pdb, hpa, ingress, service,
}
use hermes_operator.Resources.Labels.{merge_preserving_foreign}
use hermes_operator.Resources.Names.{is_hpa_enabled}
use hermes_operator.Instance.{HermesInstanceReconciler, Done, operator_label_prefix}
use hermes_operator.Instance.Objects.{key, on_get, ignore_not_found, delete_if_exists}
use hermes_operator.Instance.Steps.{
  spec_mutate, annotated_mutate, service_mutate, network_policy_enabled, reconcile_network_policy,
  reconcile_service,
}
use hermes_operator.Instance.Optional.{toggle, reconcile_pdb, reconcile_hpa, reconcile_ingress}

module _ {V C W S I : Type 0} (r : HermesInstanceReconciler V C W S I)
    (stored : Key → W → Option (Object S)) (law : IsCluster W S r.cluster stored) where
  open r use {cluster, builders}

  none-IsDeleted : (o : Option (Object S)) → o ≡ none → IsDeleted o
  none-IsDeleted o e = subst IsDeleted (sym e) tt

  -- A deletion that the caller takes for done.
  ignore_not_found-IsDeleted :
      (k : Key) (d : Done) (w : W)
      → (is_ok d ≡ true → IsDeleted (stored k w))
      → ((e : Err) → d ≡ err e → is_not_found e ≡ true → stored k w ≡ none)
      → is_ok (ignore_not_found cluster d) ≡ true
      → IsDeleted (stored k w)
  ignore_not_found-IsDeleted k (ok u) w done missing e = done refl
  ignore_not_found-IsDeleted k (err x) w done missing e =
      none-IsDeleted (stored k w) (missing x refl (ground arith))

  missing-IsDeleted :
      (k : Key) (b : Bool) (x : Err) (w : W)
      → (b ≡ true → stored k w ≡ none)
      → is_ok (run {R = Done} (if b then finish (ok tt) else finish (err x)) w).0 ≡ true
      → IsDeleted (stored k (run {R = Done} (if b then finish (ok tt) else finish (err x)) w).1)
  missing-IsDeleted k true x w missing e = none-IsDeleted (stored k w) (missing refl)
  missing-IsDeleted k false x w missing e = absurd (ground arith)

  on_get-IsDeleted :
      (k : Key) (g : Result (Object S)) (w : W)
      → ((e : Err) → g ≡ err e → is_not_found e ≡ true → stored k w ≡ none)
      → is_ok (run (on_get cluster k g) w).0 ≡ true
      → IsDeleted (stored k (run (on_get cluster k g) w).1)
  on_get-IsDeleted k (ok o) w missing e =
      ignore_not_found-IsDeleted k (cluster.delete k w).0 (cluster.delete k w).1 (law.delete-ok k w)
        (law.delete-none k w) e
  on_get-IsDeleted k (err x) w missing e =
      missing-IsDeleted k (is_not_found x) x w (missing x refl) e

  delete_if_exists-IsDeleted :
      (k : Key) (w : W)
      → is_ok (delete_if_exists cluster k w).0 ≡ true
      → IsDeleted (stored k (delete_if_exists cluster k w).1)
  unfolding delete_if_exists
  delete_if_exists-IsDeleted k w e =
      on_get-IsDeleted k (cluster.get k w).0 (cluster.get k w).1 (law.get-none k w) e

  -- Whether an object is there as an enabled part asks: owned by the instance, with the desired spec
  -- as the server completes it, and its labels merged into those that it had; or, where the part is
  -- disabled, deleted.
  pub record Tracks (i : HermesInstance) (k : Key) (enabled : Bool) (desired : Object S) (w v : W)
      : Type 0 where
    pub absent : enabled ≡ false → IsDeleted (stored k v)
    pub present :
        enabled ≡ true
        → (o : Object S) × (stored k v ≡ some o)
          × (o.owner ≡ some i.meta.name)
          × (law.fits desired.spec o.spec ≡ true)
          × (o.labels
              ≡ merge_preserving_foreign
                  (found_or cluster.empty (stored k w)).labels
                  desired.labels
                  operator_label_prefix)

  -- A function of `CreateOrUpdate` that sets the spec, merges the labels and takes the object over.
  abbrev Dresses : HermesInstance → Object S → Mutate W S → Type 0
  Dresses i desired f =
      (o p : Object S) (v : W)
      → (f o v).0 ≡ ok p
      → (p.owner ≡ some i.meta.name)
        × (p.spec ≡ desired.spec)
        × (p.labels ≡ merge_preserving_foreign o.labels desired.labels operator_label_prefix)

  spec_mutate-Dresses :
      (i : HermesInstance) (desired : Object S) → Dresses i desired (spec_mutate r i desired)
  spec_mutate-Dresses i desired o p v e =
      let same = law.set_controller_reference-ok i _ p e in
      (ap (λ x. x.owner) same, ap (λ x. x.spec) same, ap (λ x. x.labels) same)

  annotated_mutate-Dresses :
      (i : HermesInstance) (desired : Object S) → Dresses i desired (annotated_mutate r i desired)
  annotated_mutate-Dresses i desired o p v e =
      let same = law.set_controller_reference-ok i _ p e in
      (ap (λ x. x.owner) same, ap (λ x. x.spec) same, ap (λ x. x.labels) same)

  toggle-Tracks :
      (i : HermesInstance) (k : Key) (enabled : Bool) (desired : Object S) (f : Mutate W S) (w : W)
      → Dresses i desired f
      → is_ok (toggle r enabled k f w).0 ≡ true
      → Tracks i k enabled desired w (toggle r enabled k f w).1
  unfolding toggle
  toggle-Tracks i k true desired f w dresses e =
      let (v, given, o, made, kept, same, fit) = law.create_or_update-ok k f w e in
      let (owned, desired_spec, labelled) = dresses _ given v made in
      record {
        absent = λ d. ground (arith, d);
        present = λ d. (
          o,
          kept,
          same.owner ∙ owned,
          subst (λ x. law.fits x o.spec ≡ true) desired_spec fit,
          same.labels ∙ labelled,
        );
      }
  toggle-Tracks i k false desired f w dresses e = record {
    absent = λ d. delete_if_exists-IsDeleted k w e;
    present = λ d. ground (arith, d);
  }

  -- The steps of the optional parts with one object.
  pub record PartsTrack (i : HermesInstance) (w : W) : Type 0 where
    pub network_policies :
        is_ok (reconcile_network_policy r i w).0 ≡ true
        → Tracks i
            (key network_policy i.meta.name i)
            (network_policy_enabled r i)
            (builders.network_policy i)
            w
            (reconcile_network_policy r i w).1
    pub pdbs :
        is_ok (reconcile_pdb r i w).0 ≡ true
        → Tracks i
            (key pdb i.meta.name i)
            (bool_value i.spec.availability.pod_disruption_budget.enabled)
            (builders.pdb i)
            w
            (reconcile_pdb r i w).1
    pub hpas :
        is_ok (reconcile_hpa r i w).0 ≡ true
        → Tracks i
            (key hpa i.meta.name i)
            (is_hpa_enabled i)
            (builders.hpa i)
            w
            (reconcile_hpa r i w).1
    pub ingresses :
        is_ok (reconcile_ingress r i w).0 ≡ true
        → Tracks i
            (key ingress i.meta.name i)
            (bool_value i.spec.networking.ingress.enabled)
            (builders.ingress i)
            w
            (reconcile_ingress r i w).1

  -- After a successful step for the network policy, the disruption budget, the autoscaler or the
  -- ingress of an instance: if the instance disables it, the object is not in the cluster, or it has
  -- finalizers and is marked for deletion; if the instance enables it, the object is there, owned by
  -- the instance, its spec is the desired one as the server completes it, and its labels are those of
  -- before merged with the desired ones.
  pub toggle-PartsTrack : (i : HermesInstance) (w : W) → PartsTrack i w
  unfolding reconcile_network_policy reconcile_pdb reconcile_hpa reconcile_ingress
  toggle-PartsTrack i w = record {
    network_policies =
        let desired = builders.network_policy i in
        toggle-Tracks i _ (network_policy_enabled r i) desired _ w (spec_mutate-Dresses i desired);
    pdbs =
        let desired = builders.pdb i in
        toggle-Tracks i _ (bool_value i.spec.availability.pod_disruption_budget.enabled) desired _ w
          (spec_mutate-Dresses i desired);
    hpas =
        let desired = builders.hpa i in
        toggle-Tracks i _ (is_hpa_enabled i) desired _ w (spec_mutate-Dresses i desired);
    ingresses =
        let desired = builders.ingress i in
        toggle-Tracks i _ (bool_value i.spec.networking.ingress.enabled) desired _ w
          (annotated_mutate-Dresses i desired);
  }

  address_kept : (a b : String) → a ≢ "" → (if is_empty a then b else a) ≡ a
  address_kept a b d = ground (arith, eq_iff a "", d)

  service_mutate_address :
      (i : HermesInstance) (desired o p : Object S) (v : W)
      → (service_mutate r i desired o v).0 ≡ ok p
      → o.cluster_ip ≢ ""
      → p.cluster_ip ≡ o.cluster_ip
  unfolding service_mutate
  service_mutate_address i desired o p v e d =
      ap (λ x. x.cluster_ip) (law.set_controller_reference-ok i _ p e)
      ∙ address_kept o.cluster_ip desired.cluster_ip d

  -- After a successful step the Service has the cluster address that it had before, if it had one.
  pub reconcile_service_address :
      (i : HermesInstance) (w : W) (old : Object S)
      → is_ok (reconcile_service r i w).0 ≡ true
      → stored (key service i.meta.name i) w ≡ some old
      → old.cluster_ip ≢ ""
      → (new : Object S) × (stored (key service i.meta.name i) (reconcile_service r i w).1
          ≡ some new)
        × (new.cluster_ip ≡ old.cluster_ip)
  unfolding reconcile_service
  reconcile_service_address i w old e was d =
      let (v, given, new, made, kept, same, fit) =
        law.create_or_update-ok (key service i.meta.name i)
          (service_mutate r i (builders.service i)) w e in
      let before = ap (λ x. (found_or cluster.empty x).cluster_ip) was in
      let full : (found_or cluster.empty (stored (key service i.meta.name i) w)).cluster_ip ≢ "" =
        λ z. d (sym before ∙ z) in
      let here =
        service_mutate_address i (builders.service i)
          (found_or cluster.empty (stored (key service i.meta.name i) w)) given v made full in
      (new, kept, same.cluster_ip (λ z. full (sym here ∙ z)) ∙ here ∙ before)
