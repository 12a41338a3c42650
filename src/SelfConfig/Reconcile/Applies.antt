-- ===== src/SelfConfig/Reconcile/Applies.antt =====
-- What a request that is applied has written, and which fields it reports.
use hermes_operator.Common.{
  ℕ, String, Bool, true, false, Option, none, some, List, [], ◌∷◌, ◌++◌, map, concat, is_cons, ◌≡◌,
  refl, sym, inl, inr, bool_value, Bool-cases, if◌then◌else◌,
}
use hermes_operator.Common.Flow.{M, ◌>>=◌, ◌>>◌, go, run}
use hermes_operator.Kube.Result.{Result, ok, err, Err}
use hermes_operator.Kube.Library.{Library}
use hermes_operator.Api.Instance.{HermesInstance}
use hermes_operator.Api.SelfConfig.{HermesSelfConfig, SelfConfigProfileSnapshot}
use mathlib.Core.List.{append-nil, append_assoc}
use hermes_operator.Controller.{check}
use hermes_operator.SelfConfig.{has_patch}
use hermes_operator.SelfConfig.Patches.{
  ConfigMap, merge_config_map_patches, build_skills_patch, build_env_vars_patch,
  build_patch_config_payload, build_workspace_files_patch, SnapshotJob, build_snapshot_job,
  format_applied_field_skill, format_applied_field_env, format_applied_field_file,
}
use hermes_operator.SelfConfig.Turn.{
  SelfConfigClient, Turn, Write, create_job, skills_write, env_vars_write, config_map_write,
  config_map_patch, config_map_fields, apply_instance, force_ownership, tolerated, failed_with,
}
use hermes_operator.SelfConfig.Reconcile.{send, stage, snapshot_stage, apply_all}

abbrev pub present : Option Write → List Write
present none = []
present (some x) = x ∷ []

abbrev pub fields_if : Option Write → List String → List String
fields_if none fields = []
fields_if (some x) fields = fields

-- A snapshot needs Honcho on the parent.
abbrev pub HasHoncho : HermesInstance → Option SelfConfigProfileSnapshot → Type 0
HasHoncho parent none = Unit
HasHoncho parent (some p) = bool_value parent.spec.profile_store.honcho.enabled ≡ true

module _ {W : Type 0} (c : SelfConfigClient W) where
  -- The Job of a snapshot at a time.
  abbrev pub job_at : HermesInstance → SelfConfigProfileSnapshot → ℕ → SnapshotJob
  job_at parent p t = build_snapshot_job c.to_lower c.format_time parent p.profile_id p.payload t

  abbrev pub job_write : HermesInstance → Option SelfConfigProfileSnapshot → ℕ → List Write
  job_write parent none t = []
  job_write parent (some p) t = create_job (job_at parent p t) ∷ []

  abbrev pub job_fields : HermesInstance → Option SelfConfigProfileSnapshot → ℕ → List String
  job_fields parent none t = []
  job_fields parent (some p) t = concat ("job[name=" ∷ (job_at parent p t).name ∷ "]" ∷ []) ∷ []

module _ {W : Type 0} (c : SelfConfigClient W) (l : Library) where
  module _ (P : Result (List String) × Turn W → Type 0)
      (fails : (e : Err) (s : Turn W) → P (err e, s)) where
    sent_rule :
        (r : Result (Unit {0})) (name : String) (fields : List String)
        (k : List String → M (Turn W) (Result (List String)) (Result (List String))) (s : Turn W)
        → P (run (k fields) s)
        → P (run ((check r (failed_with name) >> go fields) >>= k) s)
    sent_rule (ok u) name fields k s p = p
    sent_rule (err e) name fields k s p = fails _ s

    stage_rule :
        (o : Option Write) (name : String) (fields : List String)
        (k : List String → M (Turn W) (Result (List String)) (Result (List String))) (s : Turn W)
        → ((s' : Turn W) → s'.writes ≡ s.writes ++ present o → P (run (k (fields_if o fields)) s'))
        → P (run (stage c l o name fields >>= k) s)
    unfolding stage send
    stage_rule none name fields k s p = p s (sym (append-nil s.writes))
    stage_rule (some x) name fields k s p =
        let (r, w) = c.perform x s.world in
        let s' = record s { world = w; writes = s.writes ++ x ∷ [] } in
        sent_rule (tolerated x r) name fields k s' (p s' refl)

    snapshot_rule :
        (parent : HermesInstance) (o : Option SelfConfigProfileSnapshot)
        (k : List String → M (Turn W) (Result (List String)) (Result (List String))) (s : Turn W)
        → ((s' : Turn W) (t : ℕ)
            → HasHoncho parent o
            → s'.writes ≡ s.writes ++ job_write c parent o t
            → P (run (k (job_fields c parent o t)) s'))
        → P (run (snapshot_stage c l parent o >>= k) s)
    unfolding snapshot_stage send
    snapshot_rule parent none k s p = p s 0 tt (sym (append-nil s.writes))
    snapshot_rule parent (some x) k s p =
        let (t, w) = c.now s.world in
        let j = create_job (job_at c parent x t) in
        let (r, w') = c.perform j w in
        let s' = record s { world = w'; writes = s.writes ++ j ∷ [] } in
        elim (Bool-cases (bool_value parent.spec.profile_store.honcho.enabled)) [
          | inl on ↦ rw on (
              sent_rule (tolerated j r) "snapshot Job create" (job_fields c parent (some x) t) k s'
                (p s' t on refl))
          | inr off ↦ rw off (fails _ s)
        ]

  -- The writes of a request, in their order, and the fields that it then owns.
  abbrev pub planned : HermesInstance → HermesSelfConfig → ℕ → List Write
  planned parent sc t =
      present (skills_write parent sc)
      ++ (present (env_vars_write parent sc)
          ++ (present (config_map_write (config_map_patch parent sc) sc)
              ++ job_write c parent sc.spec.add_profile_snapshot t))

  abbrev pub owned : HermesInstance → HermesSelfConfig → ℕ → List String
  owned parent sc t =
      map (λ s. format_applied_field_skill s.source) sc.spec.add_skills
      ++ (map (λ v. format_applied_field_env v.name) sc.spec.add_env_vars
          ++ (config_map_fields sc ++ job_fields c parent sc.spec.add_profile_snapshot t))

  -- An answer without an error, with everything that was asked for written.
  abbrev pub Wrote :
      HermesInstance → HermesSelfConfig → Turn W → Result (List String) × Turn W → Type 0
  Wrote parent sc s (ok fields, s') =
      (t : ℕ) × HasHoncho parent sc.spec.add_profile_snapshot
      × (s'.writes ≡ s.writes ++ planned parent sc t)
      × (fields ≡ owned parent sc t)
  Wrote parent sc s (err e, s') = Unit

  -- A stage that is left out owns no field.
  fields_list :
      {A : Type 0} (xs : List A) (x : Write) (f : A → String)
      → fields_if (if is_cons xs then some x else none) (map f xs) ≡ map f xs
  fields_list [] x f = refl
  fields_list (y ∷ xs) x f = refl

  fields_map :
      {A : Type 0} (has : Bool) (files : List A) (a b : ConfigMap) (sc : HermesSelfConfig)
      (key : String) (f : A → String)
      → let patch = if has then some a else none in
        let fields = (if has then key ∷ [] else []) ++ map f files in
        fields_if
          (config_map_write
            (if is_cons files then merge_config_map_patches patch (some b) else patch)
            sc)
          fields
        ≡ fields
  unfolding merge_config_map_patches
  fields_map true [] a b sc key f = refl
  fields_map true (x ∷ files) a b sc key f = refl
  fields_map false [] a b sc key f = refl
  fields_map false (x ∷ files) a b sc key f = refl

  append_append :
      {A : Type 0} (s a b d e : List A) → s ++ a ++ b ++ d ++ e ≡ s ++ (a ++ (b ++ (d ++ e)))
  append_append s a b d e = simp (append_assoc) refl

  pub apply_all-Wrote :
      (parent : HermesInstance) (sc : HermesSelfConfig) (s : Turn W)
      → Wrote parent sc s (apply_all c l parent sc s)
  unfolding apply_all
  apply_all-Wrote parent sc s =
      let P = Wrote parent sc s in
      let fails = λ (e : Err) (s' : Turn W). tt in
      stage_rule P fails (skills_write parent sc) "skills SSA" _ _ s λ s1 e1.
        stage_rule P fails (env_vars_write parent sc) "envVars SSA" _ _ s1 λ s2 e2.
          stage_rule P fails (config_map_write (config_map_patch parent sc) sc) "workspace CM SSA" _
            _ s2
            λ s3 e3.
              snapshot_rule P fails parent sc.spec.add_profile_snapshot _ s3 λ s4 t honcho e4. (
                t,
                honcho,
                rw (e4, e3, e2, e1)
                    (append_append s.writes (present (skills_write parent sc))
                      (present (env_vars_write parent sc))
                      (present (config_map_write (config_map_patch parent sc) sc))
                      (job_write c parent sc.spec.add_profile_snapshot t)),
                rw
                    (
                      fields_list sc.spec.add_skills
                          (apply_instance (build_skills_patch parent sc) (force_ownership sc))
                          (λ k. format_applied_field_skill k.source),
                      fields_list sc.spec.add_env_vars
                          (apply_instance (build_env_vars_patch parent sc) (force_ownership sc))
                          (λ v. format_applied_field_env v.name),
                      fields_map (has_patch sc.spec.patch_config) sc.spec.add_workspace_files
                          (build_patch_config_payload parent sc)
                          (build_workspace_files_patch parent sc) sc
                          "workspace-configmap.data[key=selfconfig.yaml]"
                          (λ f. format_applied_field_file f.path),
                    )
                    refl,
              )
