-- ===== src/Drift/Semantic/States.antt =====
-- The semantic drift state against the scores and the thresholds.
use ulpx.Base.{
  ℕ, suc, String, ◌≡◌, ◌↔◌, ◌⊎◌, inl, refl, subst, sym, ap, ◌∙◌, true, not, Option, some, List,
  arith, length, ok, bind_ok, ok-injective,
}
use ulpx.Base.Floats.{Floats, IsLawful, AtMost, zero_float, one_float}
use ulpx.Base.Value.{Value}
use ulpx.Base.Dict.{NodupKeys}
use ulpx.Spec.{ParserSpec, fields_of}
use ulpx.Shadow.{Event}
use ulpx.Drift.{stable, drifted, DriftThresholds, DriftDetail, DriftReport, is_stable}
use ulpx.Drift.Semantic.{SemanticDriftThresholds}
use ulpx.Drift.Semantic.Mappings.{check_critical_mapping_drift, check_critical_mapping_self}
use ulpx.Drift.Semantic.Enums.{
  action_enum, unseen, check_enum_behavior_drift, check_enum_behavior_self,
}
use ulpx.Drift.Semantic.Families.{check_event_family_drift, check_event_family_self}
use ulpx.Drift.Semantic.Blocks.{
  check_dps_regression, check_dps_regression_none, check_dps_regression_full, preserved_blocks,
  eval_blocked_preservation,
}
use ulpx.Drift.Semantic.Detect.{
  SemanticFindings, semantic_state, semantic_signals, semantic_report, semantic_findings,
  detect_semantic_drift,
}

module _ (fl : Floats) (repr : Value fl.F → String) where
  open fl use {F, lt}

  -- No score is above its threshold.
  pub record AreWithin (t : SemanticDriftThresholds F) (s : SemanticFindings F) : Type 0 where
    pub mappings : AtMost fl s.crit.0 t.critical_mapping_drift
    pub enums : AtMost fl s.enum.0 t.enum_drift_score
    pub families : AtMost fl s.fam.0 t.event_family_drift
    pub blocks : AtMost fl s.dps.0 t.dps_regression

  -- Lost blocks, moved critical mappings or changed enum values.
  abbrev pub IsSilentLoss : SemanticDriftThresholds F → SemanticFindings F → Type 0
  IsSilentLoss t s =
      (lt t.dps_regression s.dps.0 ≡ true)
      ⊎ ((lt t.critical_mapping_drift s.crit.0 ≡ true) ⊎ (lt t.enum_drift_score s.enum.0 ≡ true))

  semantic_stable_iff :
      (t : SemanticDriftThresholds F) (s : SemanticFindings F)
      → (semantic_state fl repr t s ≡ stable) ↔ AreWithin t s
  semantic_stable_iff t s = (
    λ h. record {
      mappings = ground (arith);
      enums = ground (arith);
      families = ground (arith);
      blocks = ground (arith);
    },
    λ w. ground (arith),
  )

  semantic_drifted_iff :
      (t : SemanticDriftThresholds F) (s : SemanticFindings F)
      → (semantic_state fl repr t s ≡ drifted) ↔ IsSilentLoss t s
  semantic_drifted_iff t s = (λ h. ground (arith), λ b. ground (arith))

  abbrev Outcome : SemanticDriftThresholds F → SemanticFindings F → DriftReport F → Type 0
  Outcome t s r =
      (r.signals ≡ semantic_signals fl repr s)
      × ((r.drift_state ≡ stable) ↔ AreWithin t s)
      × ((r.drift_state ≡ drifted) ↔ IsSilentLoss t s)
      × (r.remediation_recommended ≡ not (is_stable r.drift_state))

  detect_findings :
      (t : SemanticDriftThresholds F) (structural : DriftThresholds F)
      (baseline candidate : ParserSpec) (baseline_events candidate_events : List (Event F))
      (source_id parser_id parser_version : String) (run_id : Option String) {r : DriftReport F}
      → detect_semantic_drift fl repr t structural baseline candidate baseline_events
          candidate_events source_id parser_id parser_version run_id
        ≡ ok r
      → (s : SemanticFindings F) × (semantic_findings fl repr t baseline candidate baseline_events
            candidate_events
          ≡ ok s)
        × (semantic_report fl repr t structural
              (length candidate_events)
              source_id
              parser_id
              parser_version
              run_id
              s
            ≡ r)
  unfolding detect_semantic_drift
  detect_findings t structural b c bs cs source_id parser_id parser_version run_id h =
      let (s, e, k) = bind_ok (semantic_findings fl repr t b c bs cs) _ h in (s, e, ok-injective k)

  -- If a report is returned, the four checks returned scores that are its signals; it is stable
  -- exactly when no score is above its threshold, drifted exactly when the blocks, the critical
  -- mappings or the enum values are above theirs, and asks for a remedy unless it is stable.
  pub detect_semantic_drift_outcome :
      (t : SemanticDriftThresholds F) (structural : DriftThresholds F)
      (baseline candidate : ParserSpec) (baseline_events candidate_events : List (Event F))
      (source_id parser_id parser_version : String) (run_id : Option String) (r : DriftReport F)
      → detect_semantic_drift fl repr t structural baseline candidate baseline_events
          candidate_events source_id parser_id parser_version run_id
        ≡ ok r
      → (s : SemanticFindings F) × (semantic_findings fl repr t baseline candidate baseline_events
            candidate_events
          ≡ ok s)
        × Outcome t s r
  detect_semantic_drift_outcome t structural b c bs cs source_id parser_id parser_version run_id r
        h =
      let (s, e, q) =
        detect_findings t structural b c bs cs source_id parser_id parser_version run_id h in
      (s, e, subst (Outcome t s) q (refl, semantic_stable_iff t s, semantic_drifted_iff t s, refl))

module _ (fl : Floats) (laws : IsLawful fl) (repr : Value fl.F → String) where
  open fl use {F, lt}

  -- The checks that returned, one by one.
  findings_parts :
      (t : SemanticDriftThresholds F) (b c : ParserSpec) (bs cs : List (Event F))
      {s : SemanticFindings F}
      → semantic_findings fl repr t b c bs cs ≡ ok s
      → (s.crit ≡ check_critical_mapping_drift fl b c)
        × (check_enum_behavior_drift fl b c cs ≡ ok s.enum)
        × (check_event_family_drift fl repr t.event_family_drift bs cs ≡ ok s.fam)
        × (s.dps ≡ check_dps_regression fl repr bs cs)
  unfolding semantic_findings
  findings_parts t b c bs cs h =
      let (enum, e, k) = bind_ok (check_enum_behavior_drift fl b c cs) _ h in
      let (fam, e', k') =
        bind_ok (check_event_family_drift fl repr t.event_family_drift bs cs) _ k in
      let q = sym (ok-injective k') in
      (
        ap (λ (x : SemanticFindings F). x.crit) q,
        e ∙ ap ok (ap (λ (x : SemanticFindings F). x.enum) (sym q)),
        e' ∙ ap ok (ap (λ (x : SemanticFindings F). x.fam) (sym q)),
        ap (λ (x : SemanticFindings F). x.dps) q,
      )

  -- The share of unknown actions is the enum signal, and decides the state.
  abbrev pub SettledByShare :
      SemanticDriftThresholds F → ParserSpec → List (Event F) → DriftReport F → Type 0
  SettledByShare t spec evs r =
      (x : F × List (DriftDetail F)) × (unseen fl (action_enum (fields_of spec))
          (action_enum (fields_of spec)) evs
        ≡ ok x)
      × (r.signals.enum_drift_score ≡ some x.0)
      × ((r.drift_state ≡ drifted) ↔ (lt t.enum_drift_score x.0 ≡ true))
      × ((r.drift_state ≡ stable) ↔ AtMost fl x.0 t.enum_drift_score)

  -- The three scores that a self-comparison makes zero are not above their thresholds.
  abbrev pub Tolerant : SemanticDriftThresholds F → Type 0
  Tolerant t =
      AtMost fl (zero_float fl) t.critical_mapping_drift
      × AtMost fl (zero_float fl) t.event_family_drift
      × AtMost fl (zero_float fl) t.dps_regression

  -- The state of findings whose mapping, family and block scores are zero.
  zero_scores_state :
      (t : SemanticDriftThresholds F) (s : SemanticFindings F)
      → Tolerant t
      → s.crit.0 ≡ zero_float fl
      → s.fam.0 ≡ zero_float fl
      → s.dps.0 ≡ zero_float fl
      → ((semantic_state fl repr t s ≡ drifted) ↔ (lt t.enum_drift_score s.enum.0 ≡ true))
        × ((semantic_state fl repr t s ≡ stable) ↔ AtMost fl s.enum.0 t.enum_drift_score)
  zero_scores_state t s (tc, tf, td) c f d =
      let is_free : (a b : F) → a ≡ zero_float fl → AtMost fl (zero_float fl) b → AtMost fl a b =
        λ a b e h. rw e h in
      let within_c = is_free s.crit.0 t.critical_mapping_drift c tc in
      let within_f = is_free s.fam.0 t.event_family_drift f tf in
      let within_d = is_free s.dps.0 t.dps_regression d td in
      ((λ h. ground (arith), λ h. ground (arith)), (λ h. ground (arith), λ h. ground (arith)))

  -- If a report is returned for a spec against itself on the same events, the keys of the spec's
  -- action enum are distinct and the mapping, family and block thresholds are not negative, then those
  -- three signals are zero and the enum signal is the share of unknown actions, without an inversion;
  -- the report is drifted exactly when that share is above its threshold, and stable exactly when it
  -- is not.
  pub detect_semantic_drift_self :
      (t : SemanticDriftThresholds F) (structural : DriftThresholds F) (spec : ParserSpec)
      (evs : List (Event F)) (source_id parser_id parser_version : String) (run_id : Option String)
      (r : DriftReport F)
      → NodupKeys (action_enum (fields_of spec))
      → Tolerant t
      → detect_semantic_drift fl repr t structural spec spec evs evs source_id parser_id
          parser_version run_id
        ≡ ok r
      → (r.signals.critical_mapping_drift ≡ some (zero_float fl))
        × (r.signals.event_family_drift ≡ some (zero_float fl))
        × (r.signals.dps_regression ≡ some (zero_float fl))
        × SettledByShare t spec evs r
  detect_semantic_drift_self t structural spec evs source_id parser_id parser_version run_id r n
        tolerant h =
      let (s, e, q) =
        detect_findings fl repr t structural spec spec evs evs source_id parser_id parser_version
          run_id h in
      let (crit, enum, fam, dps) = findings_parts t spec spec evs evs e in
      let signals = ap (λ (x : DriftReport F). x.signals) (sym q) in
      let no_crit = ap (λ x. x.0) (crit ∙ check_critical_mapping_self fl laws spec) in
      let no_fam = check_event_family_self fl repr laws t.event_family_drift evs fam in
      let no_dps =
        ap (λ x. x.0) dps ∙ check_dps_regression_none fl laws repr evs evs (omega arith) in
      let (drifts, rests) = zero_scores_state t s tolerant no_crit no_fam no_dps in
      (
        ap (λ x. x.critical_mapping_drift) signals ∙ ap some no_crit,
        ap (λ x. x.event_family_drift) signals ∙ ap some no_fam,
        ap (λ x. x.dps_regression) signals ∙ ap some no_dps,
        (
          s.enum,
          sym (check_enum_behavior_self fl spec evs n) ∙ enum,
          ap (λ x. x.enum_drift_score) signals,
          subst (λ x. (x ≡ drifted) ↔ (lt t.enum_drift_score s.enum.0 ≡ true)) (state s q) drifts,
          subst (λ x. (x ≡ stable) ↔ AtMost fl s.enum.0 t.enum_drift_score) (state s q) rests,
        ),
      )
    where
      state :
          (s : SemanticFindings F)
          → semantic_report fl repr t structural
              (length evs)
              source_id
              parser_id
              parser_version
              run_id
              s
            ≡ r
          → semantic_state fl repr t s ≡ r.drift_state
      state s q = ap (λ (x : DriftReport F). x.drift_state) q

  -- If a report is returned, the baseline keeps all its blocks, of which there is one, the candidate
  -- keeps none and the tolerance is below 1, then the report is drifted.
  pub detect_semantic_drift_lost :
      (t : SemanticDriftThresholds F) (structural : DriftThresholds F)
      (baseline candidate : ParserSpec) (baseline_events candidate_events : List (Event F))
      (source_id parser_id parser_version : String) (run_id : Option String) (r : DriftReport F)
      (n : ℕ)
      → detect_semantic_drift fl repr t structural baseline candidate baseline_events
          candidate_events source_id parser_id parser_version run_id
        ≡ ok r
      → eval_blocked_preservation fl repr baseline_events ≡ (suc n, suc n)
      → preserved_blocks fl repr candidate_events ≡ 0
      → lt t.dps_regression (one_float fl) ≡ true
      → r.drift_state ≡ drifted
  detect_semantic_drift_lost t structural b c bs cs source_id parser_id parser_version run_id r n h
        kept lost tolerant =
      let (s, e, q) =
        detect_findings fl repr t structural b c bs cs source_id parser_id parser_version run_id
          h in
      let (_, _, _, dps) = findings_parts t b c bs cs e in
      let full = ap (λ x. x.0) dps ∙ check_dps_regression_full fl laws repr bs cs n kept lost in
      ap (λ (x : DriftReport F). x.drift_state) (sym q)
      ∙ (semantic_drifted_iff fl repr t s).1
          (inl (subst (λ x. lt t.dps_regression x ≡ true) (sym full) tolerant))
