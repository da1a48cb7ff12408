-- ===== src/Healing/Safety.antt =====
-- A repair changes the registry only by a promotion that every gate and the mode allow.
use ulpx.Base.{
  ℕ, String, ◌≡◌, ◌≢◌, refl, ◌⊎◌, inl, inr, Bool, true, false, ◌||◌, Option, some, List, [], ◌∷◌,
  arith, eq_refl, is_empty, is_some, any, or_default, Result, ok, err, ◌∙◌,
}
use ulpx.Base.Floats.{Floats, IsLawful, zero_float, one_float}
use ulpx.Base.Dict.{Dict}
use ulpx.Base.Value.{Value}
use ulpx.Spec.{ParserSpec, fields_of, version_or, no_info}
use ulpx.Compiler.{CompiledParserSpec}
use ulpx.Deploy.{SpecDeploymentEngine, deployed, deploy_spec, get_active_spec}
use ulpx.Deploy.Chain.{active-deployed}
use ulpx.Shadow.Runner.{LogFormat, ProfilerError, record_error, Readings}
use ulpx.Shadow.Runner.Outcomes.{RaisedOn}
use ulpx.Shadow.Runner.Isolation.{execute_dual-no_bus}
use ulpx.Promotion.{
  PromotionMode, automatic_conditional, PromotionDecision, promoted, rejected,
  escalated_for_approval, GateResults, evaluate,
}
use ulpx.Promotion.Refusals.{PassesGates, evaluate_iff}
use ulpx.Healing.{
  SelfHealingReport, runner_error, validate_spec_schema, has_mapping, maps_to, major_version,
  run_empirical_validation, ShadowGate, shadow_gate, empirical_gate, no_shadow, gate_of,
  compiled_of, apply_decision, settle, results_of, repair_report, handle_repair, policy_engine,
  operator_escalation, policy_refusal_engine,
}

-- What a spec must have for its promotion.
pub record IsPromotable (candidate : ParserSpec) : Type 0 where
  pub named : is_some (or_default candidate.parser no_info).id ≡ true
  pub versioned : is_some (or_default candidate.parser no_info).version ≡ true
  pub has_fields : fields_of candidate ≢ []
  pub maps_action : has_mapping "event.action" (fields_of candidate) ≡ true
  pub maps_endpoint :
      any (λ e. maps_to "src.ip" e.1.map_to || maps_to "dst.ip" e.1.map_to) (fields_of candidate)
      ≡ true

module _ (fl : Floats) (laws : IsLawful fl) where
  open fl use {F}

  zero_lt_one : fl.lt (zero_float fl) (one_float fl) ≡ true
  zero_lt_one = laws.ratio_lt_one 0 1 (omega arith) (omega arith)

  schema_parts :
      (candidate : ParserSpec)
      → (validate_spec_schema candidate).0 ≡ true
      → (is_some (or_default candidate.parser no_info).id ≡ true)
        × (is_some (or_default candidate.parser no_info).version ≡ true)
  unfolding validate_spec_schema
  schema_parts candidate h = ground arith

  empirical_parts :
      (candidate : ParserSpec) (no_samples : Bool)
      → (run_empirical_validation fl candidate no_samples).passed ≡ true
      → (no_samples ≡ false)
        × (is_empty (fields_of candidate) ≡ false)
        × (has_mapping "event.action" (fields_of candidate) ≡ true)
        × (any
              (λ e. maps_to "src.ip" e.1.map_to || maps_to "dst.ip" e.1.map_to)
              (fields_of candidate)
            ≡ true)
  unfolding run_empirical_validation
  empirical_parts candidate no_samples h = ground (arith, zero_lt_one)

is_empty-ne {ℓ} : {A : Type ℓ} (xs : List A) → is_empty xs ≡ false → xs ≢ []
is_empty-ne [] h = λ _. cc
is_empty-ne (x ∷ xs) h = λ e. cc

module _ (fl : Floats) (laws : IsLawful fl)
    (parse_record : String → Option LogFormat → Result ProfilerError (Option (Dict (Value fl.F))))
    (repr : Value fl.F → String) (dumps : Bool → ParserSpec → String)
    (sha256 : String → String) where
  open fl use {F}

  -- The shadow gate gives its results, or the profiler raises on a sample: a repair hands no bus to
  -- the runner.
  shadow_gate-cases :
      (schema_passed : Bool) (source_id : String) (active candidate : ParserSpec)
      (samples : List (String × Readings F))
      → ((s : ShadowGate fl) × (shadow_gate fl parse_record repr dumps sha256 schema_passed
              source_id active candidate samples
            ≡ ok s))
        ⊎ ((x : ProfilerError) × (shadow_gate fl parse_record repr dumps sha256 schema_passed
                source_id active candidate samples
              ≡ err (runner_error (record_error x)))
            × RaisedOn fl parse_record samples x)
  unfolding shadow_gate
  shadow_gate-cases true source_id active candidate [] = inl (no_shadow fl, refl)
  shadow_gate-cases true source_id active candidate (x ∷ samples) =
      elim (execute_dual-no_bus fl parse_record repr (x ∷ samples) active candidate source_id
        true) [
          | inl (r, h) ↦ inl (gate_of fl r, rw h refl)
          | inr (e, h, on) ↦ inr (e, rw h refl, on)
        ]
  shadow_gate-cases false source_id active candidate samples = inl (no_shadow fl, refl)

  abbrev gates : ParserSpec → List (String × Readings F) → ShadowGate fl → GateResults F
  gates = results_of fl parse_record repr dumps sha256

  IsPromotable-at :
      (candidate : ParserSpec) (samples : List (String × Readings F)) (schema_passed : Bool)
      → (validate_spec_schema candidate).0 ≡ schema_passed
      → schema_passed ≡ true
      → (empirical_gate fl parse_record repr dumps sha256 schema_passed candidate samples).passed
        ≡ true
      → IsPromotable candidate × (samples ≢ [])
  IsPromotable-at candidate samples true e p v =
      let (named, versioned) = schema_parts fl laws candidate e in
      let (sampled, filled, action, endpoint) =
        empirical_parts fl laws candidate (is_empty samples) v in
      (
        record {
          named = named;
          versioned = versioned;
          has_fields = is_empty-ne (fields_of candidate) filled;
          maps_action = action;
          maps_endpoint = endpoint;
        },
        is_empty-ne samples sampled,
      )
  IsPromotable-at candidate samples false e p v = absurd (cc)

  promotable :
      (candidate : ParserSpec) (samples : List (String × Readings F)) (s : ShadowGate fl)
      → PassesGates fl (gates candidate samples s)
      → IsPromotable candidate × (samples ≢ [])
  promotable candidate samples s p =
      IsPromotable-at candidate samples (validate_spec_schema candidate).0 refl p.schema
        p.validation

  -- Whether the repair left the registry as it was, or made the candidate active for its source.
  abbrev Settled :
      SpecDeploymentEngine
      → PromotionMode
      → Option PromotionMode
      → String
      → ParserSpec
      → List (String × Readings F)
      → ℕ
      → SelfHealingReport F
      → SpecDeploymentEngine
      → Type 0
  Settled e default_mode mode source_id candidate samples major report e' =
      ((report.decision ≢ promoted) × (e' ≡ e))
      ⊎ ((report.decision ≡ promoted)
          × (or_default mode default_mode ≡ automatic_conditional)
          × PassesGates fl report.gates
          × IsPromotable candidate
          × (samples ≢ [])
          × (get_active_spec e' source_id
              ≡ some (compiled_of fl parse_record repr dumps sha256 source_id candidate major)))

  module _ (e : SpecDeploymentEngine) (default_mode : PromotionMode) (source_id : String)
      (active candidate : ParserSpec) (samples : List (String × Readings F))
      (mode : Option PromotionMode) (major : ℕ)
      (v : major_version (version_or "1.1.0" candidate) ≡ ok major) where
    abbrev compiled : CompiledParserSpec
    compiled = compiled_of fl parse_record repr dumps sha256 source_id candidate major

    abbrev choice : ShadowGate fl → PromotionDecision
    choice s =
        (evaluate fl default_mode (gates candidate samples s)
          (some (or_default mode default_mode))).0

    settle_outcome :
        (s : ShadowGate fl) (d : PromotionDecision)
        → choice s ≡ d
        → (report : SelfHealingReport F) × (e' : SpecDeploymentEngine) × (settle fl parse_record
              repr dumps sha256 e default_mode source_id active candidate mode
              (gates candidate samples s)
            ≡ ok (report, e'))
          × Settled e default_mode mode source_id candidate samples major report e'
    unfolding settle apply_decision get_active_spec deploy_spec
    settle_outcome s promoted h =
        let (p, auto) =
          ((evaluate_iff fl default_mode (gates candidate samples s)
            (some (or_default mode default_mode))).0
          ).0
            h in
        let (ready, sampled) = promotable candidate samples s p in
        (
          repair_report fl parse_record repr dumps sha256 default_mode source_id active candidate
              mode (gates candidate samples s) policy_engine,
          deployed e compiled,
          rw (h, v),
          inr (h, auto, p, ready, sampled, active-deployed e compiled source_id ∙ rw eq_refl),
        )
    settle_outcome s escalated_for_approval h = (
      repair_report fl parse_record repr dumps sha256 default_mode source_id active candidate mode
          (gates candidate samples s) operator_escalation,
      e,
      rw h,
      inl (λ q. cc, refl),
    )
    settle_outcome s rejected h = (
      repair_report fl parse_record repr dumps sha256 default_mode source_id active candidate mode
          (gates candidate samples s) policy_refusal_engine,
      e,
      rw h,
      inl (λ q. cc, refl),
    )

  -- If the candidate's major version can be read, a repair raises only what the source profiler
  -- raises on one of the samples. Otherwise it returns a report, and either its decision is no
  -- promotion and the registry is unchanged, or the mode in force is the automatic one, the reported
  -- gates all pass, the candidate has an id, a version, a mapping to the action and one to an
  -- endpoint, there were samples, and the candidate's compiled spec is active for the source.
  pub repair_outcome :
      (e : SpecDeploymentEngine) (default_mode : PromotionMode) (source_id : String)
      (active candidate : ParserSpec) (samples : List (String × Readings F))
      (mode : Option PromotionMode) (major : ℕ)
      → major_version (version_or "1.1.0" candidate) ≡ ok major
      → ((report : SelfHealingReport F) × (e' : SpecDeploymentEngine) × (handle_repair fl
              parse_record repr dumps sha256 e default_mode source_id active candidate samples mode
            ≡ ok (report, e'))
          × Settled e default_mode mode source_id candidate samples major report e')
        ⊎ ((x : ProfilerError) × (handle_repair fl parse_record repr dumps sha256 e default_mode
                source_id active candidate samples mode
              ≡ err (runner_error (record_error x)))
            × RaisedOn fl parse_record samples x)
  unfolding handle_repair
  repair_outcome e default_mode source_id active candidate samples mode major v =
      elim (shadow_gate-cases (validate_spec_schema candidate).0 source_id active candidate
        samples) [
          | inl (s, gate) ↦
              let (report, e', settled, outcome) =
                settle_outcome e default_mode source_id active candidate samples mode major v s _
                  refl in
              inl (report, e', rw gate settled, outcome)
          | inr (x, raised, on) ↦ inr (x, rw raised refl, on)
        ]
