-- ===== src/Passport/Honest.antt =====
-- When a passport is certified, and what it shows if it is not.
use ulpx.Base.{
  String, ◌≡◌, refl, sym, ap, ◌↔◌, ◌⊎◌, inl, inr, Bool, true, false, not, Option, none, some, [],
  ◌∷◌, ◌==◌, All, arith, Bool-cases, Result, ok, ◌>>=◌, err-ok, ok-injective, Result-cases,
}
use ulpx.Base.Text.{strip}
use ulpx.Base.Dict.{Dict}
use ulpx.Base.Floats.{Floats}
use ulpx.Base.Value.{Value}
use ulpx.Passport.{
  PassportError, naive_completed_at, naive_drift_observed_at, unmeasured_drift, wrong_metrics,
  not_certified, required_text, refuse, ValidationEvidence, Passport, is_score, check_metrics,
  has_exact_metrics, is_measured, is_naive, validate_evidence, no_scores, unmeasured,
  certified_passport, assess, build,
}

-- A text that is more than white space.
abbrev pub IsText : String → Type 0
IsText s = (strip s == "") ≡ false

required_text_iff : (name s : String) → (required_text name s ≡ ok tt) ↔ IsText s
unfolding required_text
required_text_iff name s = (λ h. ground (arith), λ h. rw h)

required-then {ℓ} :
    {A : Type ℓ} (name s : String) (k : Unit {0} → Result PassportError A) {a : A}
    → required_text name s >>= k ≡ ok a
    → IsText s × (k tt ≡ ok a)
unfolding required_text
required-then name s k h = elim (Bool-cases (strip s == "")) [
  | inl blank ↦ absurd (err-ok (rw blank at h))
  | inr text ↦ (text, rw text at h)
]

module _ (fl : Floats) (DateTime : Type 0) (aware : DateTime → Bool)
    (timestamp : DateTime → String) where
  open fl use {F}

  abbrev Evidence : Type 0
  Evidence = ValidationEvidence fl DateTime aware timestamp

  -- What the evidence of a certified passport has.
  pub record IsComplete (e : Evidence) : Type 0 where
    pub run : IsText e.run_id
    pub completed : aware e.completed_at ≡ true
    pub measured : is_measured fl DateTime aware timestamp e.drift_state e.drift_observed_at ≡ true
    pub observed : is_naive fl DateTime aware timestamp e.drift_observed_at ≡ false
    pub metrics : has_exact_metrics fl DateTime aware timestamp e.metrics ≡ true
    pub scores : All (λ (_, v). is_score fl DateTime aware timestamp v ≡ true) e.metrics

  check_metrics_iff :
      (metrics : Dict (Value F))
      → (check_metrics fl DateTime aware timestamp metrics ≡ ok tt)
        ↔ All (λ (_, v). is_score fl DateTime aware timestamp v ≡ true) metrics
  unfolding check_metrics
  check_metrics_iff [] = (λ _. tt, λ _. refl)
  check_metrics_iff ((name, v) ∷ metrics) =
      let rest = check_metrics_iff metrics in
      (
        λ h. elim (Bool-cases (is_score fl DateTime aware timestamp v)) [
          | inl good ↦ (good, rest.0 (rw good at h))
          | inr bad ↦ absurd (err-ok (rw bad at h))
        ],
        λ (good, all_good). rw good (rest.1 all_good),
      )

  refuse-then {ℓ} :
      {A : Type ℓ} (b : Bool) (e : PassportError) (k : Unit {0} → Result PassportError A) {a : A}
      → refuse b e >>= k ≡ ok a
      → (b ≡ false) × (k tt ≡ ok a)
  unfolding refuse
  refuse-then true e k h = absurd (err-ok h)
  refuse-then false e k h = (refl, h)

  validate_evidence-IsComplete :
      (e : Evidence) → validate_evidence fl DateTime aware timestamp e ≡ ok tt → IsComplete e
  unfolding validate_evidence
  validate_evidence-IsComplete e h =
      let (run, h1) = required-then "validation run_id" e.run_id _ h in
      let (completed, h2) = refuse-then (not (aware e.completed_at)) naive_completed_at _ h1 in
      let (measured, h3) =
        refuse-then
          (not (is_measured fl DateTime aware timestamp e.drift_state e.drift_observed_at))
          unmeasured_drift _ h2 in
      let (observed, h4) =
        refuse-then (is_naive fl DateTime aware timestamp e.drift_observed_at)
          naive_drift_observed_at _ h3 in
      let (metrics, h5) =
        refuse-then (not (has_exact_metrics fl DateTime aware timestamp e.metrics)) wrong_metrics _
          h4 in
      record {
        run = run;
        completed = ground (arith, completed);
        measured = ground (arith, measured);
        observed = observed;
        metrics = ground (arith, metrics);
        scores = (check_metrics_iff e.metrics).0 h5;
      }

  IsComplete-validate_evidence :
      (e : Evidence) → IsComplete e → validate_evidence fl DateTime aware timestamp e ≡ ok tt
  unfolding validate_evidence refuse
  IsComplete-validate_evidence e c =
      rw
        (
          (required_text_iff "validation run_id" e.run_id).1 c.run,
          c.completed,
          c.measured,
          c.observed,
          c.metrics,
        )
        ((check_metrics_iff e.metrics).1 c.scores)

  assess_certified :
      (s i v : String) (e : Evidence) (p : Passport fl DateTime aware timestamp)
      → assess fl DateTime aware timestamp s i v (some e) ≡ ok p
      → e.passed ≡ true
      → (p ≡ certified_passport fl DateTime aware timestamp s i v e) × IsComplete e
  unfolding assess
  assess_certified s i v e p h q =
      elim (Result-cases (validate_evidence fl DateTime aware timestamp e)) [
        | inl (_, good) ↦
            (ok-injective (sym (rw (q, good) at h)), validate_evidence-IsComplete e good)
        | inr (x, bad) ↦ absurd (err-ok (rw (q, bad) at h))
      ]

  unmeasured_scores :
      (s i v : String) (ev : Option Evidence) (p : Passport fl DateTime aware timestamp)
      → unmeasured fl DateTime aware timestamp s i v ev ≡ ok p
      → (p.certification_status ≡ not_certified)
        × (p.scores ≡ no_scores fl DateTime aware timestamp)
  unfolding unmeasured
  unmeasured_scores s i v none p h =
      let q = ok-injective h in
      (
        ap (λ (x : Passport fl DateTime aware timestamp). x.certification_status) (sym q),
        ap (λ (x : Passport fl DateTime aware timestamp). x.scores) (sym q),
      )
  unmeasured_scores s i v (some e) p h =
      let (_, k) = required-then "validation run_id" e.run_id _ h in
      let q = ok-injective k in
      (
        ap (λ (x : Passport fl DateTime aware timestamp). x.certification_status) (sym q),
        ap (λ (x : Passport fl DateTime aware timestamp). x.scores) (sym q),
      )

  -- The evidence behind a passport, or no certificate and no score at all.
  abbrev pub Outcome :
      String → String → String → Option Evidence → Passport fl DateTime aware timestamp → Type 0
  Outcome s i v evidence p =
      ((p.certification_status ≡ not_certified)
        × (p.scores ≡ no_scores fl DateTime aware timestamp))
      ⊎ ((e : Evidence) × (evidence ≡ some e)
          × (e.passed ≡ true)
          × IsComplete e
          × (p ≡ certified_passport fl DateTime aware timestamp s i v e))

  assess_outcome :
      (s i v : String) (evidence : Option Evidence) (p : Passport fl DateTime aware timestamp)
      → assess fl DateTime aware timestamp s i v evidence ≡ ok p
      → Outcome s i v evidence p
  unfolding assess
  assess_outcome s i v none p h = inl (unmeasured_scores s i v none p h)
  assess_outcome s i v (some e) p h = elim (Bool-cases e.passed) [
    | inl q ↦
        let (same, complete) = assess_certified s i v e p h q in inr (e, refl, q, complete, same)
    | inr n ↦ inl (unmeasured_scores s i v (some e) p (rw n at h))
  ]

  -- If a passport is built, either it is not certified and shows no score, or there is evidence of a
  -- passed run with a run id, time-zone-aware times, a measured drift state and exactly the five
  -- metrics, each a number from 0 to 1, and the passport shows that evidence's values.
  pub build_outcome :
      (source_id parser_id parser_version : String) (evidence : Option Evidence)
      (p : Passport fl DateTime aware timestamp)
      → build fl DateTime aware timestamp source_id parser_id parser_version evidence ≡ ok p
      → Outcome source_id parser_id parser_version evidence p
  unfolding build
  build_outcome s i v evidence p h =
      let (_, h1) = required-then "source_id" s _ h in
      let (_, h2) = required-then "parser_id" i _ h1 in
      let (_, h3) = required-then "parser_version" v _ h2 in assess_outcome s i v evidence p h3

  -- For three texts that are more than white space and complete evidence of a passed run, the
  -- certified passport of that evidence is built.
  pub build_certified :
      (source_id parser_id parser_version : String) (e : Evidence)
      → IsText source_id
      → IsText parser_id
      → IsText parser_version
      → e.passed ≡ true
      → IsComplete e
      → build fl DateTime aware timestamp source_id parser_id parser_version (some e)
        ≡ ok (certified_passport fl DateTime aware timestamp source_id parser_id parser_version e)
  unfolding build assess
  build_certified s i v e hs hi hv q c = rw (
    (required_text_iff "source_id" s).1 hs,
    (required_text_iff "parser_id" i).1 hi,
    (required_text_iff "parser_version" v).1 hv,
    q,
    IsComplete-validate_evidence e c,
  )
