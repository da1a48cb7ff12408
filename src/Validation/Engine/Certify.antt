-- ===== src/Validation/Engine/Certify.antt =====
-- From a passed run to the certified passport.
use ulpx.Base.{
  ℕ, zero, suc, ◌≤◌, String, ◌≡◌, inl, inr, refl, sym, ap, subst, eq_iff, ◌∙◌, Bool, true, false,
  Option, none, some, ◌==◌, All, arith, Bool-cases, ok, bind_ok, ok-injective,
}
use ulpx.Base.Text.{strip}
use ulpx.Base.Dict.{Dict, lookup, contains}
use ulpx.Base.Floats.{Floats, IsLawful, AtMost, one_float, zero_float}
use ulpx.Base.Value.{Value, float}
use ulpx.Spec.{ParserSpec}
use ulpx.Passport.{
  ValidationEvidence, Passport, not_certified, certified_passport, is_score, has_exact_metrics,
  build,
}
use ulpx.Passport.Honest.{IsText, IsComplete, build_certified, build_outcome}
use ulpx.Validation.{ValidationReport, to_evidence}
use ulpx.Validation.Extract.{RecordParsers, extract_raw}
use ulpx.Validation.Transform.{Casts}
use ulpx.Validation.Measure.{
  share_or, is_extracted, is_preserved, is_kept_unknown, evaluate_detection_contracts,
}
use ulpx.Validation.Engine.{
  Golden, Measured, measure, measured_metrics, canonical_fields, extension_fields, report_on,
  validate_event,
}
use ulpx.Validation.Engine.Gate.{count_if-le, measure-by_counts}

module _ (fl : Floats) (laws : IsLawful fl) (repr : Value fl.F → String) where
  open fl use {F, ratio, lt}

  abbrev IsShare : F → Type 0
  IsShare x = AtMost fl (zero_float fl) x × AtMost fl x (one_float fl)

  zero-IsShare : IsShare (zero_float fl)
  zero-IsShare = (
    laws.lt_irrefl (zero_float fl),
    laws.ratio_le 0 1 1 1 (omega arith) (omega arith) (omega arith),
  )

  one-IsShare : IsShare (one_float fl)
  one-IsShare = (
    laws.ratio_le 0 1 1 1 (omega arith) (omega arith) (omega arith),
    laws.lt_irrefl (one_float fl),
  )

  round-IsShare : (x : F) → IsShare x → IsShare (fl.round x 4)
  round-IsShare x (low, high) = (
    subst (λ z. AtMost fl z (fl.round x 4)) (laws.round_zero 4)
        (laws.round_le (zero_float fl) x 4 low),
    subst (λ z. AtMost fl (fl.round x 4) z) (laws.round_one 4)
        (laws.round_le x (one_float fl) 4 high),
  )

  share_or-IsShare :
      (otherwise : F) (m n : ℕ)
      → m ≤ n
      → IsShare otherwise
      → IsShare (share_or fl repr otherwise m n)
  share_or-IsShare otherwise m zero h s = s
  share_or-IsShare otherwise m (suc n) h s = ground (
    arith,
    laws.ratio_le 0 1 m (suc n) (omega arith) (omega arith) (omega arith),
    laws.ratio_le m (suc n) 1 1 (omega arith) (omega arith) (omega arith),
  )

  dps-IsShare :
      (canonical expected : Dict (Value F))
      → IsShare (evaluate_detection_contracts fl repr canonical expected).0
  unfolding evaluate_detection_contracts
  dps-IsShare canonical expected = ground (arith, zero-IsShare, one-IsShare)

  measured-IsShare :
      (g : Golden F) (canonical unmapped : Dict (Value F))
      → IsShare (measure fl repr g canonical unmapped).dps_score
  unfolding measure
  measured-IsShare g canonical unmapped = dps-IsShare canonical g.expected_extracted

  -- All five measures lie between 0 and 1.
  abbrev AreShares : Measured fl repr → Type 0
  AreShares m =
      IsShare m.extraction_acc
      × IsShare m.semantic_acc
      × IsShare m.raw_retention
      × IsShare m.unknown_retention
      × IsShare m.dps_score

  measure-AreShares :
      (g : Golden F) (canonical unmapped : Dict (Value F))
      → AreShares (measure fl repr g canonical unmapped)
  measure-AreShares g canonical unmapped =
      let ext =
        share_or-IsShare (one_float fl) _ _
          (count_if-le (is_extracted fl repr canonical) g.expected_extracted) one-IsShare in
      subst AreShares (sym (measure-by_counts fl laws repr g canonical unmapped)) (
        ext,
        share_or-IsShare _ _ _
            (count_if-le (is_preserved fl repr canonical g.expected_extracted) g.critical_fields)
            ext,
        one-IsShare,
        share_or-IsShare (one_float fl) _ _
            (count_if-le (is_kept_unknown fl repr unmapped) g.expected_unknown) one-IsShare,
        measured-IsShare g canonical unmapped,
      )

module _ (fl : Floats) (laws : IsLawful fl) (repr : Value fl.F → String) (DateTime : Type 0)
    (aware : DateTime → Bool) (timestamp : DateTime → String) where
  open fl use {F}

  score_of :
      (x : F) → IsShare fl laws repr x → is_score fl DateTime aware timestamp (float x) ≡ true
  score_of x (low, high) = rw (low, high)

  metrics-scores :
      (m : Measured fl repr)
      → AreShares fl laws repr m
      → All (λ (_, v). is_score fl DateTime aware timestamp v ≡ true) (measured_metrics fl repr m)
  metrics-scores m (ext, sem, raw, unk, dps) = (
    scored m.extraction_acc ext,
    (
      scored m.semantic_acc sem,
      (scored m.raw_retention raw, (scored m.unknown_retention unk, (scored m.dps_score dps, tt))),
    ),
  )
    where
      scored :
          (x : F)
          → IsShare fl laws repr x
          → is_score fl DateTime aware timestamp (float (fl.round x 4)) ≡ true
      scored x h = score_of (fl.round x 4) (round-IsShare fl laws repr x h)

  metrics-exact :
      (m : Measured fl repr)
      → has_exact_metrics fl DateTime aware timestamp (measured_metrics fl repr m) ≡ true
  unfolding has_exact_metrics contains lookup
  metrics-exact m = refl

  not_blank : (s : String) → IsText s → (s == "") ≡ false
  unfolding strip
  not_blank s h = elim (Bool-cases (s == "")) [
    | inl empty ↦ absurd (clash (subst (λ x. (strip x == "") ≡ false) ((eq_iff s "").0 empty) h))
    | inr other ↦ other
  ]
    where
      clash : true ≡ false → ⊥
      clash e = cc

  abbrev passed_of : Option (ValidationEvidence fl DateTime aware timestamp) → Bool
  passed_of none = false
  passed_of (some e) = e.passed

  module _ (parsers : RecordParsers F) (casts : Casts F) where
    evidence-IsComplete :
        (spec : ParserSpec) (g : Golden F) (source_id run_id fresh : String) (now : DateTime)
        (extracted : Dict (Value F))
        → let r = report_on fl repr DateTime parsers casts spec g source_id now extracted in
          aware now ≡ true
          → IsText run_id
          → r.passed ≡ true
          → IsComplete fl DateTime aware timestamp
              (to_evidence fl DateTime aware timestamp r (some run_id) "STABLE" fresh)
    evidence-IsComplete spec g source_id run_id fresh now extracted zoned text passed =
        let canonical = canonical_fields fl repr DateTime parsers casts extracted spec in
        let unmapped = extension_fields fl repr DateTime parsers casts extracted spec in
        let m = measure fl repr g canonical unmapped in
        record {
          run = rw (not_blank run_id text) text;
          completed = zoned;
          measured = rw passed;
          observed = rw zoned;
          metrics = metrics-exact m;
          scores = metrics-scores m (measure-AreShares fl laws repr g canonical unmapped);
        }

    -- If a report is returned, the run's time has a time zone, the run id and the three names are more
    -- than white space and the run passed, then its evidence gets the certified passport.
    pub validate_event_certified :
        (raw : String) (spec : ParserSpec) (g : Golden F) (source_id run_id fresh : String)
        (now : DateTime) (r : ValidationReport F DateTime)
        → let e = to_evidence fl DateTime aware timestamp r (some run_id) "STABLE" fresh in
          validate_event fl repr DateTime parsers casts raw spec g source_id now ≡ ok r
          → aware now ≡ true
          → IsText run_id
          → IsText r.source_id
          → IsText r.parser_id
          → IsText r.parser_version
          → r.passed ≡ true
          → build fl DateTime aware timestamp r.source_id r.parser_id r.parser_version (some e)
            ≡ ok (
                certified_passport fl DateTime aware timestamp r.source_id r.parser_id
                  r.parser_version e)
    unfolding validate_event
    validate_event_certified raw spec g source_id run_id fresh now r h zoned text s i v passed =
        let (d, _, q) = bind_ok (extract_raw parsers spec raw) _ h in
        let made = ok-injective q in
        build_certified fl DateTime aware timestamp r.source_id r.parser_id r.parser_version _ s i v
          passed
          (subst
            (λ (x : ValidationReport F DateTime).
              IsComplete fl DateTime aware timestamp
                (to_evidence fl DateTime aware timestamp x (some run_id) "STABLE" fresh))
            made
            (evidence-IsComplete spec g source_id run_id fresh now d zoned text
              (ap (λ (x : ValidationReport F DateTime). x.passed) made ∙ passed)))

    -- If a report is returned that did not pass and a passport is built from its evidence, the passport
    -- is not certified.
    pub validate_event_uncertified :
        (raw : String) (spec : ParserSpec) (g : Golden F) (source_id : String)
        (run_id : Option String) (drift_state fresh : String) (now : DateTime)
        (r : ValidationReport F DateTime) (p : Passport fl DateTime aware timestamp)
        → validate_event fl repr DateTime parsers casts raw spec g source_id now ≡ ok r
        → build fl DateTime aware timestamp r.source_id r.parser_id r.parser_version
            (some (to_evidence fl DateTime aware timestamp r run_id drift_state fresh))
          ≡ ok p
        → r.passed ≡ false
        → p.certification_status ≡ not_certified
    validate_event_uncertified raw spec g source_id run_id drift_state fresh now r p _ h failed =
        elim (build_outcome fl DateTime aware timestamp r.source_id r.parser_id r.parser_version _ p
          h) [
            | inl (status, _) ↦ status
            | inr (e, same, passed, _, _) ↦ absurd (clash (ap passed_of same ∙ passed) failed)
          ]
      where
        clash : {b : Bool} → b ≡ true → b ≡ false → ⊥
        clash p q = cc
