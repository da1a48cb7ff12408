-- ===== src/Tests/Certifying.antt =====
-- A passport from complete evidence; a datetime is its UTC text with a time zone.
use ulpx.Base.{String, ◌≡◌, refl, Bool, true, some, [], ◌∷◌, ok}
use ulpx.Base.Text.{strip}
use ulpx.Base.Floats.{one_float}
use ulpx.Base.Floats.Fixed.{fixed}
use ulpx.Base.Value.{float}
use ulpx.Passport.{ValidationEvidence, Passport, certified_passport, has_exact_metrics, build}
use ulpx.Passport.Honest.{IsText, IsComplete, Outcome, build_outcome, build_certified}

abbrev aware : String → Bool
aware at = true

abbrev timestamp : String → String
timestamp at = at

abbrev evidence : ValidationEvidence fixed String aware timestamp
evidence = record {
  run_id = "run-1";
  completed_at = "2026-01-01T00:00:00Z";
  passed = true;
  metrics =
      ("extraction_accuracy", float (one_float fixed))
      ∷ ("semantic_accuracy", float (one_float fixed))
      ∷ ("raw_retention", float (one_float fixed))
      ∷ ("unknown_field_retention", float (one_float fixed))
      ∷ ("detection_preservation", float (one_float fixed))
      ∷ [];
  drift_state = some "STABLE";
  drift_observed_at = some "2026-01-01T00:00:00Z";
}

abbrev passport : Passport fixed String aware timestamp
passport = certified_passport fixed String aware timestamp "fw" "fw.csv" "1.0.0" evidence

evidence-IsComplete : IsComplete fixed String aware timestamp evidence
unfolding has_exact_metrics strip
evidence-IsComplete = record {
  run = refl;
  completed = refl;
  measured = refl;
  observed = refl;
  metrics = refl;
  scores = (refl, (refl, (refl, (refl, (refl, tt)))));
}

fw-IsText : IsText "fw"
unfolding strip
fw-IsText = refl

parser-IsText : IsText "fw.csv"
unfolding strip
parser-IsText = refl

version-IsText : IsText "1.0.0"
unfolding strip
version-IsText = refl

passport_built :
    build fixed String aware timestamp "fw" "fw.csv" "1.0.0" (some evidence) ≡ ok passport
passport_built =
    build_certified fixed String aware timestamp "fw" "fw.csv" "1.0.0" evidence fw-IsText
      parser-IsText version-IsText refl evidence-IsComplete

build_outcome_example :
    Outcome fixed String aware timestamp "fw" "fw.csv" "1.0.0" (some evidence) passport
build_outcome_example =
    build_outcome fixed String aware timestamp "fw" "fw.csv" "1.0.0" (some evidence) passport
      passport_built
