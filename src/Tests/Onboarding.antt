-- ===== src/Tests/Onboarding.antt =====
-- The pipeline on a source with one field, which the mapper accepts.
use ulpx.Base.{String, ◌≡◌, false, List, [], ◌∷◌, Result, ok, err, ◌⊎◌}
use ulpx.Base.Int.{ℤ}
use ulpx.Base.Floats.{one_float}
use ulpx.Base.Floats.Fixed.{fixed}
use ulpx.Base.Value.{Value, str}
use ulpx.Assist.{AssistError, not_json, Proposal}
use ulpx.Mapper.{FieldProfile}
use ulpx.Mapper.Index.{CanonicalKnowledgeBase}
use ulpx.Orchestrator.{profile_error, OnboardingProfile, run_pipeline}
use ulpx.Orchestrator.Approved.{IsEmptyRun, run_pipeline_empty}

abbrev alike : String → String → ℤ
alike a b = one_float fixed

abbrev port : FieldProfile ℤ
port = record {
  name = "src.port";
  inferred_type = "integer";
  sample_values = str "443" ∷ [];
  is_ip_candidate = false;
  is_timestamp_candidate = false;
  is_enum_candidate = false;
}

abbrev found : OnboardingProfile fixed
found = record { fields = ("src.port", port) ∷ []; format_text = "LogFormat.KEY_VALUE" }

abbrev profile : List String → Result String (OnboardingProfile fixed)
profile [] = err "ValueError"
profile (l ∷ lines) = ok found

abbrev propose : String → String → List (Value ℤ) → String → Result AssistError (Proposal fixed)
propose id format fields sample = err not_json

abbrev no_catalog : CanonicalKnowledgeBase
no_catalog = record { fields = []; alias_index = [] }

run_pipeline_empty_example :
    ((p : OnboardingProfile fixed) × (profile ("src.port=443" ∷ []) ≡ ok p)
      × IsEmptyRun fixed alike no_catalog profile propose "fw" ("src.port=443" ∷ []) p)
    ⊎ ((e : String) × (profile ("src.port=443" ∷ []) ≡ err e)
        × (run_pipeline fixed alike no_catalog profile propose "fw" ("src.port=443" ∷ [])
            ≡ err (profile_error e)))
run_pipeline_empty_example =
    run_pipeline_empty fixed alike no_catalog profile propose "fw" "src.port=443" []
