-- ===== src/Mapper/Score.antt =====
-- ml/semantic_mapper/mapper.py: the score of one canonical field for a raw field.
pub mod Bands
use ulpx.Base.{
  String, Bool, true, false, not, ◌||◌, ◌&&◌, Option, none, some, List, [], ◌∷◌, ◌++◌, ◌==◌, any,
  if◌then◌else◌,
}
use ulpx.Base.Text.{lower, strip, ◌<>◌}
use text.Mathlib.Text.{is_lt}
use Prim.Native.String.{compare}
use ulpx.Base.Sort.{sorted}
use ulpx.Base.Floats.{Floats, zero_float, one_float, ge, max, min}
use ulpx.Mapper.{
  ReviewStatus, auto_accepted, human_review, abstain, family_value, CanonicalFieldDefinition,
  FieldProfile, Evidence, exact_canonical_path_match, exact_alias_match, lexical_similarity,
  hard_type_conflict, datatype_mismatch, datatype_compatible, is_ip_candidate_bonus,
  is_timestamp_candidate_bonus, is_enum_candidate_bonus, event_family_context, MappingCandidate,
}
use ulpx.Mapper.Names.{normalize_name, leaf, compute_lexical_similarity}
use ulpx.Mapper.Types.{mem, evaluate_type_compatibility}

-- The path that an unmapped field keeps.
abbrev pub extension_path : String → String
extension_path raw_field = "extensions.source." <> raw_field

abbrev rich_types : List String
rich_types = "ipv4" ∷ "ipv6" ∷ "timestamp" ∷ "email" ∷ "url" ∷ []

abbrev enum_paths : List String
enum_paths = "event.action" ∷ "event.outcome" ∷ "network.protocol" ∷ []

abbrev pub is_abstain : ReviewStatus → Bool
is_abstain auto_accepted = false
is_abstain human_review = false
is_abstain abstain = true

module _ (fl : Floats) where
  open fl use {F, ratio, round, lt, add, sub, mul}

  abbrev pub Scored : Type 0
  Scored = F × List (Evidence F)

  -- `max(xs)`, or 0.0 for no item.
  greatest_from : F → List F → F
  greatest_from x [] = x
  greatest_from x (y ∷ ys) = greatest_from (max fl x y) ys

  abbrev greatest : List F → F
  greatest [] = zero_float fl
  greatest (x ∷ xs) = greatest_from x xs

  abbrev weighted : F → F
  weighted best =
      if ge fl best (ratio 75 100)
      then mul best (ratio 88 100)
      else if ge fl best (ratio 50 100)
      then mul best (ratio 60 100)
      else mul best (ratio 40 100)

  -- Step 2: the datatype.
  abbrev pub type_score : Bool × Bool → String → List String → Scored → Scored
  type_score (compatible, true) raw_type expected (base, evidence) = (
    min fl (sub base (ratio 35 100)) (ratio 65 100),
    evidence ++ hard_type_conflict (sorted (λ a b. is_lt (compare a b)) expected) raw_type ∷ [],
  )
  type_score (true, false) raw_type expected (base, evidence) = (
    if mem raw_type rich_types then min fl (one_float fl) (add base (ratio 2 100)) else base,
    evidence ++ datatype_compatible raw_type ∷ [],
  )
  type_score (false, false) raw_type expected (base, evidence) =
      (sub base (ratio 15 100), evidence ++ datatype_mismatch expected raw_type ∷ [])

  -- Steps 3 and 4: a bonus of so many hundredths, up to 1, under a condition.
  abbrev pub bonus : Bool → F → Evidence F → Scored → Scored
  bonus true amount e (base, evidence) =
      (min fl (one_float fl) (add base amount), evidence ++ e ∷ [])
  bonus false amount e scored = scored

  abbrev pub profile_bonuses : FieldProfile F → CanonicalFieldDefinition → Scored → Scored
  profile_bonuses p d scored =
      bonus (p.is_enum_candidate && mem d.path enum_paths) (ratio 3 100) is_enum_candidate_bonus (
        bonus (p.is_timestamp_candidate && mem "timestamp" d.expected_types) (ratio 3 100)
          is_timestamp_candidate_bonus
          (bonus (p.is_ip_candidate && (mem "ipv4" d.expected_types || mem "ip" d.expected_types))
            (ratio 3 100) is_ip_candidate_bonus scored))

  abbrev pub family_bonus : Option String → CanonicalFieldDefinition → Scored → Scored
  family_bonus none d scored = scored
  family_bonus (some family) d scored =
      bonus (not (family == "") && any (λ f. family_value f == family) d.event_families)
        (ratio 2 100) (event_family_context family) scored

  -- Step 5.
  abbrev pub clamp : F → F
  clamp x = max fl (zero_float fl) (min fl (one_float fl) (round x 4))

  abbrev pub auto_accept_threshold : F
  auto_accept_threshold = ratio 95 100

  abbrev pub human_review_threshold : F
  human_review_threshold = ratio 80 100

  abbrev pub status_of : Bool → F → ReviewStatus
  status_of true score = if lt score human_review_threshold then abstain else human_review
  status_of false score =
      if ge fl score auto_accept_threshold
      then auto_accepted
      else if ge fl score human_review_threshold
      then human_review
      else abstain

  abbrev pub candidate_of : String → CanonicalFieldDefinition → Bool → Scored → MappingCandidate F
  candidate_of raw_field d conflict (base, evidence) =
      let score = clamp base in
      let status = status_of conflict score in
      record {
        raw_field = raw_field;
        canonical_path = d.path;
        mapping_score = score;
        evidence = evidence;
        review_status = status;
        is_critical = d.is_critical;
        hard_type_conflict = conflict;
        suggested_transformation = d.suggested_transform;
        preserve_in_extensions = is_abstain status;
        destination_path = if is_abstain status then extension_path raw_field else d.path;
      }

module _ (fl : Floats) (sequence_ratio : String → String → fl.F) where
  open fl use {F, ratio}

  alias_similarities : String → List String → List F
  alias_similarities raw [] = []
  alias_similarities raw (a ∷ aliases) =
      compute_lexical_similarity fl sequence_ratio raw a ∷ alias_similarities raw aliases

  -- Step 1: names.
  unfoldable pub name_score : String → CanonicalFieldDefinition → Scored fl
  unfolding greatest_from alias_similarities normalize_name leaf lower
  name_score raw_clean d =
      let is_exact_path = raw_clean == lower d.path in
      let norm_raw = normalize_name raw_clean in
      let is_exact_alias =
        mem raw_clean d.aliases
        || any (λ a. norm_raw == normalize_name a) d.aliases
        || (not is_exact_path && norm_raw == normalize_name d.path) in
      let base = weighted fl (
        max fl (compute_lexical_similarity fl sequence_ratio raw_clean (leaf d.path))
          (greatest fl (alias_similarities raw_clean d.aliases))) in
      if is_exact_path
      then (one_float fl, exact_canonical_path_match ∷ [])
      else if is_exact_alias
      then (ratio 98 100, exact_alias_match ∷ [])
      else (base, lexical_similarity base ∷ [])

  unfoldable pub score_candidate :
      String → FieldProfile F → CanonicalFieldDefinition → Option String → MappingCandidate F
  unfolding name_score lower strip
  score_candidate raw_field p d family =
      let types = evaluate_type_compatibility p.inferred_type d.expected_types (some p) in
      candidate_of fl raw_field d types.1 (
        family_bonus fl family d (
          profile_bonuses fl p d (
            type_score fl types p.inferred_type d.expected_types
              (name_score (lower (strip raw_field)) d))))
