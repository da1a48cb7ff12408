-- ===== src/Shadow/Flatten.antt =====
-- `_flatten_event`: nested dicts become dotted keys; audit keys and unknown fields are left out.
pub mod Distinct
use text.Mathlib.Text.{starts_with}
use ulpx.Base.{String, Bool, ◌||◌, List, [], ◌∷◌, ◌==◌, if◌then◌else◌}
use ulpx.Base.Text.{◌<>◌}
use ulpx.Base.Dict.{Dict, insert, update}
use ulpx.Base.Value.{Value, null, bool, int, float, str, arr, dict, Entries, end, entry, from_dict}
use ulpx.Shadow.{Event}

abbrev is_skipped : String → Bool
is_skipped k = starts_with k "_" || k == "unknown_fields"

abbrev full_key : String → String → String
full_key prefix k = if prefix == "" then k else prefix <> ("." <> k)

module _ {F : Type 0} where
  unfoldable mutual
    pub flatten_entries : Entries F → String → Dict (Value F) → Dict (Value F)
    flatten_entries end prefix flat = flat
    flatten_entries (entry k v es) prefix flat =
        flatten_entries es prefix
          (if is_skipped k then flat else flatten_value v (full_key prefix k) flat)

    pub flatten_value : Value F → String → Dict (Value F) → Dict (Value F)
    flatten_value (dict es) k flat = update flat (flatten_entries es k [])
    flatten_value v k flat = insert k v flat

  unfoldable pub flatten_event : Event F → Dict (Value F)
  unfolding flatten_entries insert update
  flatten_event ev = flatten_entries (from_dict ev) "" []
