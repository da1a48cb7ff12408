-- ===== src/Base/Value/Mapping.antt =====
-- `dict(v)` of a value, for dicts with text keys.
use ulpx.Base.{String, Option, none, some, List, [], ◌∷◌, ◌==◌, if◌then◌else◌}
use ulpx.Base.Dict.{Dict, insert}
use ulpx.Base.Value.{Value, str, arr, dict, nil, cons, items, end, entry, entries}

module _ {F : Type 0} where
  -- An item from which `dict` takes a key and a value.
  abbrev pair_of : Value F → Option (String × Value F)
  pair_of (arr (cons (str k) (cons v nil))) = some (k, v)
  pair_of (str (String.◌∷◌ c (String.◌∷◌ d String.[]))) =
      some (String.◌∷◌ c String.[], str (String.◌∷◌ d String.[]))
  pair_of (dict (entry k v (entry j w end))) = some (k, str j)
  pair_of _ = none

  abbrev with_pair : Option (String × Value F) → Option (Dict (Value F)) → Option (Dict (Value F))
  with_pair (some (k, v)) (some d) = some (insert k v d)
  with_pair _ _ = none

  unfoldable pub pairs_of : List (Value F) → Option (Dict (Value F)) → Option (Dict (Value F))
  unfolding insert
  pairs_of [] d = d
  pairs_of (v ∷ vs) d = pairs_of vs (with_pair (pair_of v) d)

  -- None where Python raises.
  unfoldable pub dict_of : Value F → Option (Dict (Value F))
  unfolding pairs_of
  dict_of (dict es) = some (entries es)
  dict_of (arr vs) = pairs_of (items vs) (some [])
  dict_of (str s) = if s == "" then some [] else none
  dict_of _ = none
