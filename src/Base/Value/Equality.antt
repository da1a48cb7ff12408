-- ===== src/Base/Value/Equality.antt =====
-- Python's `==` on values, and that a value whose dicts have distinct keys equals itself.

use Prim.Native.String.{String}
use mathlib.Core.Path.{◌≡◌}
use mathlib.Core.Bool.{Bool, true, false, ◌&&◌}
use mathlib.Core.Option.{Option, none, some}
use text.Mathlib.Text.{◌==◌}
use ulpx.Base.Tests.{eqb}
use ulpx.Base.Lists.{length}
use ulpx.Base.Int.{ℤ, eq_ℤ}
use ulpx.Base.Dict.{lookup}
use ulpx.Base.Floats.{Floats}
use ulpx.Base.Value.{
  Value, null, bool, int, float, str, arr, dict, Items, nil, cons, Entries, end, entry, entries,
  int_of,
}

module _ (fl : Floats) where
  open fl use {F}

  -- An integer equals a boolean or a float of the same number.
  abbrev int_is : ℤ → Value F → Bool
  int_is a (bool b) = eq_ℤ a (int_of b)
  int_is a (int b) = eq_ℤ a b
  int_is a (float y) = fl.eq_int a y
  int_is a _ = false

  abbrev float_is : F → Value F → Bool
  float_is x (bool b) = fl.eq_int (int_of b) x
  float_is x (int b) = fl.eq_int b x
  float_is x (float y) = fl.eq x y
  float_is x _ = false

  abbrev str_is : String → Value F → Bool
  str_is s (str t) = s == t
  str_is s _ = false

  -- The test of the items, or of the entries, where the other value is of that kind.
  abbrev items_are : (Items F → Bool) → Value F → Bool
  items_are test (arr ys) = test ys
  items_are test _ = false

  abbrev entries_are : (Entries F → Bool) → Value F → Bool
  entries_are test (dict es) = test es
  entries_are test _ = false

  abbrev some_is : (Value F → Bool) → Option (Value F) → Bool
  some_is test none = false
  some_is test (some v) = test v

  abbrev null_is : Value F → Bool
  null_is null = true
  null_is _ = false

  abbrev cons_are : (Value F → Bool) → (Items F → Bool) → Items F → Bool
  cons_are head tail nil = false
  cons_are head tail (cons y ys) = head y && tail ys

  abbrev nil_are : Items F → Bool
  nil_are nil = true
  nil_are (cons _ _) = false

  unfoldable mutual
    unfolding lookup

    -- `a == b`
    pub same : Value F → Value F → Bool
    same null w = null_is w
    same (bool a) w = int_is (int_of a) w
    same (int a) w = int_is a w
    same (float x) w = float_is x w
    same (str s) w = str_is s w
    same (arr xs) w = items_are (same_items xs) w
    same (dict es) w =
        entries_are (λ fs. eqb (length (entries es)) (length (entries fs)) && same_entries es fs) w

    pub same_items : Items F → Items F → Bool
    same_items nil ys = nil_are ys
    same_items (cons x xs) ys = cons_are (same x) (same_items xs) ys

    -- Each entry on the left has an equal one on the right.
    pub same_entries : Entries F → Entries F → Bool
    same_entries end fs = true
    same_entries (entry k v es) fs = some_is (same v) (lookup k (entries fs)) && same_entries es fs

  -- No dict inside the value has a key twice, as no Python dict has.
  unfoldable mutual
    pub WellFormed : Value F → Type 0
    WellFormed null = Unit
    WellFormed (bool _) = Unit
    WellFormed (int _) = Unit
    WellFormed (float _) = Unit
    WellFormed (str _) = Unit
    WellFormed (arr xs) = WellFormedItems xs
    WellFormed (dict es) = WellFormedEntries es

    pub WellFormedItems : Items F → Type 0
    WellFormedItems nil = Unit
    WellFormedItems (cons x xs) = WellFormed x × WellFormedItems xs

    pub WellFormedEntries : Entries F → Type 0
    WellFormedEntries end = Unit
    WellFormedEntries (entry k v es) =
        (lookup k (entries es) ≡ none) × WellFormed v × WellFormedEntries es
