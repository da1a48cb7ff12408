-- ===== src/Base/Value.antt =====
-- The values of events and specs: what `json` gives, over the floats of the model.
pub mod Equality
pub mod Mapping
pub mod Reflexive
use Prim.Native.Nat.{ℕ}
use Prim.Native.String.{String}
use mathlib.Core.Bool.{Bool, true, false, not, ◌&&◌}
use mathlib.Core.Option.{Option, none, some}
use mathlib.Core.List.{List, [], ◌∷◌}
use text.Mathlib.Text.{◌==◌}
use ulpx.Base.Tests.{eqb, if◌then◌else◌}
use ulpx.Base.Lists.{length}
use ulpx.Base.Int.{ℤ, eq_ℤ}
use ulpx.Base.Dict.{Dict, lookup}
use ulpx.Base.Floats.{Floats, zero_float}

mutual
  pub data Value (F : Type 0) : Type 0 where
    null : Value F
    bool : Bool → Value F
    int : ℤ → Value F
    float : F → Value F
    str : String → Value F
    arr : Items F → Value F
    dict : Entries F → Value F

  pub data Items (F : Type 0) : Type 0 where
    nil : Items F
    cons : Value F → Items F → Items F

  pub data Entries (F : Type 0) : Type 0 where
    end : Entries F
    entry : String → Value F → Entries F → Entries F

abbrev pub int_of : Bool → ℤ
int_of true = ℤ.pos 1
int_of false = ℤ.pos 0

module _ {F : Type 0} where
  abbrev pub items : Items F → List (Value F)
  items nil = []
  items (cons v vs) = v ∷ items vs

  abbrev pub entries : Entries F → Dict (Value F)
  entries end = []
  entries (entry k v es) = (k, v) ∷ entries es

  abbrev pub from_dict : Dict (Value F) → Entries F
  from_dict [] = end
  from_dict ((k, v) ∷ d) = entry k v (from_dict d)

  abbrev pub or_null : Option (Value F) → Value F
  or_null none = null
  or_null (some v) = v

  -- `d.get(k)`, which is None for a missing key.
  unfoldable pub get : Dict (Value F) → String → Value F
  unfolding lookup
  get d k = or_null (lookup k d)

  abbrev pub is_null : Value F → Bool
  is_null null = true
  is_null _ = false

  -- The content of a dict, and the empty dict for any other value.
  abbrev pub dict_or_empty : Value F → Dict (Value F)
  dict_or_empty (dict es) = entries es
  dict_or_empty _ = []

  abbrev pub is_dict : Value F → Bool
  is_dict (dict es) = true
  is_dict _ = false

  -- `type(a) is type(b)`
  abbrev pub same_type : Value F → Value F → Bool
  same_type null null = true
  same_type (bool _) (bool _) = true
  same_type (int _) (int _) = true
  same_type (float _) (float _) = true
  same_type (str _) (str _) = true
  same_type (arr _) (arr _) = true
  same_type (dict _) (dict _) = true
  same_type _ _ = false

module _ (fl : Floats) where
  open fl use {F}

  -- `bool(v)`
  abbrev pub truthy : Value F → Bool
  truthy null = false
  truthy (bool b) = b
  truthy (int n) = not (eq_ℤ n (ℤ.pos 0))
  truthy (float x) = not (fl.eq x (zero_float fl))
  truthy (str s) = not (s == "")
  truthy (arr nil) = false
  truthy (arr (cons _ _)) = true
  truthy (dict end) = false
  truthy (dict (entry _ _ _)) = true

  -- `a or b`
  abbrev pub or : Value F → Value F → Value F
  or a b = if truthy a then a else b
