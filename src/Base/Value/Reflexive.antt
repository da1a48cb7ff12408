-- ===== src/Base/Value/Reflexive.antt =====
-- A value whose dicts have distinct keys equals itself.
use Prim.Native.String.{String}
use mathlib.Core.Path.{◌≡◌, refl, ◌∙◌}
use mathlib.Core.Bool.{true}
use mathlib.Core.Option.{none, some}
use native.Mathlib.Omega.{arith}
use text.Mathlib.TextEquality.{eq_iff}
use text.Mathlib.TextPositions.{eq_refl}
use ulpx.Base.Int.{eq_ℤ_refl}
use ulpx.Base.Dict.{lookup, lookup-cons}
use ulpx.Base.Floats.{Floats, IsLawful}
use ulpx.Base.Value.{
  Value, null, bool, int, float, str, arr, dict, Items, nil, cons, Entries, end, entry, entries,
}
use ulpx.Base.Value.Equality.{
  same, same_items, same_entries, WellFormed, WellFormedItems, WellFormedEntries,
}

module _ {F : Type 0} where
  -- Each entry of the first is what the second has under its key.
  abbrev Within : Entries F → Entries F → Type 0
  Within end fs = Unit
  Within (entry k v es) fs = (lookup k (entries fs) ≡ some v) × Within es fs

  Within-entry :
      (k : String) (v : Value F) (es fs : Entries F)
      → lookup k (entries es) ≡ none
      → Within es fs
      → Within es (entry k v fs)
  Within-entry k v end fs h w = tt
  Within-entry k v (entry j u es) fs h (p, w) = (
    ground (
      arith,
      lookup-cons j k v (entries fs),
      lookup-cons k j u (entries es),
      eq_iff k j,
      eq_iff j k,
    ),
    Within-entry k v es fs (ground (arith, lookup-cons k j u (entries es))) w,
  )

module _ (fl : Floats) where
  Within-self : (es : Entries fl.F) → WellFormedEntries fl es → Within es es
  unfolding WellFormed
  Within-self end w = tt
  Within-self (entry k v es) (fresh, _, w) =
      (lookup-cons k k v (entries es) ∙ rw eq_refl, Within-entry k v es es fresh (Within-self es w))

module _ (fl : Floats) (laws : IsLawful fl) where
  mutual
    unfolding same WellFormed

    same_refl : (v : Value fl.F) → WellFormed fl v → same fl v v ≡ true
    same_refl null w = refl
    same_refl (bool true) w = refl
    same_refl (bool _) w = refl
    same_refl (int n) w = eq_ℤ_refl n
    same_refl (float x) w = laws.eq_refl x
    same_refl (str s) w = eq_refl s
    same_refl (arr xs) w = same_items_refl xs w
    same_refl (dict es) w = ground (arith, same_entries-Within es es w (Within-self fl es w))

    same_items_refl : (xs : Items fl.F) → WellFormedItems fl xs → same_items fl xs xs ≡ true
    same_items_refl nil w = refl
    same_items_refl (cons x xs) (p, w) = ground (arith, same_refl x p, same_items_refl xs w)

    same_entries-Within :
        (es fs : Entries fl.F)
        → WellFormedEntries fl es
        → Within es fs
        → same_entries fl es fs ≡ true
    same_entries-Within end fs w h = refl
    same_entries-Within (entry k v es) fs (_, p, w) (q, h) =
        ground (arith, same_refl v p, same_entries-Within es fs w h)

  pub same_self : (v : Value fl.F) → WellFormed fl v → same fl v v ≡ true
  same_self v w = same_refl v w
