-- ===== src/Shadow/Flatten/Distinct.antt =====
-- A flattened event has each key once, and its values are well formed if the event's are.
use ulpx.Base.{String, [], ◌∷◌, All, ◌==◌, if_intro}
use ulpx.Base.Floats.{Floats}
use ulpx.Base.Dict.{Dict, insert, update, NodupKeys, insert-NodupKeys, update-NodupKeys}
use ulpx.Base.Value.{Value, null, dict, Entries, end, entry, from_dict}
use ulpx.Base.Value.Equality.{WellFormed, WellFormedEntries}
use ulpx.Shadow.{Event}
use ulpx.Shadow.Flatten.{flatten_entries, flatten_value, flatten_event, is_skipped, full_key}

mutual
  unfolding flatten_entries

  flatten_entries-NodupKeys :
      {F : Type 0} (es : Entries F) (prefix : String) (flat : Dict (Value F))
      → NodupKeys flat
      → NodupKeys (flatten_entries es prefix flat)
  flatten_entries-NodupKeys end prefix flat u = u
  flatten_entries-NodupKeys (entry k v es) prefix flat u = flatten_entries-NodupKeys es prefix _ (
      if_intro NodupKeys (is_skipped k) _ _ (λ _. u)
        (λ _. flatten_value-NodupKeys v (full_key prefix k) flat u))

  flatten_value-NodupKeys :
      {F : Type 0} (v : Value F) (k : String) (flat : Dict (Value F))
      → NodupKeys flat
      → NodupKeys (flatten_value v k flat)
  flatten_value-NodupKeys (dict es) k flat u = update-NodupKeys flat (flatten_entries es k []) u
  flatten_value-NodupKeys null k flat u = insert-NodupKeys k null flat u
  flatten_value-NodupKeys v k flat u = insert-NodupKeys k v flat u

pub flatten_event-NodupKeys : {F : Type 0} (ev : Event F) → NodupKeys (flatten_event ev)
unfolding flatten_event
flatten_event-NodupKeys ev = flatten_entries-NodupKeys (from_dict ev) "" [] tt

module _ (fl : Floats) where
  abbrev pub AllWellFormed : Dict (Value fl.F) → Type 0
  AllWellFormed = All (λ e. WellFormed fl e.1)

  insert-AllWellFormed :
      (k : String) (v : Value fl.F) (d : Dict (Value fl.F))
      → WellFormed fl v
      → AllWellFormed d
      → AllWellFormed (insert k v d)
  unfolding insert
  insert-AllWellFormed k v [] w h = (w, tt)
  insert-AllWellFormed k v ((j, u) ∷ d) w (p, h) =
      if_intro AllWellFormed (j == k) _ _ (λ _. (w, h)) (λ _. (p, insert-AllWellFormed k v d w h))

  update-AllWellFormed :
      (d e : Dict (Value fl.F)) → AllWellFormed d → AllWellFormed e → AllWellFormed (update d e)
  unfolding update
  update-AllWellFormed d [] h g = h
  update-AllWellFormed d ((k, v) ∷ e) h (p, g) =
      update-AllWellFormed (insert k v d) e (insert-AllWellFormed k v d p h) g

  mutual
    unfolding flatten_entries WellFormed

    flatten_entries-wf :
        (es : Entries fl.F) (prefix : String) (flat : Dict (Value fl.F))
        → WellFormedEntries fl es
        → AllWellFormed flat
        → AllWellFormed (flatten_entries es prefix flat)
    flatten_entries-wf end prefix flat w h = h
    flatten_entries-wf (entry k v es) prefix flat (_, p, w) h = flatten_entries-wf es prefix _ w (
        if_intro AllWellFormed (is_skipped k) _ _ (λ _. h)
          (λ _. flatten_value-wf v (full_key prefix k) flat p h))

    flatten_value-wf :
        (v : Value fl.F) (k : String) (flat : Dict (Value fl.F))
        → WellFormed fl v
        → AllWellFormed flat
        → AllWellFormed (flatten_value v k flat)
    flatten_value-wf (dict es) k flat w h =
        update-AllWellFormed flat (flatten_entries es k []) h (flatten_entries-wf es k [] w tt)
    flatten_value-wf null k flat w h = insert-AllWellFormed k null flat w h
    flatten_value-wf v k flat w h = insert-AllWellFormed k v flat w h

  -- An event whose values are well formed.
  abbrev pub WellFormedEvent : Event fl.F → Type 0
  WellFormedEvent ev = WellFormedEntries fl (from_dict ev)

  pub flatten_event-wf : (ev : Event fl.F) → WellFormedEvent ev → AllWellFormed (flatten_event ev)
  unfolding flatten_event
  flatten_event-wf ev w = flatten_entries-wf (from_dict ev) "" [] w tt
