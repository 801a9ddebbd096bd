-- ===== src/Tui/Screen/Steps.antt =====
-- The screen over time: maps are announced, entries come in, and tables are selected.
use mathlib.Core.Path.{subst}
use native.Mathlib.Nat.{zero-add}
use native.Mathlib.Decide.{dec_lt}
use bumblebee.Common.{
  ℕ, ◌+◌, ◌-◌, ◌≤◌, ◌<◌, ◌≡◌, refl, sym, ◌∙◌, inl, inr, String, Option, none, some, List, [], ◌∷◌,
  ◌++◌, length, length-append, arith, ◌==◌, if◌then◌else◌, Option-cases, Bool-cases,
}
use bumblebee.Loader.Types.{
  MapType, hash, ring_buf, unspecified, array, perf_event_array, other_map, Labels, KvPair,
  MapEntry,
}
use bumblebee.Common.Dict.{lookup, insert, insert-absent}
use bumblebee.Tui.Table.{
  MapValue, Tui, map_value, with_entries, store, hash_rows, render_ring_buf, store_hash,
  render_hash, render, watch_entry,
}
use bumblebee.Tui.Screen.{
  sort_strings, make_map_value, draw, find_by_index, select_table, next_table, prev_table,
}
use bumblebee.Tui.Screen.Places.{
  IndexedFrom, name_at, IsScreen, pending, pending-append, Focus, settled, undrawn, ahead,
  overtaken, IndexedFrom-append, name_at-append, find_by_index-IndexedFrom, name_at-some,
  places-insert,
}

-- What happens to the screen. The loader announces each map once.
pub data Step (hash_of : Labels → ℕ) (s t : Tui) : Type 0 where
  announce :
      (name : String) (keys : List String) (typ : MapType)
      → lookup name s.map_of_maps ≡ none
      → make_map_value name keys typ s ≡ some t
      → Step hash_of s t
  entry : (r : MapEntry) → t ≡ watch_entry hash_of r s → Step hash_of s t
  ctrl_n : t ≡ next_table s → Step hash_of s t
  ctrl_p : t ≡ prev_table s → Step hash_of s t
  drawn : t ≡ draw s → Step hash_of s t

pub data Reach (hash_of : Labels → ℕ) (s : Tui) : Tui → Type 0 where
  here : Reach hash_of s s
  then_step : (t u : Tui) → Reach hash_of s t → Step hash_of t u → Reach hash_of s u

pub select_table-at :
    (i : ℕ) (s : Tui) (name : String)
    → IndexedFrom 0 s.map_of_maps
    → name_at s.map_of_maps i ≡ some name
    → select_table i s ≡ record s { current_index = i; focus = some name; readers = s.readers + 1 }
unfolding select_table
select_table-at i s name places at =
    let found : find_by_index i s.map_of_maps ≡ some name =
      rw zero-add at (find_by_index-IndexedFrom 0 i s.map_of_maps places) ∙ at in
    ground (arith, found)

-- A table in range that is selected has the focus, at least for now.
selected-Focus :
    (i : ℕ) (s : Tui) (name : String)
    → name_at s.map_of_maps i ≡ some name
    → Focus s
    → Focus (record s { current_index = i; focus = some name; readers = s.readers + 1 })
selected-Focus i s name at (settled none_left _) = settled none_left (sym at)
selected-Focus i s name at (undrawn first queued is _) =
    ahead first queued is (sym at) (omega arith)
selected-Focus i s name at (ahead first queued is _ _) =
    ahead first queued is (sym at) (omega arith)
selected-Focus i s name at (overtaken none_left _ _) = settled none_left (sym at)

select_table-IsScreen :
    (i : ℕ) (s : Tui) → IsScreen s → i < length s.map_of_maps → IsScreen (select_table i s)
select_table-IsScreen i s h small =
    let (name, at) = name_at-some s.map_of_maps i small in
    rw (select_table-at i s name h.places at) (record {
      places = h.places;
      focused = selected-Focus i s name at h.focused;
      in_range = inl small;
    })

name_at-none : (m : List (String × MapValue)) → length m ≡ 0 → name_at m 0 ≡ none
name_at-none [] e = refl
name_at-none (x ∷ m) e = absurd (omega arith)

name_at-only :
    (m : List (String × MapValue)) (name : String) (mv : MapValue)
    → length m ≡ 0
    → name_at (m ++ ((name, mv) ∷ [])) 0 ≡ some name
name_at-only [] name mv e = refl
name_at-only (x ∷ m) name mv e = absurd (omega arith)

-- The places that the two keys select.
abbrev pub next_place : ℕ → ℕ → ℕ
next_place l c = if c + 1 == l then 0 else c + 1

abbrev pub prev_place : ℕ → ℕ → ℕ
prev_place l c = if c == 0 then l - 1 else c - 1

module _ (s : Tui) where
  pub next_table-few : length s.map_of_maps ≤ 1 → next_table s ≡ s
  unfolding next_table
  next_table-few few = ground arith

  pub prev_table-few : length s.map_of_maps ≤ 1 → prev_table s ≡ s
  unfolding prev_table
  prev_table-few few = ground arith

  pub next_table-many :
      1 < length s.map_of_maps
      → next_table s ≡ select_table (next_place (length s.map_of_maps) s.current_index) s
  unfolding next_table
  next_table-many many = ground arith

  pub prev_table-many :
      1 < length s.map_of_maps
      → prev_table s ≡ select_table (prev_place (length s.map_of_maps) s.current_index) s
  unfolding prev_table
  prev_table-many many = ground arith

  module _ (h : IsScreen s) where
    pub current_small : 1 < length s.map_of_maps → s.current_index < length s.map_of_maps
    current_small many = elim h.in_range [ inl small ↦ small | inr first ↦ omega arith ]

    pub next_table-IsScreen : IsScreen (next_table s)
    next_table-IsScreen = elim (dec_lt 1 (length s.map_of_maps)) [
      | no few ↦ rw (next_table-few (omega arith)) h
      | yes many ↦
          rw (next_table-many many)
            (select_table-IsScreen _ s h (ground (arith, current_small many)))
    ]

    pub prev_table-IsScreen : IsScreen (prev_table s)
    prev_table-IsScreen = elim (dec_lt 1 (length s.map_of_maps)) [
      | no few ↦ rw (prev_table-few (omega arith)) h
      | yes many ↦
          rw (prev_table-many many)
            (select_table-IsScreen _ s h (ground (arith, current_small many)))
    ]

    update : String → Option String
    update name = if length s.map_of_maps == 0 then some name else none

    appended : String → MapValue → Tui
    appended name new = record s {
      map_of_maps = s.map_of_maps ++ ((name, new) ∷ []);
      queue = s.queue ++ (update name ∷ []);
    }

    first_appended :
        (name : String) (new : MapValue)
        → length s.map_of_maps ≡ 0
        → s.readers ≡ 0
        → Focus s
        → Focus (appended name new)
    unfolding pending update appended
    first_appended name new no_map free (settled none_left on) =
        undrawn name (ground (arith, pending-append s.queue (some name), none_left, no_map))
          (name_at-only s.map_of_maps name new no_map) current_first
      where
        current_first : s.current_index ≡ 0
        current_first = elim h.in_range [ inl small ↦ omega arith | inr first ↦ first ]
    first_appended name new no_map free (undrawn first queued is _) =
        absurd (cc (name_at-none s.map_of_maps no_map, is))
    first_appended name new no_map free (ahead first queued is on locked) = absurd (omega arith)
    first_appended name new no_map free (overtaken none_left on locked) = absurd (omega arith)

    later_appended :
        (name : String) (new : MapValue)
        → 0 < length s.map_of_maps
        → s.readers ≡ 0
        → Focus s
        → Focus (appended name new)
    unfolding pending update appended
    later_appended name new some_map free (settled none_left on) =
        settled (ground (arith, pending-append s.queue none, none_left, some_map))
          (on ∙ sym (name_at-append s.map_of_maps (name, new) s.current_index small))
      where
        small : s.current_index < length s.map_of_maps
        small = elim h.in_range [ inl under ↦ under | inr first ↦ omega arith ]
    later_appended name new some_map free (undrawn first queued is zeroth) =
        undrawn first (ground (arith, pending-append s.queue none, queued, some_map))
          (name_at-append s.map_of_maps (name, new) 0 some_map ∙ is) zeroth
    later_appended name new some_map free (ahead first queued is on locked) = absurd (omega arith)
    later_appended name new some_map free (overtaken none_left on locked) = absurd (omega arith)

    appended-IsScreen :
        (name : String) (new : MapValue)
        → new.index ≡ length s.map_of_maps
        → s.readers ≡ 0
        → IsScreen (appended name new)
    unfolding appended
    appended-IsScreen name new e free = record {
      places = IndexedFrom-append 0 s.map_of_maps name new h.places (omega arith);
      focused = elim (dec_lt 0 (length s.map_of_maps)) [
        | yes some_map ↦ later_appended name new some_map free h.focused
        | no no_map ↦ first_appended name new (omega arith) free h.focused
      ];
      in_range = elim h.in_range [
        | inl small ↦ inl (omega (arith, length-append s.map_of_maps ((name, new) ∷ [])))
        | inr first ↦ inr first
      ];
    }

    pub make_map_value-IsScreen :
        (name : String) (keys : List String) (typ : MapType) (t : Tui)
        → lookup name s.map_of_maps ≡ none
        → make_map_value name keys typ s ≡ some t
        → IsScreen t
    unfolding make_map_value appended update
    make_map_value-IsScreen name keys typ t fresh made = elim (Bool-cases (s.readers == 0)) [
      | inr locked ↦ absurd (ground (arith, locked))
      | inl free ↦
          let new : MapValue = record {
            entries = [];
            table = λ r c. none;
            index = length s.map_of_maps;
            typ = typ;
            keys = sort_strings keys;
          } in
          let maps : insert name new s.map_of_maps ≡ s.map_of_maps ++ ((name, new) ∷ []) =
            insert-absent name new s.map_of_maps fresh in
          let is : appended name new ≡ t = rw (← maps) (ground (arith, free, made)) in
          rw (← is) (appended-IsScreen name new refl (ground (arith, free)))
    ]

    stored-Focus :
        (m : List (String × MapValue))
        → ((i : ℕ) → name_at m i ≡ name_at s.map_of_maps i)
        → Focus s
        → Focus (record s { map_of_maps = m })
    stored-Focus m names (settled none_left on) =
        settled none_left (on ∙ sym (names s.current_index))
    stored-Focus m names (undrawn first queued is zeroth) =
        undrawn first queued (names 0 ∙ is) zeroth
    stored-Focus m names (ahead first queued is on locked) =
        ahead first queued (names 0 ∙ is) (on ∙ sym (names s.current_index)) locked
    stored-Focus m names (overtaken none_left on locked) =
        overtaken none_left (on ∙ sym (names 0)) locked

    -- An entry changes no place.
    stored-IsScreen :
        (name : String) (mv : MapValue) (rows : List (List String)) (entries : List KvPair)
        → lookup name s.map_of_maps ≡ some mv
        → IsScreen (store name (with_entries rows entries mv) s)
    stored-IsScreen name mv rows entries found =
        let (places, lengths, names) =
          places-insert 0 name mv (with_entries rows entries mv) s.map_of_maps found refl
            h.places in
        record {
          places = places;
          focused =
              stored-Focus (insert name (with_entries rows entries mv) s.map_of_maps) names
                h.focused;
          in_range = elim h.in_range [
            | inl small ↦ inl (omega (arith, lengths))
            | inr first ↦ inr first
          ];
        }

    store_hash-IsScreen :
        (hash_of : Labels → ℕ) (name : String) (mv : MapValue) (o : Option (List KvPair))
        → lookup name s.map_of_maps ≡ some mv
        → IsScreen (store_hash hash_of name mv o s)
    unfolding store_hash
    store_hash-IsScreen hash_of name mv none found = h
    store_hash-IsScreen hash_of name mv (some entries) found =
        stored-IsScreen name mv (hash_rows mv.keys entries) entries found

    render-IsScreen :
        (hash_of : Labels → ℕ) (r : MapEntry)
        → lookup r.name s.map_of_maps ≡ some (map_value r.name s)
        → (t : MapType) → IsScreen (render hash_of t r s)
    unfolding render render_hash render_ring_buf
    render-IsScreen hash_of r found hash =
        store_hash-IsScreen hash_of r.name (map_value r.name s) _ found
    render-IsScreen hash_of r found ring_buf = stored-IsScreen r.name (map_value r.name s) _ _ found
    render-IsScreen hash_of r found unspecified = h
    render-IsScreen hash_of r found array = h
    render-IsScreen hash_of r found perf_event_array = h
    render-IsScreen hash_of r found other_map = h

    rendered-unspecified :
        (hash_of : Labels → ℕ) (r : MapEntry) → IsScreen (render hash_of unspecified r s)
    unfolding render
    rendered-unspecified hash_of r = h

    pub watch_entry-IsScreen :
        (hash_of : Labels → ℕ) (r : MapEntry) → IsScreen (watch_entry hash_of r s)
    unfolding watch_entry
    watch_entry-IsScreen hash_of r = elim (Option-cases (lookup r.name s.map_of_maps)) [
      | inl missing ↦
          let unknown : (map_value r.name s).typ ≡ unspecified = ground (arith, missing) in
          subst (λ t. IsScreen (render hash_of t r s)) (sym unknown)
            (rendered-unspecified hash_of r)
      | inr (mv, found) ↦
          render-IsScreen hash_of r (ground (arith, found)) ((map_value r.name s).typ)
    ]
