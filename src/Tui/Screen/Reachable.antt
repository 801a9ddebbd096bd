-- ===== src/Tui/Screen/Reachable.antt =====
-- What holds of every screen that can be reached.
use bumblebee.Common.{ℕ, ◌+◌, ◌≤◌, ◌<◌, ◌≡◌, refl, String, Option, none, some, List, length, arith}
use bumblebee.Loader.Types.{
  MapType, hash, ring_buf, unspecified, array, perf_event_array, other_map, Labels, KvPair,
  MapEntry,
}
use bumblebee.Tui.Table.{
  MapValue, Tui, map_value, render_ring_buf, store_hash, render_hash, render, watch_entry,
}
use bumblebee.Tui.Screen.{make_map_value, select_table, next_table, prev_table}
use bumblebee.Tui.Screen.Places.{IsScreen, name_at-some}
use bumblebee.Tui.Screen.Draws.{draw-readers, draw-IsScreen}
use bumblebee.Tui.Screen.Steps.{
  Step, announce, entry, ctrl_n, ctrl_p, drawn, Reach, here, then_step, select_table-at, next_place,
  prev_place, next_table-many, current_small, next_table-IsScreen, prev_table-IsScreen,
  make_map_value-IsScreen, watch_entry-IsScreen,
}

module _ (hash_of : Labels → ℕ) where
  Step-IsScreen : (s t : Tui) → Step hash_of s t → IsScreen s → IsScreen t
  Step-IsScreen s t (announce name keys typ fresh made) h =
      make_map_value-IsScreen s h name keys typ t fresh made
  Step-IsScreen s t (entry r e) h = rw e (watch_entry-IsScreen s h hash_of r)
  Step-IsScreen s t (ctrl_n e) h = rw e (next_table-IsScreen s h)
  Step-IsScreen s t (ctrl_p e) h = rw e (prev_table-IsScreen s h)
  Step-IsScreen s t (drawn e) h = rw e (draw-IsScreen s h)

  -- From a screen on which the indexes are the places of the tables and the focus is in one of four
  -- states, announcements of new maps, entries, the two keys and the goroutine that draws lead to such
  -- screens only. In these states the focus is on the table in the place of the current index, or will
  -- be when the update that gives it to the first table is drawn; but where a table was selected
  -- before that, the first table has the focus in the end, until the next selection.
  pub Reach-IsScreen : (s t : Tui) → IsScreen s → Reach hash_of s t → IsScreen t
  Reach-IsScreen s t h here = h
  Reach-IsScreen s t h (then_step u _ r st) = Step-IsScreen u t st (Reach-IsScreen s u h r)

  store_hash-readers :
      (name : String) (mv : MapValue) (o : Option (List KvPair)) (s : Tui)
      → (store_hash hash_of name mv o s).readers ≡ s.readers
  unfolding store_hash
  store_hash-readers name mv none s = refl
  store_hash-readers name mv (some entries) s = refl

  render-readers :
      (t : MapType) (r : MapEntry) (s : Tui) → (render hash_of t r s).readers ≡ s.readers
  unfolding render render_hash render_ring_buf
  render-readers hash r s = store_hash-readers r.name (map_value r.name s) _ s
  render-readers ring_buf r s = refl
  render-readers unspecified r s = refl
  render-readers array r s = refl
  render-readers perf_event_array r s = refl
  render-readers other_map r s = refl

  select_table-readers : (i : ℕ) (s : Tui) → s.readers ≤ (select_table i s).readers
  unfolding select_table
  select_table-readers i s = ground arith

  Step-readers : (s t : Tui) → Step hash_of s t → s.readers ≤ t.readers
  unfolding make_map_value next_table prev_table watch_entry
  Step-readers s t (announce name keys typ fresh made) = ground arith
  Step-readers s t (entry r e) = rw e (omega (arith, render-readers (map_value r.name s).typ r s))
  Step-readers s t (ctrl_n e) =
      rw e
        (ground (arith, select_table-readers (next_place (length s.map_of_maps) s.current_index) s))
  Step-readers s t (ctrl_p e) =
      rw e
        (ground (arith, select_table-readers (prev_place (length s.map_of_maps) s.current_index) s))
  Step-readers s t (drawn e) = rw (e, draw-readers s) (omega arith)

  Reach-readers : (s t : Tui) → Reach hash_of s t → s.readers ≤ t.readers
  Reach-readers s t here = omega arith
  Reach-readers s t (then_step u _ r st) = omega (arith, Reach-readers s u r, Step-readers u t st)

next_table-readers :
    (s : Tui) → IsScreen s → 1 < length s.map_of_maps → (next_table s).readers ≡ s.readers + 1
next_table-readers s h many =
    let small : next_place (length s.map_of_maps) s.current_index < length s.map_of_maps =
      ground (arith, current_small s h many) in
    let (name, at) =
      name_at-some s.map_of_maps (next_place (length s.map_of_maps) s.current_index) small in
    rw (next_table-many s many, select_table-at _ s name h.places at) refl

-- A selection never gives its read lock back: once a table of at least two is selected by the key for
-- the next one, `makeMapValue` waits for the lock in every screen that can follow.
pub next_table_blocks :
    (hash_of : Labels → ℕ) (s t : Tui) (name : String) (keys : List String) (typ : MapType)
    → IsScreen s
    → 1 < length s.map_of_maps
    → Reach hash_of (next_table s) t
    → make_map_value name keys typ t ≡ none
unfolding make_map_value
next_table_blocks hash_of s t name keys typ h many r =
    ground (arith, next_table-readers s h many, Reach-readers hash_of (next_table s) t r)
