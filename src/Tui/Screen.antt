-- ===== src/Tui/Screen.antt =====
-- pkg/tui/tui.go: the announcement of a map, and the keys that select a table.
pub mod Places
pub mod Steps
pub mod Draws
pub mod Reachable
mod Tests
use Prim.Native.String.{compare}
use text.Mathlib.Text.{is_le}
use bumblebee.Common.{
  ℕ, zero, suc, ◌+◌, ◌-◌, String, Bool, true, false, Option, none, some, List, [], ◌∷◌, ◌++◌,
  length, leb, ◌==◌, if◌then◌else◌,
}
use bumblebee.Loader.Types.{MapType, hash, ring_buf}
use bumblebee.Common.Dict.{insert}
use bumblebee.Tui.Table.{MapValue, Tui}

-- `sort.Strings`.
unfoldable pub insert_sorted : String → List String → List String
insert_sorted k [] = k ∷ []
insert_sorted k (j ∷ js) =
    let rest = insert_sorted k js in if is_le (compare k j) then k ∷ j ∷ js else j ∷ rest

unfoldable pub sort_strings : List String → List String
sort_strings [] = []
sort_strings (k ∷ ks) = insert_sorted k (sort_strings ks)

-- `makeMapValue`, where none means that `Lock` waits. The update that it queues gives the first table the
-- focus, whenever it is drawn.
unfoldable pub make_map_value : String → List String → MapType → Tui → Option Tui
make_map_value name keys typ s =
    if s.readers == 0
    then some (record s {
      map_of_maps =
          insert name
            (record {
              entries = [];
              table = λ r c. none;
              index = length s.map_of_maps;
              typ = typ;
              keys = sort_strings keys;
            })
            s.map_of_maps;
      queue = s.queue ++ ((if length s.map_of_maps == 0 then some name else none) ∷ []);
    })
    else none

-- The goroutine that draws takes the first update of the queue.
unfoldable pub draw : Tui → Tui
draw s = elim s.queue [
  | [] ↦ s
  | none ∷ updates ↦ record s { queue = updates }
  | some name ∷ updates ↦ record s { queue = updates; focus = some name }
]

unfoldable pub new_ring_buf : String → List String → Tui → Option Tui
new_ring_buf name keys s = make_map_value name keys ring_buf s

unfoldable pub new_hash_map : String → List String → Tui → Option Tui
new_hash_map name keys s = make_map_value name keys hash s

-- The loop that looks for the table with an index.
unfoldable pub find_by_index : ℕ → List (String × MapValue) → Option String
find_by_index i [] = none
find_by_index i ((name, mv) ∷ m) =
    let rest = find_by_index i m in if mv.index == i then some name else rest

-- The loop returns where it finds the table, before `RUnlock`.
unfoldable pub select_table : ℕ → Tui → Tui
select_table i s = elim (find_by_index i s.map_of_maps) [
  | none ↦ record s { current_index = i }
  | some name ↦ record s { current_index = i; focus = some name; readers = s.readers + 1 }
]

unfoldable pub next_table : Tui → Tui
next_table s =
    if leb (length s.map_of_maps) 1
    then s
    else select_table
        (if s.current_index + 1 == length s.map_of_maps then 0 else s.current_index + 1) s

unfoldable pub prev_table : Tui → Tui
prev_table s =
    if leb (length s.map_of_maps) 1
    then s
    else select_table
        (if s.current_index == 0 then length s.map_of_maps - 1 else s.current_index - 1) s
