-- ===== src/Tui/Screen/Tests.antt =====
-- Runs of the screen, and its theorems at concrete data.
use bumblebee.Common.{ℕ, ◌≡◌, refl, Option, none, some, [], ◌∷◌, inl, inr, arith, length}
use bumblebee.Loader.Types.{ring_buf, hash, Labels}
use bumblebee.Common.Dict.{lookup, insert}
use bumblebee.Tui.Table.{Tui}
use bumblebee.Tui.Screen.{
  insert_sorted, sort_strings, make_map_value, new_ring_buf, new_hash_map, find_by_index,
  select_table, next_table, draw,
}
use bumblebee.Tui.Screen.Places.{IsScreen, settled, undrawn, pending}
use bumblebee.Tui.Screen.Steps.{announce, ctrl_n, drawn, Reach, here, then_step}
use bumblebee.Tui.Screen.Reachable.{Reach-IsScreen, next_table_blocks}

abbrev empty : Tui
empty = record { map_of_maps = []; current_index = 0; focus = none; readers = 0; queue = [] }

abbrev hash_of : Labels → ℕ
hash_of = length

-- The screen after two announcements.
abbrev one : Option Tui
one = new_ring_buf "events" ("ret" ∷ "pid" ∷ []) empty

abbrev one_table : Tui
one_table = record {
  map_of_maps =
      (
        "events",
        record {
          entries = [];
          table = λ r c. none;
          index = 0;
          typ = ring_buf;
          keys = "pid" ∷ "ret" ∷ [];
        },
      )
      ∷ [];
  current_index = 0;
  focus = none;
  readers = 0;
  queue = some "events" ∷ [];
}

abbrev two_tables : Tui
two_tables = record one_table {
  map_of_maps =
      (
        "events",
        record {
          entries = [];
          table = λ r c. none;
          index = 0;
          typ = ring_buf;
          keys = "pid" ∷ "ret" ∷ [];
        },
      )
      ∷ (
        "open",
        record { entries = []; table = λ r c. none; index = 1; typ = hash; keys = "pid" ∷ [] },
      )
      ∷ [];
  queue = some "events" ∷ none ∷ [];
}

first : new_ring_buf "events" ("ret" ∷ "pid" ∷ []) empty ≡ some one_table
unfolding lookup insert insert_sorted sort_strings make_map_value new_ring_buf
first = refl

second : new_hash_map "open" ("pid" ∷ []) one_table ≡ some two_tables
unfolding lookup insert insert_sorted sort_strings make_map_value new_hash_map
second = refl

-- The first selection keeps its read lock.
selected :
    next_table two_tables
    ≡ record two_tables { current_index = 1; focus = some "open"; readers = 1 }
unfolding find_by_index select_table next_table
selected = refl

third_waits : new_ring_buf "more" [] (next_table two_tables) ≡ none
unfolding find_by_index select_table next_table make_map_value new_ring_buf
third_waits = refl

empty-IsScreen : IsScreen empty
unfolding pending
empty-IsScreen = record { places = tt; focused = settled refl refl; in_range = inr refl }

two_announced : Reach hash_of empty two_tables
unfolding lookup insert insert_sorted sort_strings make_map_value new_ring_buf new_hash_map
two_announced =
    then_step one_table two_tables
      (then_step empty one_table here (announce "events" ("ret" ∷ "pid" ∷ []) ring_buf refl refl))
      (announce "open" ("pid" ∷ []) hash refl refl)

two_tables-IsScreen : IsScreen two_tables
unfolding pending
two_tables-IsScreen = record {
  places = (refl, (refl, tt));
  focused = undrawn "events" refl refl refl;
  in_range = inl (omega arith);
}

-- A key before the first update is drawn: the first table has the focus, and the second is current.
abbrev overtaken_screen : Tui
overtaken_screen = record two_tables {
  current_index = 1;
  focus = some "events";
  readers = 1;
  queue = none ∷ [];
}

key_first : draw (next_table two_tables) ≡ overtaken_screen
unfolding find_by_index select_table next_table draw
key_first = refl

draw_first : next_table (draw two_tables) ≡ record overtaken_screen { focus = some "open" }
unfolding find_by_index select_table next_table draw
draw_first = refl

Reach-IsScreen_example : IsScreen (draw (next_table two_tables))
Reach-IsScreen_example =
    Reach-IsScreen hash_of empty (draw (next_table two_tables)) empty-IsScreen (
      then_step (next_table two_tables) (draw (next_table two_tables))
        (then_step two_tables (next_table two_tables) two_announced (ctrl_n refl)) (drawn refl))

next_table_blocks_example :
    make_map_value "more" [] ring_buf (next_table (next_table two_tables)) ≡ none
next_table_blocks_example =
    next_table_blocks hash_of two_tables (next_table (next_table two_tables)) "more" [] ring_buf
      two_tables-IsScreen (omega arith)
      (then_step (next_table two_tables) (next_table (next_table two_tables)) here (ctrl_n refl))
