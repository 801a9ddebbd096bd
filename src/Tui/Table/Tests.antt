-- ===== src/Tui/Table/Tests.antt =====
-- Runs of the tables of pkg/tui/tui.go. The hash of labels is their text's first character here.
use text.Mathlib.Text.{◌==◌ as str_eq}
use bumblebee.Common.{ℕ, ◌≡◌, refl, String, Option, some, none, [], ◌∷◌, if◌then◌else◌}
use bumblebee.Loader.Types.{MapType, ring_buf, hash, Labels, MapEntry}
use bumblebee.Common.Dict.{lookup, insert}
use bumblebee.Tui.Table.{
  Tui, map_value, set_cells, set_rows, label, ring_rows, hash_rows, render_ring_buf, find_index,
  updated_entries, store_hash, render_hash, render, watch_entry, watch,
}

abbrev hash_of : Labels → ℕ
hash_of [] = 0
hash_of ((k, v) ∷ labels) = if str_eq v "7" then 7 else 8

abbrev table_of : MapType → Tui
table_of typ = record {
  map_of_maps =
      (
        "m",
        record { entries = []; table = λ r c. none; index = 0; typ = typ; keys = "pid" ∷ "x" ∷ [] },
      )
      ∷ [];
  current_index = 0;
  focus = some "m";
  readers = 0;
  queue = [];
}

abbrev says : String → String → MapEntry
says pid v = record { name = "m"; entry = record { key = ("pid", pid) ∷ []; value = v; hash = 0 } }

abbrev texts : MapType → ℕ → ℕ → Option String
texts typ =
    (map_value "m"
      (watch hash_of (says "7" "1" ∷ says "8" "1" ∷ says "7" "2" ∷ []) (table_of typ))).table

-- A ring buffer's table has a row for each entry, a hash map's one for each key; a label that an entry
-- does not have is shown empty.
third_row : texts ring_buf 3 0 ≡ some "7"
unfolding lookup insert set_cells set_rows label ring_rows hash_rows render_ring_buf find_index
    updated_entries store_hash render_hash render watch_entry watch
third_row = refl

no_third_row : texts hash 3 0 ≡ none
unfolding lookup insert set_cells set_rows label ring_rows hash_rows render_ring_buf find_index
    updated_entries store_hash render_hash render watch_entry watch
no_third_row = refl

latest_value : texts hash 1 2 ≡ some "2"
unfolding lookup insert set_cells set_rows label ring_rows hash_rows render_ring_buf find_index
    updated_entries store_hash render_hash render watch_entry watch
latest_value = refl

label_not_there : texts hash 1 1 ≡ some ""
unfolding lookup insert set_cells set_rows label ring_rows hash_rows render_ring_buf find_index
    updated_entries store_hash render_hash render watch_entry watch
label_not_there = refl
