-- ===== src/Tui/Table.antt =====
-- pkg/tui/tui.go: the tables of the maps, `watch` and the two functions that render. The hash of the
-- package hashstructure is a parameter. A table of the library tview is its cells.
pub mod Cells
pub mod Rows
pub mod Rings
pub mod Hashes
pub mod Latest
pub mod Depends
mod Tests
use text.Mathlib.Text.{◌==◌ as str_eq}
use bumblebee.Common.{
  ℕ, zero, suc, ◌+◌, String, Bool, true, false, ◌&&◌, Option, none, some, List, [], ◌∷◌, ◌++◌, map,
  length, get_elem?, set, ◌==◌, if◌then◌else◌,
}
use bumblebee.Loader.Types.{MapType, hash, ring_buf, unspecified, Labels, KvPair, MapEntry}
use bumblebee.Common.Dict.{lookup, insert}

-- The text of the cell in a row and a column, if it was set.
abbrev pub Cells : Type 0
Cells = ℕ → ℕ → Option String

pub record MapValue : Type 0 where
  pub entries : List KvPair
  pub table : Cells
  pub index : ℕ
  pub typ : MapType
  pub keys : List String

-- The variables of the package. `readers` counts the read locks that are held of `mapMutex`; `focus`
-- is the table that has the focus, by the name of its map; `queue` has the updates that wait for the
-- goroutine that draws, each with the table that it gives the focus, if it does.
pub record Tui : Type 0 where
  pub map_of_maps : List (String × MapValue)
  pub current_index : ℕ
  pub focus : Option String
  pub readers : ℕ
  pub queue : List (Option String)

-- The value of a Go map for a key that it does not have.
abbrev pub no_map_value : MapValue
no_map_value = record { entries = []; table = λ r c. none; index = 0; typ = unspecified; keys = [] }

abbrev pub map_value : String → Tui → MapValue
map_value name s = elim (lookup name s.map_of_maps) [ none ↦ no_map_value | some mv ↦ mv ]

abbrev pub set_cell : ℕ → ℕ → String → Cells → Cells
set_cell r c text cells i j = if i == r && j == c then some text else cells i j

-- One row of a table, from a column on.
unfoldable pub set_cells : ℕ → ℕ → List String → Cells → Cells
set_cells r c [] cells = cells
set_cells r c (text ∷ texts) cells = set_cells r (suc c) texts (set_cell r c text cells)

-- The rows of a table, from a row on.
unfoldable pub set_rows : ℕ → List (List String) → Cells → Cells
set_rows r [] cells = cells
set_rows r (texts ∷ rows) cells = set_rows (suc r) rows (set_cells r 0 texts cells)

-- `ekMap[kv]`.
unfoldable pub label : Labels → String → String
label labels k = elim (lookup k labels) [ none ↦ "" | some v ↦ v ]

-- The texts that `renderRingBuf` and `renderHash` set: a header and a row for each entry.
unfoldable pub ring_rows : List String → List KvPair → List (List String)
unfolding label
ring_rows keys entries = keys ∷ map (λ (e : KvPair). map (label e.key) keys) entries

unfoldable pub hash_rows : List String → List KvPair → List (List String)
unfolding label
hash_rows keys entries =
    (keys ++ ("value" ∷ []))
    ∷ map (λ (e : KvPair). map (label e.key) keys ++ (e.value ∷ [])) entries

-- The update of the package's map and of the table.
abbrev pub with_entries : List (List String) → List KvPair → MapValue → MapValue
with_entries rows entries current = record current {
  entries = entries;
  table = set_rows 0 rows current.table;
}

abbrev pub store : String → MapValue → Tui → Tui
store name mv s = record s { map_of_maps = insert name mv s.map_of_maps }

unfoldable pub render_ring_buf : MapEntry → Tui → Tui
render_ring_buf incoming s =
    let current = map_value incoming.name s in
    let entries = current.entries ++ (incoming.entry ∷ []) in
    store incoming.name (with_entries (ring_rows current.keys entries) entries current) s

-- The index of the first entry with a hash.
unfoldable pub find_index : ℕ → List KvPair → Option ℕ
find_index h [] = none
find_index h (e ∷ entries) =
    let rest = find_index h entries in
    if e.hash == h then some 0 else elim rest [ none ↦ none | some i ↦ some (suc i) ]

module _ (hash_of : Labels → ℕ) where
  -- The entries after an incoming one, or none where `renderHash` returns early. An index that is found
  -- is in range.
  unfoldable pub updated_entries : KvPair → List KvPair → Option (List KvPair)
  updated_entries incoming entries =
      let incoming_hash = hash_of incoming.key in
      let appended = entries ++ (record incoming { hash = incoming_hash } ∷ []) in
      if length entries == 0 then some appended else elim (find_index incoming_hash entries) [
        | none ↦ some appended
        | some idx ↦ elim (get_elem? entries idx) [
          | none ↦ none
          | some e ↦
              if str_eq incoming.value e.value
              then none
              else some (set entries idx (record e { value = incoming.value }))
        ]
      ]

  unfoldable pub store_hash : String → MapValue → Option (List KvPair) → Tui → Tui
  store_hash name current none s = s
  store_hash name current (some entries) s =
      store name (with_entries (hash_rows current.keys entries) entries current) s

  unfoldable pub render_hash : MapEntry → Tui → Tui
  render_hash incoming s =
      let current = map_value incoming.name s in
      store_hash incoming.name current (updated_entries incoming.entry current.entries) s

  -- The body of the loop of `watch`, by the type of the entry's map; the redrawing of the screen is
  -- left out.
  unfoldable pub render : MapType → MapEntry → Tui → Tui
  render hash r s = render_hash r s
  render ring_buf r s = render_ring_buf r s
  render _ r s = s

  unfoldable pub watch_entry : MapEntry → Tui → Tui
  watch_entry r s = render ((map_value r.name s).typ) r s

  unfoldable pub watch : List MapEntry → Tui → Tui
  watch [] s = s
  watch (r ∷ rs) s = watch rs (watch_entry r s)
