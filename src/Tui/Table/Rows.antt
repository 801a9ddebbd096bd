-- ===== src/Tui/Table/Rows.antt =====
-- The tables that pkg/tui/tui.go shows, against the sequence of entries that it is sent.
use bumblebee.Common.{
  ℕ, suc, ◌+◌, ◌≤◌, ◌<◌, ◌≡◌, refl, sym, ap, ◌∙◌, String, List, [], ◌∷◌, map, length, length-append,
  length-map, arith,
}
use bumblebee.Loader.Types.{KvPair}
use bumblebee.Tui.Table.{MapValue, set_rows, label, ring_rows, hash_rows}
use bumblebee.Tui.Table.Cells.{cell, Covers, set_rows-Covers, AllWidth, Covers-AllWidth}

abbrev pub Layout : Type 0
Layout = List String → List KvPair → List (List String)

-- The rows of a table: none before the first entry.
abbrev pub shown_rows : Layout → List String → List KvPair → List (List String)
shown_rows rows keys [] = []
shown_rows rows keys (e ∷ entries) = rows keys (e ∷ entries)

-- A table shows its header, and in each row below it one entry: nothing else.
abbrev pub Shows : Layout → MapValue → Type 0
Shows rows mv = (i j : ℕ) → mv.table i j ≡ cell (shown_rows rows mv.keys mv.entries) i j

AllWidth-map :
    (w : ℕ) (row : KvPair → List String) (entries : List KvPair)
    → ((e : KvPair) → length (row e) ≡ w)
    → AllWidth w (map row entries)
AllWidth-map w row [] h = tt
AllWidth-map w row (e ∷ entries) h = (h e, AllWidth-map w row entries h)

AllWidth-ring_rows :
    (keys : List String) (entries : List KvPair) → AllWidth (length keys) (ring_rows keys entries)
unfolding ring_rows
AllWidth-ring_rows keys entries =
    (refl, AllWidth-map (length keys) _ entries (λ e. length-map keys (label e.key)))

AllWidth-hash_rows :
    (keys : List String) (entries : List KvPair)
    → AllWidth (length keys + 1) (hash_rows keys entries)
unfolding hash_rows
AllWidth-hash_rows keys entries = (
  length-append keys ("value" ∷ []),
  AllWidth-map (length keys + 1) _ entries (λ e. omega (
    arith,
    length-append (map (label e.key) keys) (e.value ∷ []),
    length-map keys (label e.key),
  )),
)

-- How a kind of table lays its rows out: one width for all, a header, and one row for each entry.
pub record IsLayout (rows : Layout) : Type 0 where
  pub width : List String → ℕ
  pub same_width :
      (keys : List String) (entries : List KvPair) → AllWidth (width keys) (rows keys entries)
  pub one_each :
      (keys : List String) (entries : List KvPair)
      → length (rows keys entries) ≡ suc (length entries)

pub ring_rows-IsLayout : IsLayout ring_rows
unfolding ring_rows
ring_rows-IsLayout = record {
  width = length;
  same_width = AllWidth-ring_rows;
  one_each = λ keys entries. ap suc (length-map entries _);
}

pub hash_rows-IsLayout : IsLayout hash_rows
unfolding hash_rows
hash_rows-IsLayout = record {
  width = λ keys. length keys + 1;
  same_width = AllWidth-hash_rows;
  one_each = λ keys entries. ap suc (length-map entries _);
}

module _ {rows : Layout} (L : IsLayout rows) where
  AllWidth-shown_rows :
      (keys : List String) (es : List KvPair) → AllWidth (L.width keys) (shown_rows rows keys es)
  AllWidth-shown_rows keys [] = tt
  AllWidth-shown_rows keys (e ∷ es) = L.same_width keys (e ∷ es)

  shown_rows-some :
      (keys : List String) (es : List KvPair)
      → 0 < length es
      → shown_rows rows keys es ≡ rows keys es
  shown_rows-some keys [] h = absurd (omega arith)
  shown_rows-some keys (e ∷ es) h = refl

  length-shown_rows-le :
      (keys : List String) (es : List KvPair) → length (shown_rows rows keys es) ≤ suc (length es)
  length-shown_rows-le keys [] = omega arith
  length-shown_rows-le keys (e ∷ es) = omega (arith, L.one_each keys (e ∷ es))

  -- A table whose rows are set anew for at least as many entries shows these.
  pub Shows-set_rows :
      (mv : MapValue) (entries : List KvPair)
      → Shows rows mv
      → 0 < length entries
      → length mv.entries ≤ length entries
      → Shows rows
          (record mv { entries = entries; table = set_rows 0 (rows mv.keys entries) mv.table })
  Shows-set_rows mv entries showed some_entry longer i j =
      let old = shown_rows rows mv.keys mv.entries in
      let covers : Covers old (rows mv.keys entries) =
        Covers-AllWidth (L.width mv.keys) old (rows mv.keys entries)
          (AllWidth-shown_rows mv.keys mv.entries) (L.same_width mv.keys entries)
          (omega (arith, length-shown_rows-le mv.keys mv.entries, L.one_each mv.keys entries)) in
      set_rows-Covers old (rows mv.keys entries) mv.table showed covers i j
      ∙ ap (λ r. cell r i j) (sym (shown_rows-some mv.keys entries some_entry))
