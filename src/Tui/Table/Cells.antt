-- ===== src/Tui/Table/Cells.antt =====
-- What a table shows after its rows are set anew.
use native.Mathlib.Nat.{zero-add}
use bumblebee.Common.{
  ℕ, zero, suc, ◌+◌, ◌≤◌, ◌<◌, ◌≡◌, refl, ap, ◌↔◌, ◌⊎◌, inl, inr, ◌∙◌, String, Option, none, some,
  List, [], ◌∷◌, length, get_elem?, arith, ◌==◌, if◌then◌else◌,
}
use bumblebee.Tui.Table.{Cells, set_cell, set_cells, set_rows}

-- The item that stands at a place if a list stands from a place on.
module _ {A : Type 0} where
  abbrev pub item_from : ℕ → List A → ℕ → Option A
  item_from c [] j = none
  item_from c (x ∷ xs) j = if j == c then some x else item_from (suc c) xs j

  item_from-low : (c : ℕ) (xs : List A) (j : ℕ) → j < c → item_from c xs j ≡ none
  item_from-low c [] j h = refl
  item_from-low c (x ∷ xs) j h = ground (arith, item_from-low (suc c) xs j)

  item_from-add : (c : ℕ) (xs : List A) (j : ℕ) → item_from c xs (c + j) ≡ get_elem? xs j
  item_from-add c [] j = refl
  item_from-add c (x ∷ xs) zero = ground arith
  item_from-add c (x ∷ xs) (suc j) =
      let shift : c + suc j ≡ suc c + j = omega arith in
      ground (arith, item_from-add (suc c) xs j, ap (item_from (suc c) xs) shift)

  item_from-zero : (xs : List A) (j : ℕ) → item_from 0 xs j ≡ get_elem? xs j
  item_from-zero xs j = rw (zero-add) at (item_from-add 0 xs j)

-- The text in a row and a column of a list of rows.
abbrev pub cell : List (List String) → Cells
cell rows i j = elim (get_elem? rows i) [ none ↦ none | some texts ↦ get_elem? texts j ]

abbrev over : Option String → Option String → Option String
over (some t) old = some t
over none old = old

set_cells-at :
    (r c : ℕ) (texts : List String) (cells : Cells) (i j : ℕ)
    → set_cells r c texts cells i j
      ≡ (if i == r then over (item_from c texts j) (cells i j) else cells i j)
unfolding set_cells
set_cells-at r c [] cells i j = ground arith
set_cells-at r c (text ∷ texts) cells i j = ground (
  arith,
  set_cells-at r (suc c) texts (set_cell r c text cells) i j,
  item_from-low (suc c) texts j,
)

abbrev over_row : Option (List String) → ℕ → Option String → Option String
over_row none j old = old
over_row (some texts) j old = over (item_from 0 texts j) old

set_rows-at :
    (r : ℕ) (rows : List (List String)) (cells : Cells) (i j : ℕ)
    → set_rows r rows cells i j ≡ over_row (item_from r rows i) j (cells i j)
unfolding set_rows
set_rows-at r [] cells i j = refl
set_rows-at r (texts ∷ rows) cells i j = ground (
  arith,
  set_rows-at (suc r) rows (set_cells r 0 texts cells) i j,
  set_cells-at r 0 texts cells i j,
  item_from-low (suc r) rows i,
)

over_row-cell :
    (o : Option (List String)) (j : ℕ) (old : Option String)
    → over_row o j old ≡ over (elim o [ none ↦ none | some texts ↦ get_elem? texts j ]) old
over_row-cell none j old = refl
over_row-cell (some texts) j old = ap (λ t. over t old) (item_from-zero texts j)

over-none : (new old : Option String) → (new ≡ none → old ≡ none) → over new old ≡ new
over-none none old h = h refl
over-none (some t) old h = refl

-- The rows that a table showed before take no more room than the new ones.
abbrev pub Covers : List (List String) → List (List String) → Type 0
Covers old new = (i j : ℕ) → cell new i j ≡ none → cell old i j ≡ none

-- Setting the rows of a table that showed no more shows just them.
pub set_rows-Covers :
    (old new : List (List String)) (cells : Cells)
    → ((i j : ℕ) → cells i j ≡ cell old i j)
    → Covers old new
    → (i j : ℕ) → set_rows 0 new cells i j ≡ cell new i j
set_rows-Covers old new cells showed covers i j =
    set_rows-at 0 new cells i j
    ∙ ap (λ o. over_row o j (cells i j)) (item_from-zero new i)
    ∙ over_row-cell (get_elem? new i) j (cells i j)
    ∙ over-none (cell new i j) (cells i j) (λ e. showed i j ∙ covers i j e)

-- Rows of one width.
abbrev pub AllWidth : ℕ → List (List String) → Type 0
AllWidth w [] = Unit
AllWidth w (texts ∷ rows) = (length texts ≡ w) × AllWidth w rows

get_elem?-none : {A : Type 0} (xs : List A) (i : ℕ) → (get_elem? xs i ≡ none) ↔ (length xs ≤ i)
get_elem?-none [] i = ((λ e. omega arith), λ h. refl)
get_elem?-none (x ∷ xs) zero = ((λ e. cc e), λ h. absurd (omega arith))
get_elem?-none (x ∷ xs) (suc i) =
    let (to, from) = get_elem?-none xs i in ((λ e. omega (arith, to e)), λ h. from (omega arith))

cell-AllWidth :
    (w : ℕ) (rows : List (List String)) (i j : ℕ)
    → AllWidth w rows
    → (cell rows i j ≡ none) ↔ ((length rows ≤ i) ⊎ (w ≤ j))
cell-AllWidth w [] i j h = ((λ e. inl (omega arith)), λ k. refl)
cell-AllWidth w (texts ∷ rows) zero j (width, h) =
    let (to, from) = get_elem?-none texts j in
    (
      (λ e. inr (omega (arith, to e))),
      λ k. elim k [ inl low ↦ absurd (omega arith) | inr high ↦ from (omega arith) ],
    )
cell-AllWidth w (texts ∷ rows) (suc i) j (width, h) =
    let (to, from) = cell-AllWidth w rows i j h in
    (
      (λ e. elim (to e) [ inl low ↦ inl (omega arith) | inr high ↦ inr high ]),
      λ k. elim k [ inl low ↦ from (inl (omega arith)) | inr high ↦ from (inr high) ],
    )

pub Covers-AllWidth :
    (w : ℕ) (old new : List (List String))
    → AllWidth w old
    → AllWidth w new
    → length old ≤ length new
    → Covers old new
Covers-AllWidth w old new h k longer i j e = elim ((cell-AllWidth w new i j k).0 e) [
  | inl low ↦ (cell-AllWidth w old i j h).1 (inl (omega arith))
  | inr high ↦ (cell-AllWidth w old i j h).1 (inr high)
]
