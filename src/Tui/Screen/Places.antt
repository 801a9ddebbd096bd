-- ===== src/Tui/Screen/Places.antt =====
-- The places of the tables, and which of them has the focus.
use text.Mathlib.Text.{◌==◌ as str_eq}
use text.Mathlib.TextEquality.{eq_iff}
use bumblebee.Common.{
  ℕ, zero, suc, ◌+◌, ◌<◌, ◌≡◌, refl, sym, ap, ◌⊎◌, inl, inr, String, Option, none, some, List, [],
  ◌∷◌, ◌++◌, length, arith, Bool-cases,
}
use bumblebee.Common.Dict.{lookup, insert}
use bumblebee.Tui.Table.{MapValue, Tui}
use bumblebee.Tui.Screen.{find_by_index}

-- The tables of a list have its places as their indexes, from a place on.
abbrev pub IndexedFrom : ℕ → List (String × MapValue) → Type 0
IndexedFrom n [] = Unit
IndexedFrom n ((name, mv) ∷ m) = (mv.index ≡ n) × IndexedFrom (suc n) m

-- The name in a place.
abbrev pub name_at : List (String × MapValue) → ℕ → Option String
name_at [] i = none
name_at ((name, mv) ∷ m) zero = some name
name_at ((name, mv) ∷ m) (suc i) = name_at m i

-- The tables to which the queued updates give the focus.
unfoldable pub pending : List (Option String) → List String
pending [] = []
pending (none ∷ queue) = pending queue
pending (some name ∷ queue) = name ∷ pending queue

-- Where the focus is. Settled: on the table in the place of the current index. Undrawn: the update that
-- gives it to the first table is queued, and no table was selected. Ahead: a table was selected before
-- that update is drawn. Overtaken: the update was drawn after a selection, and the first table has it.
pub data Focus (s : Tui) : Type 0 where
  settled : pending s.queue ≡ [] → s.focus ≡ name_at s.map_of_maps s.current_index → Focus s
  undrawn :
      (first : String)
      → pending s.queue ≡ first ∷ []
      → name_at s.map_of_maps 0 ≡ some first
      → s.current_index ≡ 0
      → Focus s
  ahead :
      (first : String)
      → pending s.queue ≡ first ∷ []
      → name_at s.map_of_maps 0 ≡ some first
      → s.focus ≡ name_at s.map_of_maps s.current_index
      → 0 < s.readers
      → Focus s
  overtaken : pending s.queue ≡ [] → s.focus ≡ name_at s.map_of_maps 0 → 0 < s.readers → Focus s

-- Indexes are places, and the focus is in one of its four states.
pub record IsScreen (s : Tui) : Type 0 where
  pub places : IndexedFrom 0 s.map_of_maps
  pub focused : Focus s
  pub in_range : (s.current_index < length s.map_of_maps) ⊎ (s.current_index ≡ 0)

pub pending-append :
    (queue : List (Option String)) (u : Option String)
    → pending (queue ++ (u ∷ [])) ≡ pending queue ++ pending (u ∷ [])
unfolding pending
pending-append [] u = refl
pending-append (none ∷ queue) u = pending-append queue u
pending-append (some name ∷ queue) u = ap (◌∷◌ name) (pending-append queue u)

pub IndexedFrom-append :
    (n : ℕ) (m : List (String × MapValue)) (name : String) (mv : MapValue)
    → IndexedFrom n m
    → mv.index ≡ n + length m
    → IndexedFrom n (m ++ ((name, mv) ∷ []))
IndexedFrom-append n [] name mv h e = (omega arith, tt)
IndexedFrom-append n (x ∷ m) name mv h e =
    (h.0, IndexedFrom-append (suc n) m name mv h.1 (omega arith))

pub name_at-append :
    (m : List (String × MapValue)) (x : String × MapValue) (i : ℕ)
    → i < length m
    → name_at (m ++ (x ∷ [])) i ≡ name_at m i
name_at-append [] x i h = absurd (omega arith)
name_at-append (y ∷ m) x zero h = refl
name_at-append (y ∷ m) x (suc i) h = name_at-append m x i (omega arith)

find_by_index-low :
    (n i : ℕ) (m : List (String × MapValue)) → IndexedFrom n m → i < n → find_by_index i m ≡ none
unfolding find_by_index
find_by_index-low n i [] h low = refl
find_by_index-low n i ((name, mv) ∷ m) h low = ground (arith, find_by_index-low (suc n) i m h.1)

pub find_by_index-IndexedFrom :
    (n i : ℕ) (m : List (String × MapValue))
    → IndexedFrom n m
    → find_by_index (n + i) m ≡ name_at m i
unfolding find_by_index
find_by_index-IndexedFrom n i [] h = refl
find_by_index-IndexedFrom n zero ((name, mv) ∷ m) h = ground arith
find_by_index-IndexedFrom n (suc i) ((name, mv) ∷ m) h =
    let shift : n + suc i ≡ suc n + i = omega arith in
    ground (arith, find_by_index-IndexedFrom (suc n) i m h.1, ap (λ k. find_by_index k m) shift)

pub name_at-some :
    (m : List (String × MapValue)) (i : ℕ)
    → i < length m
    → (name : String) × (name_at m i ≡ some name)
name_at-some [] i h = absurd (omega arith)
name_at-some ((name, mv) ∷ m) zero h = (name, refl)
name_at-some (x ∷ m) (suc i) h = name_at-some m i (omega arith)

-- A table that is stored anew under its name with its index keeps all places.
pub places-insert :
    (n : ℕ) (name : String) (mv new : MapValue) (m : List (String × MapValue))
    → lookup name m ≡ some mv
    → new.index ≡ mv.index
    → IndexedFrom n m
    → IndexedFrom n (insert name new m)
      × (length (insert name new m) ≡ length m)
      × ((i : ℕ) → name_at (insert name new m) i ≡ name_at m i)
unfolding lookup insert
places-insert n name mv new [] found e h = absurd (cc found)
places-insert n name mv new ((k, w) ∷ m) found e h = elim (Bool-cases (str_eq k name)) [
  | inl own ↦
      let same : insert name new ((k, w) ∷ m) ≡ (name, new) ∷ m = ground (arith, own) in
      let is : w ≡ mv = ground (arith, own, found) in
      rw same ((ground (arith, is), h.1), refl, λ i. first k name w new m i ((eq_iff k name).0 own))
  | inr other ↦
      let same : insert name new ((k, w) ∷ m) ≡ (k, w) ∷ insert name new m =
        ground (arith, other) in
      let (places, lengths, names) =
        places-insert (suc n) name mv new m (ground (arith, other, found)) e h.1 in
      rw same ((h.0, places), ap suc lengths, λ i. later k w (insert name new m) m i names)
]
  where
    first :
        (k name : String) (w new : MapValue) (m : List (String × MapValue)) (i : ℕ)
        → k ≡ name
        → name_at ((name, new) ∷ m) i ≡ name_at ((k, w) ∷ m) i
    first k name w new m zero e = ap (λ x. some x) (sym e)
    first k name w new m (suc i) e = refl

    later :
        (k : String) (w : MapValue) (m' m : List (String × MapValue)) (i : ℕ)
        → ((i : ℕ) → name_at m' i ≡ name_at m i)
        → name_at ((k, w) ∷ m') i ≡ name_at ((k, w) ∷ m) i
    later k w m' m zero names = refl
    later k w m' m (suc i) names = names i
