-- ===== src/Tui/Pipe/Ends.antt =====
-- The goroutines of `Run` in pkg/tui/tui.go come to an end: a run has a bound, and none is stuck.
use text.Mathlib.Text.{◌==◌ as str_eq}
use text.Mathlib.TextEquality.{eq_iff}
use text.Mathlib.TextPositions.{eq_refl}
use bumblebee.Common.{
  ℕ, suc, ◌+◌, ◌*◌, ◌≤◌, ◌≡◌, ◌≢◌, refl, sym, ◌∙◌, ◌⊎◌, inl, inr, String, true, false, some, List,
  [], ◌∷◌, length, length-append, arith, if◌then◌else◌, ◌<◌, ◌==◌, none, Bool-cases, Option-cases,
}
use bumblebee.Loader.Types.{MapType, Labels, MapEntry}
use bumblebee.Common.Dict.{lookup, insert}
use bumblebee.Tui.Table.{Tui}
use bumblebee.Tui.Screen.{make_map_value}
use bumblebee.Tui.Pipe.{
  Announcement, Key, NoName, DistinctNames, open_pipe, Pipe, AllSent, Step, announce, drawn, key,
  send_entry, close_entries, receive, finish, Run, here, then_step,
}

-- How many entries are still to be sent.
abbrev pub unsent : List (String × List MapEntry) → ℕ
unsent [] = 0
unsent ((k, es) ∷ m) = length es + unsent m

-- How many steps are left: two for each map to announce, one for each that waits to be drawn, one for
-- each key, two for each entry to send, one for each in the channel, one to close it, and one to return.
abbrev pub steps_left : Pipe → ℕ
steps_left p =
    2 * unsent p.senders
    + length p.buffer
    + (if p.is_closed then 0 else 1)
    + (if p.ended then 0 else 1)
    + 2 * length p.to_announce
    + length p.drawing
    + length p.pressed

unsent-insert :
    (k : String) (e : MapEntry) (es : List MapEntry) (m : List (String × List MapEntry))
    → lookup k m ≡ some (e ∷ es)
    → unsent m ≡ suc (unsent (insert k es m))
unfolding lookup insert
unsent-insert k e es [] h = absurd (cc h)
unsent-insert k e es ((j, fs) ∷ m) h = elim (Bool-cases (str_eq j k)) [
  | inl own ↦ ground (arith, own, h)
  | inr other ↦ ground (arith, other, h, unsent-insert k e es m)
]

NoName-insert :
    (k j : String) (es fs : List MapEntry) (m : List (String × List MapEntry))
    → lookup j m ≡ some fs
    → NoName k m
    → NoName k (insert j es m)
unfolding lookup insert
NoName-insert k j es fs [] found h = absurd (cc found)
NoName-insert k j es fs ((i, gs) ∷ m) found (ne, h) = elim (Bool-cases (str_eq i j)) [
  | inl own ↦ rw own (ground (arith, eq_iff i j), h)
  | inr other ↦ rw other (ne, NoName-insert k j es fs m (ground (arith, other, found)) h)
]

DistinctNames-insert :
    (j : String) (es fs : List MapEntry) (m : List (String × List MapEntry))
    → lookup j m ≡ some fs
    → DistinctNames m
    → DistinctNames (insert j es m)
unfolding lookup insert
DistinctNames-insert j es fs [] found h = absurd (cc found)
DistinctNames-insert j es fs ((i, gs) ∷ m) found (fresh, h) = elim (Bool-cases (str_eq i j)) [
  | inl own ↦ rw own (rw (sym ((eq_iff i j).0 own)) fresh, h)
  | inr other ↦
      let later : lookup j m ≡ some fs = ground (arith, other, found) in
      rw other (NoName-insert i j es fs m later fresh, DistinctNames-insert j es fs m later h)
]

lookup-NoName :
    (k j : String) (es : List MapEntry) (m : List (String × List MapEntry))
    → NoName k m
    → lookup j m ≡ some es
    → k ≢ j
unfolding lookup
lookup-NoName k j es [] h found same = cc found
lookup-NoName k j es ((i, gs) ∷ m) (ne, h) found same = elim (Bool-cases (str_eq i j)) [
  | inl own ↦ ne ((eq_iff i j).0 own ∙ sym same)
  | inr other ↦ lookup-NoName k j es m h (ground (arith, other, found)) same
]

-- All is sent, or a loop has an entry to send.
some_unsent :
    (m : List (String × List MapEntry))
    → DistinctNames m
    → AllSent m
      ⊎ ((k : String) × (e : MapEntry) × (es : List MapEntry) × (lookup k m ≡ some (e ∷ es)))
unfolding lookup
some_unsent [] h = inl tt
some_unsent ((k, e ∷ es) ∷ m) h = inr (k, e, es, ground (arith, eq_refl k))
some_unsent ((k, []) ∷ m) (fresh, h) = elim (some_unsent m h) [
  | inl all ↦ inl (refl, all)
  | inr (j, e, es, found) ↦
      inr (j, e, es, ground (arith, found, eq_iff k j, lookup-NoName k j (e ∷ es) m fresh found))
]

make_map_value-waits :
    (name : String) (keys : List String) (typ : MapType) (s : Tui)
    → make_map_value name keys typ s ≡ none
    → 0 < s.readers
unfolding make_map_value
make_map_value-waits name keys typ s waits = elim (Bool-cases (s.readers == 0)) [
  | inl free ↦ absurd (ground (arith, free, waits))
  | inr locked ↦ ground (arith, locked)
]

module _ (hash_of : Labels → ℕ) where
  Step-steps_left :
      (p q : Pipe) (taken : List MapEntry)
      → Step hash_of p q taken
      → steps_left p ≡ suc (steps_left q)
  Step-steps_left p q taken (announce a as' s next made is) =
      ground (arith, length-append p.drawing (a.name ∷ []))
  Step-steps_left p q taken (drawn k names next is) = ground arith
  Step-steps_left p q taken (key k ks next is) = ground arith
  Step-steps_left p q taken (send_entry name e es found free undrawn room is_open is) =
      ground (arith, unsent-insert name e es p.senders found, length-append p.buffer (e ∷ []))
  Step-steps_left p q taken (close_entries sent _ _ is_open is) = ground arith
  Step-steps_left p q taken (receive e es _ next on is_taken is) = ground arith
  Step-steps_left p q taken (finish no_more over on is) = ground arith

  Run-steps_left :
      (p q : Pipe) (n : ℕ) (taken : List MapEntry)
      → Run hash_of p n taken q
      → n + steps_left q ≡ steps_left p
  Run-steps_left p q n taken here = omega arith
  Run-steps_left p q m all (then_step n _ taken more _ r _ run step e is) =
      omega (arith, Run-steps_left p r n taken run, Step-steps_left r q more step)

  Step-DistinctNames :
      (p q : Pipe) (taken : List MapEntry)
      → Step hash_of p q taken
      → DistinctNames p.senders
      → DistinctNames q.senders
  Step-DistinctNames p q taken (announce a as' s next made is) h = rw is h
  Step-DistinctNames p q taken (drawn k names next is) h = rw is h
  Step-DistinctNames p q taken (key k ks next is) h = rw is h
  Step-DistinctNames p q taken (send_entry name e es found free undrawn room is_open is) h =
      rw is (DistinctNames-insert name es (e ∷ es) p.senders found h)
  Step-DistinctNames p q taken (close_entries sent _ _ is_open is) h = rw is h
  Step-DistinctNames p q taken (receive e es _ next on is_taken is) h = rw is h
  Step-DistinctNames p q taken (finish no_more over on is) h = rw is h

  Run-DistinctNames :
      (p q : Pipe) (n : ℕ) (taken : List MapEntry)
      → Run hash_of p n taken q
      → DistinctNames p.senders
      → DistinctNames q.senders
  Run-DistinctNames p q n taken here h = h
  Run-DistinctNames p q m all (then_step n _ taken more _ r _ run step e is) h =
      Step-DistinctNames r q more step (Run-DistinctNames p r n taken run h)

  -- A step that no key takes.
  abbrev pub CanStep : Pipe → Type 0
  CanStep p =
      (taken : List MapEntry) × (q : Pipe) × Step hash_of p q taken × (q.pressed ≡ p.pressed)

  -- A loop waits for the lock, of which a key has kept a read lock.
  abbrev pub Locked : Pipe → Type 0
  Locked p =
      (a : Announcement) × (as' : List Announcement) × (p.to_announce ≡ a ∷ as')
      × (0 < p.screen.readers)

  can_announce :
      (p : Pipe) (a : Announcement) (as' : List Announcement)
      → p.to_announce ≡ a ∷ as'
      → Locked p ⊎ CanStep p
  can_announce p a as' next = elim (Option-cases (make_map_value a.name a.keys a.typ p.screen)) [
    | inl waits ↦ inl (a, as', next, make_map_value-waits a.name a.keys a.typ p.screen waits)
    | inr (s, made) ↦ inr ([], _, announce a as' s next made refl, refl)
  ]

  can_send :
      (p : Pipe)
      → DistinctNames p.senders
      → p.to_announce ≡ []
      → p.drawing ≡ []
      → p.buffer ≡ []
      → p.ended ≡ false
      → p.is_closed ≡ false
      → CanStep p
  can_send p h none_left none_drawn empty on is_open = elim (some_unsent p.senders h) [
    | inl all ↦ ([], _, close_entries all none_left none_drawn is_open refl, refl)
    | inr (k, e, es, found) ↦ (
      [],
      _,
      send_entry k e es found (rw none_left tt) (rw none_drawn tt) (ground (arith, empty)) is_open
          refl,
      refl,
    )
  ]

  can_step : (p : Pipe) → DistinctNames p.senders → (p.ended ≡ true) ⊎ (Locked p ⊎ CanStep p)
  can_step p h = elim (Bool-cases p.ended) [
    | inl over ↦ inl over
    | inr on ↦ inr (by_announced p.to_announce refl on)
  ]
    where
      by_buffer :
          (es : List MapEntry)
          → p.buffer ≡ es
          → p.to_announce ≡ []
          → p.drawing ≡ []
          → p.ended ≡ false
          → CanStep p
      by_buffer [] empty none_left none_drawn on = elim (Bool-cases p.is_closed) [
        | inl over ↦ ([], _, finish empty over on refl, refl)
        | inr is_open ↦ can_send p h none_left none_drawn empty on is_open
      ]
      by_buffer (e ∷ es) next none_left none_drawn on =
          (e ∷ [], _, receive e es (e ∷ []) next on refl refl, refl)

      by_drawing :
          (names : List String)
          → p.drawing ≡ names
          → p.to_announce ≡ []
          → p.ended ≡ false
          → CanStep p
      by_drawing [] none_drawn none_left on = by_buffer p.buffer refl none_left none_drawn on
      by_drawing (k ∷ names) next none_left on = ([], _, drawn k names next refl, refl)

      by_announced :
          (as' : List Announcement) → p.to_announce ≡ as' → p.ended ≡ false → Locked p ⊎ CanStep p
      by_announced [] none_left on = inr (by_drawing p.drawing refl none_left on)
      by_announced (a ∷ as') next on = can_announce p a as' next

  -- The goroutines come to an end, or a key stops them: a run from an open channel has at most two
  -- steps for each entry to send and each map to announce, one for each key, and two more; and where
  -- it stops, `watch` has returned, or a step is possible without a key, or a loop waits in
  -- makeMapValue for the lock, of which a key that selected a table has kept a read lock. The loops
  -- belong to maps of different names.
  pub goroutines_end :
      (senders : List (String × List MapEntry)) (loops : List Announcement) (keys : List Key)
      (screen : Tui) (q : Pipe) (n : ℕ) (taken : List MapEntry)
      → DistinctNames senders
      → Run hash_of (open_pipe senders loops keys screen) n taken q
      → (n ≤ 2 * unsent senders + 2 * length loops + length keys + 2)
        × ((q.ended ≡ true) ⊎ (Locked q ⊎ CanStep q))
  unfolding open_pipe
  goroutines_end senders loops keys screen q n taken distinct run = (
    omega (arith, Run-steps_left (open_pipe senders loops keys screen) q n taken run),
    can_step q (Run-DistinctNames (open_pipe senders loops keys screen) q n taken run distinct),
  )
