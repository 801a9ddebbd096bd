-- ===== src/Loader/Watch/Ticks.antt =====
-- `startHashMap` of pkg/loader/loader.go over all ticks, and the counters of pkg/stats that it sets.
use mathlib.Core.List.{append_assoc, append-nil}
use bumblebee.Common.{
  ℕ, ◌^◌, ◌<◌, ◌≡◌, refl, sym, ap, String, none, some, List, [], ◌∷◌, ◌++◌, length, arith,
}
use bumblebee.Decoder.Types.{Endian, BtfType, BtfMembers, struct, Value, uint, Outcome}
use bumblebee.Decoder.Decode.{Fields, decode_btf_binary, decode_single}
use bumblebee.Decoder.Format.{
  of_uint, of_sint, of_float, of_chars, Encodes, plain, renamed, of_duration, of_address,
  EncodesAll, Distinct,
}
use bumblebee.Decoder.Struct.{decode_btf_binary-EncodesAll}
use bumblebee.Decoder.Typedef.{process_single_type-Encodes}
use bumblebee.Loader.Types.{BtfMap, Labels}
use bumblebee.Loader.Watch.{
  SetInstrument, set_counter, Effect, increment, set, send, Status, waiting, returned, go, decode,
  Event, tick, done, nameless, int_val, stringify, entry_of, sets, hash_entry, hash_tick,
  start_hash_map,
}
use bumblebee.SetCounter.{CounterVec, State, run}
use bumblebee.SetCounter.Laws.{IsLawful, InStep, Rising, last_value, run-Rising}

-- A key of a hash map as its members' values, and its value.
abbrev pub Entry : Type 0
Entry = Fields × ℕ

-- The bytes of one entry, by the types of the map.
abbrev pub EncodesEntry : Endian → BtfMembers → BtfType → Entry → List ℕ × List ℕ → Type 0
EncodesEntry order ms t (fields, v) (key, value) =
    EncodesAll order ms fields key
    × (length key < 2 ^ 32)
    × Distinct fields
    × Encodes order (uint 64 v) value t
    × (length value < 2 ^ 32)

abbrev pub EncodesTick :
    Endian → BtfMembers → BtfType → List Entry → List (List ℕ × List ℕ) → Type 0
EncodesTick order ms t [] [] = Unit
EncodesTick order ms t (e ∷ es) (raw ∷ raws) =
    EncodesEntry order ms t e raw × EncodesTick order ms t es raws
EncodesTick order ms t _ _ = ⊥

-- What the loop meets, the entries of all ticks, and where it ends.
pub data Ticks (order : Endian) (ms : BtfMembers) (t : BtfType)
    : List Event → List Entry → Status → Type 0 where
  no_more : Ticks order ms t [] [] waiting
  cancelled : (events : List Event) → Ticks order ms t (done ∷ events) [] returned
  ticks :
      (entries more all : List Entry) (raws : List (List ℕ × List ℕ)) (events : List Event)
      (s : Status)
      → EncodesTick order ms t entries raws
      → all ≡ entries ++ more
      → Ticks order ms t events more s
      → Ticks order ms t (tick raws ∷ events) all s

module _ (order : Endian) where
  single_of :
      (t : BtfType) (v : Value) (bs : List ℕ)
      → Encodes order v bs t
      → length bs < 2 ^ 32
      → decode_single order bs t ≡ Outcome.ok (("", v) ∷ [])
  unfolding decode_single
  single_of t v bs h bound =
      let read =
        rw append-nil at (process_single_type-Encodes order [] bs [] (omega arith) v t h) in
      ground (arith, read)

  -- A `uint64` is decoded under the name "".
  decode-uint64 :
      (t : BtfType) (v : ℕ) (bs : List ℕ)
      → Encodes order (uint 64 v) bs t
      → length bs < 2 ^ 32
      → decode_btf_binary order t bs ≡ Outcome.ok (("", uint 64 v) ∷ [])
  unfolding decode_btf_binary
  decode-uint64 t v bs (plain _ (of_uint name n w width l e)) bound =
      single_of t (uint 64 v) bs (plain _ (of_uint name n w width l e)) bound
  decode-uint64 t v bs (renamed name s u p r h) bound =
      single_of t (uint 64 v) bs (renamed name s u p r h) bound
  decode-uint64 t v bs (plain _ (of_sint name n w width l e)) bound = absurd (cc e)
  decode-uint64 t v bs (plain _ (of_float n width l e)) bound = absurd (cc e)
  decode-uint64 t v bs (plain _ (of_chars name size w n e cs rest char one clean whole l is))
        bound =
      absurd (cc is)
  decode-uint64 t v bs (of_duration name base s n r l e) bound = absurd (cc e)
  decode-uint64 t v bs (of_address name base s n r l small e) bound = absurd (cc e)

int_val-uint64 : (v : ℕ) → int_val (("", uint 64 v) ∷ []) ≡ go v
unfolding int_val nameless
int_val-uint64 v = refl

module _ (order : Endian) (sprint : Value → String) (instr : SetInstrument) (name : String) where
  -- An entry sets the instrument, if there is one, and is sent on.
  abbrev pub shown : Entry → List Effect
  shown (fields, v) =
      let labels = stringify order sprint fields in
      sets order sprint instr v labels
      ++ (send (entry_of order sprint name labels (sprint (uint 64 v))) ∷ [])

  abbrev pub all_shown : List Entry → List Effect
  all_shown [] = []
  all_shown (e ∷ es) = shown e ++ all_shown es

  all_shown-append :
      (es more : List Entry) → all_shown (es ++ more) ≡ all_shown es ++ all_shown more
  all_shown-append [] more = refl
  all_shown-append (e ∷ es) more =
      rw (all_shown-append es more) (sym (append_assoc (shown e) (all_shown es) (all_shown more)))

  module _ (btf : BtfMap) (ms : BtfMembers) (t : BtfType) (key_type : btf.key ≡ some (struct ms))
      (value_type : btf.value ≡ some t) where
    hash_entry-EncodesEntry :
        (e : Entry) (key value : List ℕ)
        → EncodesEntry order ms t e (key, value)
        → hash_entry order sprint (some btf) instr name key value ≡ go (shown e)
    unfolding hash_entry decode
    hash_entry-EncodesEntry (fields, v) key value (enc, small, distinct, enc_value, small_value) =
        let decoded : decode_btf_binary order (struct ms) key ≡ Outcome.ok fields =
          rw append-nil at
            (decode_btf_binary-EncodesAll order ms fields key [] enc small distinct) in
        ground (
          arith,
          key_type,
          value_type,
          decoded,
          decode-uint64 order t v value enc_value small_value,
          int_val-uint64 v,
        )

    hash_tick-EncodesTick :
        (es : List Entry) (raws : List (List ℕ × List ℕ))
        → EncodesTick order ms t es raws
        → hash_tick order sprint (some btf) instr name raws ≡ (all_shown es, none)
    unfolding hash_tick
    hash_tick-EncodesTick [] [] h = refl
    hash_tick-EncodesTick (e ∷ es) ((key, value) ∷ raws) (h, hs) =
        ground (arith, hash_entry-EncodesEntry e key value h, hash_tick-EncodesTick es raws hs)
    hash_tick-EncodesTick [] (raw ∷ raws) h = absurd h
    hash_tick-EncodesTick (e ∷ es) [] h = absurd h

    -- The loop over a hash map with a structure as the key and a `uint64` as the value sets and sends
    -- every entry of every tick, in order, until the context is done.
    pub start_hash_map-Ticks :
        (events : List Event) (all : List Entry) (s : Status)
        → Ticks order ms t events all s
        → start_hash_map order sprint (some btf) instr name events ≡ (all_shown all, s)
    unfolding start_hash_map
    start_hash_map-Ticks events all s no_more = refl
    start_hash_map-Ticks events all s (cancelled more) = refl
    start_hash_map-Ticks events all s (ticks entries more _ raws later _ h e r) = ground (
      arith,
      hash_tick-EncodesTick entries raws h,
      start_hash_map-Ticks later more s r,
      ap all_shown e,
      all_shown-append entries more,
    )

-- The calls of `Set` among the effects.
abbrev pub sets_of : List Effect → List (ℕ × Labels)
sets_of [] = []
sets_of (set v labels ∷ effects) = (v, labels) ∷ sets_of effects
sets_of (increment labels ∷ effects) = sets_of effects
sets_of (send e ∷ effects) = sets_of effects

module _ (order : Endian) (sprint : Value → String) where
  -- The entries as a counter is to see them.
  abbrev pub counter_sets : List Entry → List (ℕ × Labels)
  counter_sets [] = []
  counter_sets ((fields, v) ∷ es) = (v, stringify order sprint fields) ∷ counter_sets es

  sets_of-all_shown :
      (name : String) (es : List Entry)
      → sets_of (all_shown order sprint set_counter name es) ≡ counter_sets es
  unfolding sets
  sets_of-all_shown name [] = refl
  sets_of-all_shown name ((fields, v) ∷ es) =
      ap (◌∷◌ (v, stringify order sprint fields)) (sets_of-all_shown name es)

  module _ (P : CounterVec Labels) (hash : Labels → ℕ) (law : IsLawful P)
      (hash_inj : (a b : Labels) → hash a ≡ hash b → a ≡ b) where
    -- The counters of a map in a counter section follow the map: from counters that are in step on,
    -- after any ticks whose values do not fall for the same labels and stay at most 2 ^ 53, none
    -- panics, and the counter of any labels shows the last value that the map had for them.
    pub counter_follows_map :
        (name : String) (btf : BtfMap) (ms : BtfMembers) (t : BtfType) (events : List Event)
        (all : List Entry) (end : Status) (s : State P.Vec)
        → btf.key ≡ some (struct ms)
        → btf.value ≡ some t
        → Ticks order ms t events all end
        → InStep P hash law hash_inj s
        → Rising hash (counter_sets all) s.counter_map
        → (u : State P.Vec) × (run P hash
              (sets_of (start_hash_map order sprint (some btf) set_counter name events).0)
              s
            ≡ some u)
          × ((labels : Labels)
              → P.value u.counter labels
                ≡ last_value hash (counter_sets all) (hash labels) (P.value s.counter labels))
    counter_follows_map name btf ms t events all end s k v h in_step rising =
        rw
          (
            start_hash_map-Ticks order sprint set_counter name btf ms t k v events all end h,
            sets_of-all_shown name all,
          )
          (run-Rising P hash law hash_inj (counter_sets all) s in_step rising)
