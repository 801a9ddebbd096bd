-- ===== src/Tui/Display.antt =====
-- From a loop of the loader to a table: `SendEntry` of pkg/tui/tui.go filters the entries, the channel
-- `Entries` keeps their order, and `watch` renders them.
use text.Mathlib.TextEquality.{eq_iff}
use text.Mathlib.TextPositions.{eq_refl}
use bumblebee.Common.{
  ℕ, ◌≡◌, refl, ap, ◌∙◌, ◌≢◌, String, Option, some, List, [], ◌∷◌, ◌++◌, map, arith, inl, inr,
  if◌then◌else◌, Bool-cases,
}
use bumblebee.Decoder.Types.{Endian, BtfType, BtfMembers, struct, Value, uint}
use bumblebee.Decoder.Decode.{Fields}
use bumblebee.Loader.Types.{ring_buf, BtfMap, Labels, KvPair, MapEntry}
use bumblebee.Loader.Watch.{
  IncrementInstrument, increment_counter, nil_instrument, SetInstrument, set_counter, gauge, Effect,
  increment, set, send, Status, Read, Event, stringify, sets, start_ring_buf, start_hash_map,
}
use bumblebee.Loader.Watch.Streams.{Stream, reported, all_reported, start_ring_buf-Stream}
use bumblebee.Loader.Watch.Ticks.{
  Entry, Ticks, shown as set_and_sent, all_shown, start_hash_map-Ticks,
}
use bumblebee.Common.Dict.{lookup}
use bumblebee.Tui.Filter.{Regexp, Filters, filter_match}
use bumblebee.Tui.Table.{MapValue, Tui, ring_rows, watch}
use bumblebee.Tui.Table.Rows.{Shows}
use bumblebee.Tui.Table.Rings.{of_map, watch-ring}
use bumblebee.Tui.Table.Hashes.{shown}
use bumblebee.Tui.Table.Latest.{IsHashTable, last_sent, watch-hash}

-- The entries among the effects of a loop, in order.
abbrev pub sent : List Effect → List MapEntry
sent [] = []
sent (send e ∷ effects) = e ∷ sent effects
sent (increment labels ∷ effects) = sent effects
sent (set v labels ∷ effects) = sent effects

sent-append : (es fs : List Effect) → sent (es ++ fs) ≡ sent es ++ sent fs
sent-append [] fs = refl
sent-append (send e ∷ es) fs = ap (◌∷◌ e) (sent-append es fs)
sent-append (increment labels ∷ es) fs = sent-append es fs
sent-append (set v labels ∷ es) fs = sent-append es fs

-- What the channel carries while other loops send too: the entries of a loop in their order, with those
-- of other maps anywhere between.
pub data Interleaved (name : String) : List MapEntry → List MapEntry → Type 0 where
  nothing : Interleaved name [] []
  own :
      (e : MapEntry) (es all : List MapEntry)
      → Interleaved name es all
      → Interleaved name (e ∷ es) (e ∷ all)
  other :
      (e : MapEntry) (es all : List MapEntry)
      → e.name ≢ name
      → Interleaved name es all
      → Interleaved name es (e ∷ all)

of_map-Interleaved :
    {name : String} {es all : List MapEntry}
    → Interleaved name es all
    → of_map name all ≡ of_map name es
of_map-Interleaved nothing = refl
of_map-Interleaved (own e es all r) = ground (arith, of_map-Interleaved r)
of_map-Interleaved {name} (other e es all ne r) =
    ground (arith, eq_iff e.name name, of_map-Interleaved r)

module _ (E : Regexp) (filters : Option (Filters E)) where
  -- `SendEntry`.
  unfoldable pub send_entries : List MapEntry → List MapEntry
  send_entries [] = []
  send_entries (e ∷ es) = if filter_match E filters e then e ∷ send_entries es else send_entries es

  module _ (order : Endian) (sprint : Value → String) (name : String) where
    -- The entry of a value without its map: the labels of a sample, or those of a key with a number.
    abbrev pub sample_entry : Fields → KvPair
    sample_entry fields = record { key = stringify order sprint fields; value = ""; hash = 0 }

    abbrev pub map_entry : Entry → KvPair
    map_entry (fields, v) = record {
      key = stringify order sprint fields;
      value = sprint (uint 64 v);
      hash = 0;
    }

    -- Those that pass the filters.
    abbrev pub passing : {A : Type 0} → (A → KvPair) → List A → List KvPair
    passing f [] = []
    passing f (a ∷ rest) =
        if filter_match E filters (record { name = name; entry = f a })
        then f a ∷ passing f rest
        else passing f rest

    abbrev named : KvPair → MapEntry
    named e = record { name = name; entry = e }

    of_map-passing :
        {A : Type 0} (f : A → KvPair) (xs : List A)
        → of_map name (send_entries (map (λ a. named (f a)) xs)) ≡ passing f xs
    unfolding send_entries
    of_map-passing f [] = refl
    of_map-passing f (a ∷ xs) = elim (Bool-cases (filter_match E filters (named (f a)))) [
      | inl pass ↦ ground (arith, pass, eq_refl name, of_map-passing f xs)
      | inr stop ↦ ground (arith, stop, of_map-passing f xs)
    ]

    sent-all_reported :
        (instr : IncrementInstrument) (values : List Fields)
        → sent (all_reported order sprint instr name values)
          ≡ map (λ fields. named (sample_entry fields)) values
    sent-all_reported instr [] = refl
    sent-all_reported instr (fields ∷ values) =
        sent-append (reported order sprint instr name fields)
          (all_reported order sprint instr name values)
        ∙ rw (sent-all_reported instr values) (one instr)
      where
        one :
            (i : IncrementInstrument)
            → sent (reported order sprint i name fields) ++ map (λ v. named (sample_entry v)) values
              ≡ named (sample_entry fields) ∷ map (λ v. named (sample_entry v)) values
        one increment_counter = refl
        one nil_instrument = refl
        one IncrementInstrument.noop = refl

    sent-all_shown :
        (instr : SetInstrument) (es : List Entry)
        → sent (all_shown order sprint instr name es) ≡ map (λ e. named (map_entry e)) es
    unfolding sets
    sent-all_shown instr [] = refl
    sent-all_shown instr ((fields, v) ∷ es) =
        sent-append (set_and_sent order sprint instr name (fields, v))
          (all_shown order sprint instr name es)
        ∙ rw (sent-all_shown instr es) (one instr)
      where
        one :
            (i : SetInstrument)
            → sent (set_and_sent order sprint i name (fields, v))
                ++ map (λ e. named (map_entry e)) es
              ≡ named (map_entry (fields, v)) ∷ map (λ e. named (map_entry e)) es
        one set_counter = refl
        one gauge = refl
        one SetInstrument.noop = refl

    module _ (hash_of : Labels → ℕ) where
      -- What the loop of a ring buffer reports is what its table shows, whatever the loops of
      -- other maps send in between: behind the rows that it had, one for each sample that passes
      -- the filters, in order, up to where the loop ends. The samples hold the bytes of a
      -- structure, the last one perhaps cut off; the loop has an instrument, and the map a table,
      -- which shows its entries.
      pub ring_buf_displayed :
          (ms : BtfMembers) (instr : IncrementInstrument) (reads : List Read) (values : List Fields)
          (end : Status) (s : Tui) (mv : MapValue) (carried : List MapEntry)
          → instr ≢ nil_instrument
          → Stream order ms reads values end
          → Interleaved name
              (send_entries (sent (start_ring_buf order sprint (some ms) instr name reads).0))
              carried
          → lookup name s.map_of_maps ≡ some mv
          → mv.typ ≡ ring_buf
          → Shows ring_rows mv
          → (after : MapValue) × (lookup name (watch hash_of carried s).map_of_maps ≡ some after)
            × (after.entries ≡ mv.entries ++ passing sample_entry values)
            × Shows ring_rows after
      ring_buf_displayed ms instr reads values end s mv carried has_instrument stream among found
            ring shows =
          let effects =
            ap (λ p. sent p.0)
              (start_ring_buf-Stream order sprint instr name ms has_instrument reads values end
                stream) in
          let (after, later, all, keys, showed) =
            watch-ring hash_of name carried s mv found ring shows in
          let passed =
            of_map-Interleaved among
            ∙ ap (λ es. of_map name (send_entries es)) (effects ∙ sent-all_reported instr values)
            ∙ of_map-passing sample_entry values in
          (after, later, all ∙ ap (λ es. mv.entries ++ es) passed, showed)

      -- What the loop of a hash map finds is what its table shows, whatever the loops of other
      -- maps send in between: for each hash of labels the last value in any tick of an entry that
      -- passes the filters, once. The keys hold the bytes of a structure and the values those of
      -- a uint64; the map has a table, which shows its entries, each with the hash of its labels
      -- and no two with the same.
      pub hash_map_displayed :
          (btf : BtfMap) (ms : BtfMembers) (t : BtfType) (instr : SetInstrument)
          (events : List Event) (all : List Entry) (end : Status) (s : Tui) (mv : MapValue)
          (carried : List MapEntry)
          → btf.key ≡ some (struct ms)
          → btf.value ≡ some t
          → Ticks order ms t events all end
          → Interleaved name
              (send_entries (sent (start_hash_map order sprint (some btf) instr name events).0))
              carried
          → lookup name s.map_of_maps ≡ some mv
          → IsHashTable hash_of mv
          → (after : MapValue) × (lookup name (watch hash_of carried s).map_of_maps ≡ some after)
            × IsHashTable hash_of after
            × ((h : ℕ)
                → shown h after.entries
                  ≡ last_sent hash_of h (passing map_entry all) (shown h mv.entries))
      hash_map_displayed btf ms t instr events all end s mv carried key value looped among found
            ok =
          let effects =
            ap (λ p. sent p.0)
              (start_hash_map-Ticks order sprint instr name btf ms t key value events all end
                looped) in
          let (after, later, keys, is_table, latest) =
            watch-hash hash_of name carried s mv found ok in
          let passed =
            of_map-Interleaved among
            ∙ ap (λ es. of_map name (send_entries es)) (effects ∙ sent-all_shown instr all)
            ∙ of_map-passing map_entry all in
          (
            after,
            later,
            is_table,
            λ h. latest h ∙ ap (λ es. last_sent hash_of h es (shown h mv.entries)) passed,
          )
