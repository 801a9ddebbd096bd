-- ===== src/Loader/Watch/Tests.antt =====
-- Runs of the loops of the loader, and their theorems at concrete data.
use text.Mathlib.TextEquality.{eq_iff}
use bumblebee.Common.{
  ℕ, ◌+◌, ◌^◌, ◌≡◌, refl, some, none, List, [], ◌∷◌, arith, ◌==◌, ltb, if◌then◌else◌, inl, inr,
}
use bumblebee.Bpf.Context.{from_bytes}
use bumblebee.Decoder.Types.{little, unsigned, signed, int}
use bumblebee.Decoder.Decode.{
  slice, value_of, binary_read, read_bits, get_underlying_type, special, handle_uint, handle_int,
  process_plain, process_single_type, insert, decode_members, decode_single, decode_btf_binary,
}
use bumblebee.Decoder.Format.{
  of_uint, of_sint, itself, plain, renamed, IsPlainName, EncodesAll, stop, piece, Distinct,
}
use bumblebee.Loader.Types.{
  ok, Labels, contains, is_print_map, is_gauge_map, is_counter_map, is_tracked_map,
}
use bumblebee.Loader.Parse.{
  get_labels_for_btf_struct, get_labels_for_hash_map_key, clear_btf, watch_map, parse,
}
use bumblebee.Loader.Watch.{
  set_counter, Task, set, send, returned, tick, done, decode, nameless, int_val, stringify,
  entry_of, sets, hash_entry, hash_tick, start_hash_map, watch_maps,
}
use bumblebee.Loader.Watch.Dispatch.{AllServe, watch_maps-parse}
use bumblebee.Loader.Watch.Ticks.{
  Entry, Ticks, cancelled, ticks, sets_of, counter_sets, counter_follows_map,
}
use bumblebee.SetCounter.{CounterVec, State, new_set_counter, run}
use bumblebee.SetCounter.Laws.{IsLawful, last_value}
use bumblebee.Loader.Numbers.{labels_number, labels_number-inj}
use bumblebee.Loader.Samples.{
  pid_members, table_types, specs, parsed_elf, raw, fields, five, sprint, counts,
}

parsed : parse specs ≡ ok parsed_elf
unfolding contains is_print_map is_gauge_map is_counter_map is_tracked_map get_labels_for_btf_struct
    get_labels_for_hash_map_key clear_btf watch_map parse
parsed = refl

watch_maps-parse_example :
    (ts : List Task) × (watch_maps parsed_elf.watched_maps ≡ ok ts)
    × AllServe parsed_elf.watched_maps ts
watch_maps-parse_example = watch_maps-parse specs parsed_elf parsed

encoded : EncodesAll little pid_members fields raw
unfolding value_of from_bytes
encoded =
    piece "pid" (int "unsigned int" 4 32 unsigned) 0 _ _ _ (7 ∷ 0 ∷ 0 ∷ 0 ∷ []) (2 ∷ 0 ∷ 0 ∷ 0 ∷ [])
      _ (plain _ (of_uint "unsigned int" 4 32 (refl, inr (inr (inl refl))) refl refl))
      (piece "ret" (int "int" 4 32 signed) 32 _ _ _ (2 ∷ 0 ∷ 0 ∷ 0 ∷ []) [] _
        (plain _ (of_sint "int" 4 32 (refl, inr (inr (inl refl))) refl refl)) stop refl)
      refl

fields-Distinct : Distinct fields
fields-Distinct = ((ground (arith, eq_iff "ret" "pid"), tt), (tt, tt))

-- One tick of a table: 5 for the pid 7, and the end of the context.
plain_name : IsPlainName "u64"
plain_name = (
  ground (arith, eq_iff "u64" "duration"),
  ground (arith, eq_iff "u64" "ipv4_addr"),
  ground (arith, eq_iff "u64" "ipv6_addr"),
)

abbrev entries : List Entry
entries = (fields, 5) ∷ []

abbrev bytes : List (List ℕ × List ℕ)
bytes = (raw, five) ∷ []

one_tick :
    start_hash_map little sprint (some table_types) set_counter "open" (tick bytes ∷ done ∷ []) ≡ (
      set 5 (("pid", "7") ∷ ("ret", "2") ∷ [])
          ∷ send (entry_of little sprint "open" (("pid", "7") ∷ ("ret", "2") ∷ []) "5")
          ∷ [],
      returned,
    )
unfolding slice value_of binary_read read_bits get_underlying_type special handle_uint handle_int
    process_plain process_single_type insert decode_members decode_single decode_btf_binary
    from_bytes decode nameless int_val stringify sets hash_entry hash_tick start_hash_map
one_tick = refl

entry-Ticks : Ticks little pid_members counts (tick bytes ∷ done ∷ []) entries returned
unfolding value_of from_bytes
entry-Ticks =
    ticks entries [] entries bytes (done ∷ []) returned
      (
        (
          encoded,
          omega arith,
          fields-Distinct,
          renamed "u64" _ _ plain_name (itself _ refl)
              (of_uint "unsigned long long" 8 64 (refl, inr (inr (inr refl))) refl refl),
          omega arith,
        ),
        tt,
      )
      refl (cancelled [])

-- A collector by the hash of its labels.
abbrev vec : CounterVec Labels
vec = record {
  Vec = ℕ → ℕ;
  value = λ c key. c (labels_number key);
  add = λ c key d.
      if ltb d (2 ^ 63) then some (λ k. if k == labels_number key then c k + d else c k) else none;
}

vec-IsLawful : IsLawful vec
vec-IsLawful = record {
  adds = λ c key d bound. (
    (λ k. if k == labels_number key then c k + d else c k),
    ground arith,
    ground arith,
    λ other ne. ground (arith, labels_number-inj other key),
  );
  panics = λ c key d negative bound. ground arith;
}

abbrev start : State (ℕ → ℕ)
start = new_set_counter (λ key. 0)

counter_follows_map_example :
    (u : State (ℕ → ℕ)) × (run vec labels_number
        (sets_of
          (start_hash_map little sprint
            (some table_types)
            set_counter
            "open"
            (tick bytes ∷ done ∷ [])).0)
        start
      ≡ some u)
    × ((labels : Labels)
        → u.counter (labels_number labels)
          ≡ last_value labels_number (counter_sets little sprint entries) (labels_number labels) 0)
counter_follows_map_example =
    counter_follows_map little sprint vec labels_number vec-IsLawful labels_number-inj "open"
      table_types pid_members counts (tick bytes ∷ done ∷ []) entries returned start refl refl
      entry-Ticks (λ labels. refl) (omega arith, (omega arith, tt))
