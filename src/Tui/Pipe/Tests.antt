-- ===== src/Tui/Pipe/Tests.antt =====
-- The goroutines of `Run`, at concrete data: two loops, and what the screen shows in the end.
use text.Mathlib.Text.{◌==◌ as str_eq}
use text.Mathlib.TextEquality.{eq_iff}
use bumblebee.Common.{
  ◌+◌, ◌*◌, ◌≤◌, ◌⊎◌, ◌∙◌, Bool-cases, true, List, ℕ, ◌≡◌, refl, ◌≢◌, String, Option, some, none,
  [], ◌∷◌, arith, inl, inr, length,
}
use bumblebee.Bpf.Context.{from_bytes}
use bumblebee.Decoder.Types.{little, int, unsigned, signed}
use bumblebee.Decoder.Decode.{value_of}
use bumblebee.Decoder.Format.{
  of_uint, of_sint, itself, plain, renamed, IsPlainName, EncodesAll, stop, piece, Distinct,
}
use bumblebee.Loader.Types.{MapEntry, MapType, ring_buf, hash, unspecified, Labels}
use bumblebee.Loader.Watch.{
  stringify, sets, increment_counter, set_counter, returned, waiting, sample, closed, tick,
  start_ring_buf, start_hash_map,
}
use bumblebee.Loader.Watch.Streams.{Stream, reader_closed, value, start_ring_buf-Stream}
use bumblebee.Loader.Watch.Ticks.{Ticks, no_more, ticks, start_hash_map-Ticks}
use bumblebee.Loader.Samples.{pid_members, table_types, counts, raw, fields, five, sprint}
use bumblebee.Common.Dict.{lookup, insert}
use bumblebee.Tui.Filter.{Regexp, Filters, filter_match, any_match}
use bumblebee.Tui.Table.{MapValue, Tui, ring_rows, watch_entry}
use bumblebee.Tui.Table.Rows.{Shows}
use bumblebee.Tui.Table.Hashes.{shown}
use bumblebee.Tui.Table.Latest.{IsHashTable, last_sent}
use bumblebee.Tui.Screen.{
  sort_strings, make_map_value, draw, find_by_index, select_table, next_table,
}
use bumblebee.Tui.Pipe.{
  Announcement, ctrl_n, press, announce, drawn, key, open_pipe, Pipe, DistinctNames, send_entry,
  close_entries, receive, finish, Run, here, then_step,
}
use bumblebee.Tui.Pipe.Ends.{unsent, Locked, CanStep, goroutines_end}
use bumblebee.Tui.Pipe.Orders.{SendOwn}
use bumblebee.Tui.Pipe.Displays.{samples_displayed, values_displayed}
use bumblebee.Tui.Display.{sent, send_entries, sample_entry, map_entry, passing}

abbrev whole : Regexp
whole = record {
  Regex = String;
  must_compile = λ pattern. some pattern;
  match_string = λ regex text. str_eq regex text;
}

-- `events pid 7`.
abbrev of_pid : Option (Filters whole)
of_pid = some (("m", record { map_name = "m"; key_field = "pid"; regex = "7" }) ∷ [])

abbrev hash_of : Labels → ℕ
hash_of = length

abbrev mv : MapType → MapValue
mv typ = record {
  entries = [];
  table = λ r c. none;
  index = 0;
  typ = typ;
  keys = "pid" ∷ "ret" ∷ [];
}

abbrev start : MapType → Tui
start typ = record {
  map_of_maps = ("m", mv typ) ∷ [];
  current_index = 0;
  focus = some "m";
  readers = 0;
  queue = [];
}

encoded : EncodesAll little pid_members fields raw
unfolding value_of from_bytes
encoded =
    piece "pid" (int "unsigned int" 4 32 unsigned) 0 _ _ _ (7 ∷ 0 ∷ 0 ∷ 0 ∷ []) (2 ∷ 0 ∷ 0 ∷ 0 ∷ [])
      _ (plain _ (of_uint "unsigned int" 4 32 (refl, inr (inr (inl refl))) refl refl))
      (piece "ret" (int "int" 4 32 signed) 32 _ _ _ (2 ∷ 0 ∷ 0 ∷ 0 ∷ []) [] _
        (plain _ (of_sint "int" 4 32 (refl, inr (inr (inl refl))) refl refl)) stop refl)
      refl

fields-Distinct : Distinct fields
fields-Distinct = ((ground (arith, eq_iff "ret" "pid"), tt), (tt, tt))

one_sample : Stream little pid_members (sample raw [] ∷ closed ∷ []) (fields ∷ []) returned
one_sample =
    value raw [] raw [] fields (closed ∷ []) [] returned encoded (omega arith) fields-Distinct refl
      (reader_closed [])

plain_name : IsPlainName "u64"
plain_name = (
  ground (arith, eq_iff "u64" "duration"),
  ground (arith, eq_iff "u64" "ipv4_addr"),
  ground (arith, eq_iff "u64" "ipv6_addr"),
)

one_tick : Ticks little pid_members counts (tick ((raw, five) ∷ []) ∷ []) ((fields, 5) ∷ []) waiting
unfolding value_of from_bytes
one_tick =
    ticks ((fields, 5) ∷ []) [] _ ((raw, five) ∷ []) [] waiting
      (
        (
          encoded,
          omega arith,
          fields-Distinct,
          renamed "u64" _ _ plain_name (itself _ refl)
              (of_uint "unsigned long long" 8 64 (refl, inr (inr (inr refl))) refl refl),
          omega arith,
        ),
        tt,
      )
      refl no_more

-- The entry of another map.
abbrev foreign : MapEntry
foreign = record { name = "x"; entry = record { key = []; value = ""; hash = 0 } }

foreign_ne : foreign.name ≢ "m"
foreign_ne = ground (arith, eq_iff "x" "m")

abbrev sample_sent : MapEntry
sample_sent = record { name = "m"; entry = sample_entry whole of_pid little sprint "m" fields }

abbrev entry_sent : MapEntry
entry_sent = record { name = "m"; entry = map_entry whole of_pid little sprint "m" (fields, 5) }

-- A loop with one entry for `m`, next to one with an entry for another map.
abbrev two_senders : MapEntry → List (String × List MapEntry)
two_senders e = ("m", e ∷ []) ∷ ("x", foreign ∷ []) ∷ []

-- The map `x` is announced after the start.
abbrev late : List Announcement
late = record { name = "x"; keys = []; typ = unspecified } ∷ []

abbrev other_value : MapValue
other_value = record { entries = []; table = λ r c. none; index = 1; typ = unspecified; keys = [] }

-- The screen with both maps, and after the key that selects the second.
abbrev both : MapType → List (Option String) → Tui
both typ queue = record (start typ) {
  map_of_maps = ("m", mv typ) ∷ ("x", other_value) ∷ [];
  queue = queue;
}

abbrev selected : MapType → Tui
selected typ = record (both typ []) { current_index = 1; focus = some "x"; readers = 1 }

abbrev after_all : MapEntry → MapType → Pipe
after_all e typ = record {
  senders = ("m", []) ∷ ("x", []) ∷ [];
  to_announce = [];
  drawing = [];
  pressed = [];
  buffer = [];
  is_closed = true;
  ended = true;
  screen = watch_entry hash_of e (watch_entry hash_of foreign (selected typ));
}

-- `x` is announced and drawn, and a key selects it; both send, its loop first; then `watch` takes both,
-- the channel is closed, and `watch` returns.
all_steps :
    (e : MapEntry) (typ : MapType)
    → Run hash_of
        (open_pipe (two_senders e) late (ctrl_n ∷ []) (start typ))
        9
        (foreign ∷ e ∷ [])
        (after_all e typ)
unfolding open_pipe lookup insert make_map_value sort_strings draw press next_table select_table
    find_by_index
all_steps e typ =
    then_step 8 9 (foreign ∷ e ∷ []) [] _ _ _ closed_run (finish refl refl refl refl) refl refl
  where
    start_pipe : Pipe
    start_pipe = open_pipe (two_senders e) late (ctrl_n ∷ []) (start typ)

    a1 : Pipe
    a1 = record start_pipe { to_announce = []; drawing = "x" ∷ []; screen = both typ (none ∷ []) }

    a2 : Pipe
    a2 = record a1 { drawing = []; screen = both typ [] }

    p0 : Pipe
    p0 = record a2 { pressed = []; screen = selected typ }

    p1 : Pipe
    p1 = record p0 { senders = ("m", e ∷ []) ∷ ("x", []) ∷ []; buffer = foreign ∷ [] }

    p2 : Pipe
    p2 = record p1 { senders = ("m", []) ∷ ("x", []) ∷ []; buffer = foreign ∷ e ∷ [] }

    p3 : Pipe
    p3 = record p2 { buffer = e ∷ []; screen = watch_entry hash_of foreign (selected typ) }

    p4 : Pipe
    p4 = record p3 {
      buffer = [];
      screen = watch_entry hash_of e (watch_entry hash_of foreign (selected typ));
    }

    run_a1 : Run hash_of start_pipe 1 [] a1
    run_a1 =
        then_step 0 1 [] [] [] _ a1 here (announce _ [] (both typ (none ∷ [])) refl refl refl) refl
          refl

    run_a2 : Run hash_of start_pipe 2 [] a2
    run_a2 = then_step 1 2 [] [] [] a1 a2 run_a1 (drawn "x" [] refl refl) refl refl

    run0 : Run hash_of start_pipe 3 [] p0
    run0 = then_step 2 3 [] [] [] a2 p0 run_a2 (key ctrl_n [] refl refl) refl refl

    run1 : Run hash_of start_pipe 4 [] p1
    run1 =
        then_step 3 4 [] [] [] p0 p1 run0
          (send_entry "x" foreign [] refl tt tt (omega arith) refl refl) refl refl

    run2 : Run hash_of start_pipe 5 [] p2
    run2 =
        then_step 4 5 [] [] [] p1 p2 run1 (send_entry "m" e [] refl tt tt (omega arith) refl refl)
          refl refl

    run3 : Run hash_of start_pipe 6 (foreign ∷ []) p3
    run3 =
        then_step 5 6 [] (foreign ∷ []) (foreign ∷ []) p2 p3 run2
          (receive foreign (e ∷ []) (foreign ∷ []) refl refl refl refl) refl refl

    run4 : Run hash_of start_pipe 7 (foreign ∷ e ∷ []) p4
    run4 =
        then_step 6 7 (foreign ∷ []) (e ∷ []) (foreign ∷ e ∷ []) p3 p4 run3
          (receive e [] (e ∷ []) refl refl refl refl) refl refl

    closed_run : Run hash_of start_pipe 8 (foreign ∷ e ∷ []) (record p4 { is_closed = true })
    closed_run =
        then_step 7 8 (foreign ∷ e ∷ []) [] (foreign ∷ e ∷ []) p4 _ run4
          (close_entries (refl, (refl, tt)) refl refl refl refl) refl refl

two_senders-DistinctNames : (e : MapEntry) → DistinctNames (two_senders e)
two_senders-DistinctNames e = ((foreign_ne, tt), (tt, tt))

two_senders-SendOwn : (e : MapEntry) → e.name ≡ "m" → SendOwn (two_senders e)
unfolding lookup
two_senders-SendOwn e named k es found = elim (Bool-cases (str_eq "m" k)) [
  | inl is_m ↦
      let is : es ≡ e ∷ [] = ground (arith, is_m, found) in
      rw is (named ∙ (eq_iff "m" k).0 is_m, tt)
  | inr not_m ↦ elim (Bool-cases (str_eq "x" k)) [
    | inl is_x ↦
        let is : es ≡ foreign ∷ [] = ground (arith, not_m, is_x, found) in
        rw is ((eq_iff "x" k).0 is_x, tt)
    | inr not_x ↦ absurd (ground (arith, not_m, not_x, found))
  ]
]

goroutines_end_example :
    (9 ≤ 2 * unsent (two_senders sample_sent) + 2 * length late + 1 + 2)
    × (((after_all sample_sent ring_buf).ended ≡ true)
        ⊎ (Locked hash_of (after_all sample_sent ring_buf)
            ⊎ CanStep hash_of (after_all sample_sent ring_buf)))
goroutines_end_example =
    goroutines_end hash_of (two_senders sample_sent) late (ctrl_n ∷ []) (start ring_buf)
      (after_all sample_sent ring_buf) 9 (foreign ∷ sample_sent ∷ [])
      (two_senders-DistinctNames sample_sent) (all_steps sample_sent ring_buf)

sample_sends :
    lookup "m" (two_senders sample_sent)
    ≡ some (
        send_entries whole of_pid (
          sent
            (start_ring_buf little sprint
              (some pid_members)
              increment_counter
              "m"
              (sample raw [] ∷ closed ∷ [])).0))
unfolding send_entries filter_match any_match lookup stringify
sample_sends =
    rw
      (start_ring_buf-Stream little sprint increment_counter "m" pid_members (λ e. cc e)
        (sample raw [] ∷ closed ∷ []) (fields ∷ []) returned one_sample)
      refl

entry_sends :
    lookup "m" (two_senders entry_sent)
    ≡ some (
        send_entries whole of_pid (
          sent
            (start_hash_map little sprint
              (some table_types)
              set_counter
              "m"
              (tick ((raw, five) ∷ []) ∷ [])).0))
unfolding send_entries filter_match any_match lookup stringify sets
entry_sends =
    rw
      (start_hash_map-Ticks little sprint set_counter "m" table_types pid_members counts refl refl
        (tick ((raw, five) ∷ []) ∷ []) ((fields, 5) ∷ []) waiting one_tick)
      refl

samples_displayed_example :
    (after : MapValue) × (lookup "m" (after_all sample_sent ring_buf).screen.map_of_maps
      ≡ some after)
    × (after.entries
        ≡ passing whole of_pid little sprint "m"
            (sample_entry whole of_pid little sprint "m")
            (fields ∷ []))
    × Shows ring_rows after
unfolding lookup
samples_displayed_example =
    samples_displayed whole of_pid little sprint "m" hash_of pid_members increment_counter
      (sample raw [] ∷ closed ∷ []) (fields ∷ []) (two_senders sample_sent) late (ctrl_n ∷ [])
      (start ring_buf) (mv ring_buf) (after_all sample_sent ring_buf) 9 (foreign ∷ sample_sent ∷ [])
      (λ e. cc e) one_sample sample_sends (two_senders-SendOwn sample_sent refl) (foreign_ne, tt)
      refl refl (λ i j. refl) (all_steps sample_sent ring_buf) refl

values_displayed_example :
    (after : MapValue) × (lookup "m" (after_all entry_sent hash).screen.map_of_maps ≡ some after)
    × IsHashTable hash_of after
    × ((h : ℕ)
        → shown h after.entries
          ≡ last_sent hash_of h
              (passing whole of_pid little sprint "m"
                (map_entry whole of_pid little sprint "m")
                ((fields, 5) ∷ []))
              none)
unfolding lookup
values_displayed_example =
    values_displayed whole of_pid little sprint "m" hash_of table_types pid_members counts
      set_counter (tick ((raw, five) ∷ []) ∷ []) ((fields, 5) ∷ []) waiting (two_senders entry_sent)
      late (ctrl_n ∷ []) (start hash) (mv hash) (after_all entry_sent hash) 9
      (foreign ∷ entry_sent ∷ []) refl refl one_tick entry_sends
      (two_senders-SendOwn entry_sent refl) (foreign_ne, tt) refl
      (record { is_hash = refl; once = tt; hashed = tt; shows = λ i j. refl })
      (all_steps entry_sent hash) refl
