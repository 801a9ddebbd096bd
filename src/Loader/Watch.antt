-- ===== src/Loader/Watch.antt =====
-- pkg/loader/loader.go: `WatchMaps` and the loops over a ring buffer and a hash map. What a loop does
-- to its instrument and its watcher is a list of effects. What `fmt.Sprint` makes of a value is a
-- parameter.
pub mod Dispatch
pub mod Streams
pub mod Ticks
mod Tests
use text.Mathlib.Text.{◌==◌ as str_eq}
use bumblebee.Common.{
  ℕ, String, Bool, true, false, Option, none, some, List, [], ◌∷◌, ◌++◌, length, ltb, ◌==◌,
  if◌then◌else◌,
}
use bumblebee.Decoder.Types.{
  Endian, BtfType, struct, BtfMembers, Value, uint, sint, float_bits, false_value, str, duration,
  ip, Outcome,
}
use bumblebee.Decoder.Decode.{Fields, decode_btf_binary}
use bumblebee.Loader.Types.{
  MapType, hash, array, ring_buf, perf_event_array, unspecified, other_map, BtfMap, MapSpec,
  WatchedMap, LoadError, unsupported_map, decode_error, Result, ok, err, panic, ◌>>=◌, is_print_map,
  is_gauge_map, is_counter_map, Labels, KvPair, MapEntry,
}

-- `stats.IncrementInstrument` and `stats.SetInstrument`; an interface variable that is not assigned is nil.
pub data IncrementInstrument : Type 0 where
  increment_counter noop nil_instrument : IncrementInstrument

pub data SetInstrument : Type 0 where
  set_counter gauge noop : SetInstrument

-- A goroutine of `WatchMaps`. Its first call announces the map to the watcher.
pub data Task : Type 0 where
  ring_task : String → List String → Option BtfMembers → IncrementInstrument → Task
  hash_task : String → List String → MapSpec → SetInstrument → Task

unfoldable pub ring_instrument : MapSpec → IncrementInstrument
ring_instrument spec =
    if is_counter_map spec
    then increment_counter
    else if is_print_map spec
    then IncrementInstrument.noop
    else nil_instrument

unfoldable pub hash_instrument : MapSpec → SetInstrument
hash_instrument spec =
    if is_counter_map spec
    then set_counter
    else if is_gauge_map spec
    then gauge
    else SetInstrument.noop

unfoldable pub task_of : WatchedMap → MapType → Result Task
unfolding ring_instrument hash_instrument
task_of m ring_buf = ok (ring_task m.name m.labels m.value_struct (ring_instrument m.map_spec))
task_of m array = ok (hash_task m.name m.labels m.map_spec (hash_instrument m.map_spec))
task_of m hash = ok (hash_task m.name m.labels m.map_spec (hash_instrument m.map_spec))
task_of m _ = err unsupported_map

unfoldable pub watch_maps : List WatchedMap → Result (List Task)
watch_maps [] = ok []
watch_maps (m ∷ ms) = do t ← task_of m m.map_type; ts ← watch_maps ms; ok (t ∷ ts)

-- A call of the instrument or of the watcher.
pub data Effect : Type 0 where
  increment : Labels → Effect
  set : ℕ → Labels → Effect
  send : MapEntry → Effect

-- Where a loop stands: it waits for more, has returned, or has stopped the whole program.
pub data Status : Type 0 where
  waiting returned panicked exited : Status
  failed : LoadError → Status

-- A part of a round, which goes on or stops the loop.
pub data Round (A : Type 0) : Type 0 where
  go : A → Round A
  stop : Status → Round A

infixl 5 ◌>>>=◌
abbrev pub ◌>>>=◌ : {A B : Type 0} → Round A → (A → Round B) → Round B
go a >>>= f = f a
stop s >>>= f = stop s

-- `DecodeBtfBinary` with its error checks; a nil type panics.
unfoldable pub decode : Endian → Option BtfType → List ℕ → Round Fields
decode order none raw = stop panicked
decode order (some t) raw = elim (decode_btf_binary order t raw) [
  | Outcome.ok fields ↦ go fields
  | Outcome.err e ↦ stop (failed (decode_error e))
  | Outcome.panic ↦ stop panicked
]

-- What a ring buffer reader gives: a sample, with what lies behind it up to the capacity of `RawSample`, an
-- error, or `ringbuf.ErrClosed`.
pub data Read : Type 0 where
  sample : (bytes spare : List ℕ) → Read
  read_error closed : Read

-- What happens in the loop over a hash map: a tick with what the iteration finds, or the end of the
-- context. An error of the iteration ends the tick and is seen by no one, since `Err` is called after
-- a successful `Next` only.
pub data Event : Type 0 where
  tick : List (List ℕ × List ℕ) → Event
  done : Event

-- `decodedValue[""]`.
unfoldable pub nameless : Fields → Option Value
nameless [] = none
nameless ((n, v) ∷ fields) = let rest = nameless fields in if str_eq n "" then some v else rest

-- The checks of a value: one member, of the name "", a `uint64`.
as_uint64 : Option Value → Round ℕ
as_uint64 (some (uint w v)) = if w == 64 then go v else stop exited
as_uint64 _ = stop exited

unfoldable pub int_val : Fields → Round ℕ
unfolding as_uint64 nameless
int_val fields = if ltb 1 (length fields) then stop exited else as_uint64 (nameless fields)

module _ (order : Endian) (sprint : Value → String) where
  unfoldable pub stringify : Fields → Labels
  stringify [] = []
  stringify ((n, v) ∷ fields) = (n, sprint v) ∷ stringify fields

  abbrev pub entry_of : String → Labels → String → MapEntry
  entry_of name key value = record {
    name = name;
    entry = record { key = key; value = value; hash = 0 };
  }

  -- `incrementInstrument.Increment` and `instrument.Set`: the effect, if any.
  increments : IncrementInstrument → Labels → Round (List Effect)
  increments nil_instrument labels = stop panicked
  increments IncrementInstrument.noop labels = go []
  increments increment_counter labels = go (increment labels ∷ [])

  unfoldable pub sets : SetInstrument → ℕ → Labels → List Effect
  sets SetInstrument.noop v labels = []
  sets set_counter v labels = set v labels ∷ []
  sets gauge v labels = set v labels ∷ []

  -- One sample of `startRingBuf`.
  unfoldable pub ring_sample :
      Option BtfMembers → IncrementInstrument → String → List ℕ → Round (List Effect)
  unfolding stringify increments
  ring_sample none instr name raw = stop panicked
  ring_sample (some ms) instr name raw = decode order (some (struct ms)) raw >>>= λ result.
      let labels = stringify result in
      increments instr labels >>>= λ counted. go (counted ++ (send (entry_of name labels "") ∷ []))

  unfoldable pub start_ring_buf :
      Option BtfMembers → IncrementInstrument → String → List Read → List Effect × Status
  start_ring_buf ms instr name [] = ([], waiting)
  start_ring_buf ms instr name (closed ∷ reads) = ([], returned)
  start_ring_buf ms instr name (read_error ∷ reads) = start_ring_buf ms instr name reads
  start_ring_buf ms instr name (sample bytes spare ∷ reads) =
      elim (ring_sample ms instr name (bytes ++ spare)) [
        | stop s ↦ ([], s)
        | go now ↦ let later = start_ring_buf ms instr name reads in (now ++ later.0, later.1)
      ]

  -- One entry of a tick of `startHashMap`.
  unfoldable pub hash_entry :
      Option BtfMap → SetInstrument → String → List ℕ → List ℕ → Round (List Effect)
  unfolding stringify sets int_val
  hash_entry none instr name key value = stop panicked
  hash_entry (some btf) instr name key value = decode order btf.key key >>>= λ decoded_key.
      decode order btf.value value >>>= λ decoded_value. int_val decoded_value >>>= λ v.
      let labels = stringify decoded_key in
      go (sets instr v labels ++ (send (entry_of name labels (sprint (uint 64 v))) ∷ []))

  unfoldable pub hash_tick :
      Option BtfMap → SetInstrument → String → List (List ℕ × List ℕ) → List Effect × Option Status
  hash_tick btf instr name [] = ([], none)
  hash_tick btf instr name ((key, value) ∷ entries) = elim (hash_entry btf instr name key value) [
    | stop s ↦ ([], some s)
    | go now ↦ let later = hash_tick btf instr name entries in (now ++ later.0, later.1)
  ]

  unfoldable pub start_hash_map :
      Option BtfMap → SetInstrument → String → List Event → List Effect × Status
  start_hash_map btf instr name [] = ([], waiting)
  start_hash_map btf instr name (done ∷ events) = ([], returned)
  start_hash_map btf instr name (tick entries ∷ events) =
      let now = hash_tick btf instr name entries in
      elim now.1 [
        | some s ↦ (now.0, s)
        | none ↦ let later = start_hash_map btf instr name events in (now.0 ++ later.0, later.1)
      ]
