-- ===== src/Loader/Watch/Streams.antt =====
-- `startRingBuf` of pkg/loader/loader.go over everything that a reader can give.
use bumblebee.Common.{ℕ, ◌^◌, ◌<◌, ◌≡◌, refl, ◌≢◌, String, some, List, [], ◌∷◌, ◌++◌, length, arith}
use bumblebee.Decoder.Types.{Endian, BtfMembers, struct, Value, Outcome}
use bumblebee.Decoder.Decode.{Fields, decode_btf_binary}
use bumblebee.Decoder.Format.{EncodesAll, Distinct}
use bumblebee.Decoder.Struct.{decode_btf_binary-EncodesAll}
use bumblebee.Decoder.Truncated.{truncated_panics}
use bumblebee.Loader.Types.{Labels}
use bumblebee.Loader.Watch.{
  IncrementInstrument, increment_counter, nil_instrument, Effect, increment, send, Status, waiting,
  returned, panicked, go, stop, decode, Read, sample, read_error, closed, stringify, entry_of,
  increments, ring_sample, start_ring_buf,
}

-- What a reader gives, with the values that the samples hold and where the loop ends: it waits if
-- there is no more, returns if the reader is closed, and panics at a sample
-- whose capacity ends before the structure does.
pub data Stream (order : Endian) (ms : BtfMembers) : List Read → List Fields → Status → Type 0 where
  no_more : Stream order ms [] [] waiting
  reader_closed : (reads : List Read) → Stream order ms (closed ∷ reads) [] returned
  reader_fails :
      (reads : List Read) (values : List Fields) (s : Status)
      → Stream order ms reads values s
      → Stream order ms (read_error ∷ reads) values s
  value :
      (raw rest bytes spare : List ℕ) (fields : Fields) (reads : List Read) (values : List Fields)
      (s : Status)
      → EncodesAll order ms fields raw
      → length raw < 2 ^ 32
      → Distinct fields
      → bytes ++ spare ≡ raw ++ rest
      → Stream order ms reads values s
      → Stream order ms (sample bytes spare ∷ reads) (fields ∷ values) s
  cut_off :
      (whole bytes spare : List ℕ) (fields : Fields) (reads : List Read)
      → EncodesAll order ms fields whole
      → length (bytes ++ spare) < length whole
      → length whole < 2 ^ 32
      → Stream order ms (sample bytes spare ∷ reads) [] panicked

-- What the instrument is told of a sample.
abbrev pub counted : IncrementInstrument → Labels → List Effect
counted increment_counter labels = increment labels ∷ []
counted _ labels = []

module _ (order : Endian) (sprint : Value → String) (instr : IncrementInstrument)
    (name : String) where
  -- A sample counts at its labels, if the instrument counts, and is sent on.
  abbrev pub reported : Fields → List Effect
  reported fields =
      let labels = stringify order sprint fields in
      counted instr labels ++ (send (entry_of order sprint name labels "") ∷ [])

  abbrev pub all_reported : List Fields → List Effect
  all_reported [] = []
  all_reported (fields ∷ values) = reported fields ++ all_reported values

  module _ (ms : BtfMembers) (has_instrument : instr ≢ nil_instrument) where
    increments-counted :
        (i : IncrementInstrument) (labels : Labels)
        → i ≢ nil_instrument
        → increments order sprint i labels ≡ go (counted i labels)
    unfolding increments
    increments-counted increment_counter labels h = refl
    increments-counted IncrementInstrument.noop labels h = refl
    increments-counted nil_instrument labels h = absurd (h refl)

    ring_sample-ok :
        (raw : List ℕ) (fields : Fields)
        → decode_btf_binary order (struct ms) raw ≡ Outcome.ok fields
        → ring_sample order sprint (some ms) instr name raw ≡ go (reported fields)
    unfolding ring_sample decode
    ring_sample-ok raw fields h =
        ground (arith, h, increments-counted instr (stringify order sprint fields) has_instrument)

    ring_sample-panic :
        (raw : List ℕ)
        → decode_btf_binary order (struct ms) raw ≡ Outcome.panic
        → ring_sample order sprint (some ms) instr name raw ≡ stop panicked
    unfolding ring_sample decode
    ring_sample-panic raw h = ground (arith, h)

    -- With an instrument, the loop over a ring buffer reports the values of the samples, in order and
    -- once each, and passes over errors of the reader. It returns when the reader is closed, waits when
    -- there is no more, and panics at a sample whose capacity is too small, after all before it are reported.
    pub start_ring_buf-Stream :
        (reads : List Read) (values : List Fields) (s : Status)
        → Stream order ms reads values s
        → start_ring_buf order sprint (some ms) instr name reads ≡ (all_reported values, s)
    unfolding start_ring_buf
    start_ring_buf-Stream reads values s no_more = refl
    start_ring_buf-Stream reads values s (reader_closed more) = refl
    start_ring_buf-Stream reads values s (reader_fails more _ _ r) =
        start_ring_buf-Stream more values s r
    start_ring_buf-Stream reads values s
          (value raw rest bytes spare fields more vs _ enc bound distinct e r) =
        let decoded : decode_btf_binary order (struct ms) (bytes ++ spare) ≡ Outcome.ok fields =
          rw e (decode_btf_binary-EncodesAll order ms fields raw rest enc bound distinct) in
        ground
          (arith, ring_sample-ok (bytes ++ spare) fields decoded, start_ring_buf-Stream more vs s r)
    start_ring_buf-Stream reads values s (cut_off whole bytes spare fields more enc short bound) =
        ground (
          arith,
          ring_sample-panic (bytes ++ spare)
              (truncated_panics order ms fields whole (bytes ++ spare) enc short bound),
        )
