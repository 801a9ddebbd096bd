-- ===== src/EndToEnd.antt =====
-- From the probes of examples/tcpconnect/tcpconnect.c through the kernel's ring buffer to the loader of
-- pkg/loader: the bytes of `struct dimensions_t`, and its BTF as clang emits it for
-- builder/solo_types.h.
mod Tests
use text.Mathlib.TextEquality.{eq_iff}
use mathlib.Core.Path.{subst}
use bumblebee.Common.{
  ℕ, ◌+◌, ◌%◌, ◌/◌, ◌^◌, ◌<◌, ◌≡◌, refl, sym, ap, ◌∙◌, ◌≢◌, ◌↔◌, String, Bool, true, false, inl,
  inr, List, [], ◌∷◌, ◌++◌, map, arith, if◌then◌else◌, some, Bool-cases,
}
use bumblebee.Bpf.Equality.{Dimensions, ◌==◌, dimensions_eq, nat_eq, count}
use bumblebee.Bpf.HashMap
use bumblebee.Bpf.HashMap.{HashMap}
use bumblebee.Bpf.RingBuf
use bumblebee.Bpf.RingBuf.{RingBuf}
use bumblebee.TcpConnect.{Maps, Call, run}
use bumblebee.TcpConnect.Laws.{counted as counter, AllAccepted, Agree, run-Agree}
use bumblebee.Decoder.Types.{
  Endian, little, unsigned, BtfType, int, typedef, BtfMembers, end, field, Value, ip,
}
use bumblebee.Decoder.Decode.{Fields, put_uint32}
use bumblebee.Decoder.Format.{
  Bytes, StandsFor, itself, through, Encodes, of_address, EncodesAll, stop, piece, Distinct,
}
use bumblebee.Loader.Types.{Labels}
use bumblebee.Loader.Watch.{
  increment_counter, nil_instrument, Effect, increment, set, send, Status, returned, Read, sample,
  closed, stringify, entry_of, start_ring_buf,
}
use bumblebee.Loader.Watch.Streams.{
  Stream, reader_closed, value, reported, all_reported, start_ring_buf-Stream,
}

abbrev pub ipv4_addr : BtfType
ipv4_addr = typedef "ipv4_addr" (typedef "u32" (typedef "__u32" (int "unsigned int" 4 32 unsigned)))

abbrev pub dimensions_members : BtfMembers
dimensions_members = field "saddr" ipv4_addr 0 (field "daddr" ipv4_addr 32 end)

-- The bytes that the kernel, of little-endian order, has of an event.
abbrev pub bytes_of : Dimensions → List ℕ
bytes_of d = put_uint32 little d.saddr ++ put_uint32 little d.daddr

abbrev pub fields_of : Dimensions → Fields
fields_of d =
    ("saddr", ip (put_uint32 little d.saddr)) ∷ ("daddr", ip (put_uint32 little d.daddr)) ∷ []

-- A reader that gives the events of a ring buffer, and is then closed. The 8 bytes of an event fill the
-- capacity of their sample, which is a multiple of 8.
abbrev pub reads_of : List Dimensions → List Read
reads_of [] = closed ∷ []
reads_of (d ∷ ds) = sample (bytes_of d) [] ∷ reads_of ds

Encodes-address :
    (v : ℕ) → Encodes little (ip (put_uint32 little v)) (put_uint32 little v) ipv4_addr
unfolding put_uint32
Encodes-address v =
    of_address "ipv4_addr" "unsigned int" _ (inl refl)
      (through "u32" _ (through "__u32" _ (itself _ refl))) refl
      (omega arith, (omega arith, (omega arith, (omega arith, tt)))) refl

EncodesAll-bytes_of :
    (d : Dimensions) → EncodesAll little dimensions_members (fields_of d) (bytes_of d)
unfolding put_uint32
EncodesAll-bytes_of d =
    piece "saddr" ipv4_addr 0 _ _ _ (put_uint32 little d.saddr) (put_uint32 little d.daddr) _
      (Encodes-address d.saddr)
      (piece "daddr" ipv4_addr 32 _ _ _ (put_uint32 little d.daddr) [] _ (Encodes-address d.daddr)
        stop refl)
      refl

Distinct-fields_of : (d : Dimensions) → Distinct (fields_of d)
Distinct-fields_of d = ((ground (arith, eq_iff "daddr" "saddr"), tt), (tt, tt))

Stream-reads_of :
    (ds : List Dimensions)
    → Stream little dimensions_members (reads_of ds) (map fields_of ds) returned
unfolding put_uint32
Stream-reads_of [] = reader_closed []
Stream-reads_of (d ∷ ds) =
    value (bytes_of d) [] _ [] (fields_of d) _ _ _ (EncodesAll-bytes_of d) (omega arith)
      (Distinct-fields_of d) refl (Stream-reads_of ds)

-- How often an instrument is incremented at labels that a test accepts.
abbrev pub increments_at : (Labels → Bool) → List Effect → ℕ
increments_at p [] = 0
increments_at p (increment labels ∷ es) = (if p labels then 1 else 0) + increments_at p es
increments_at p (set v labels ∷ es) = increments_at p es
increments_at p (send e ∷ es) = increments_at p es

module _ (sprint : Value → String) where
  abbrev pub labels_of : Dimensions → Labels
  labels_of d = stringify little sprint (fields_of d)

  -- A test accepts the labels of the events of one pair, and of no other.
  abbrev pub Tells : (Labels → Bool) → Dimensions → List Dimensions → Type 0
  Tells p key [] = Unit
  Tells p key (d ∷ ds) = ((p (labels_of d) ≡ true) ↔ (key ≡ d)) × Tells p key ds

  increments-all_reported :
      (p : Labels → Bool) (name : String) (key : Dimensions) (ds : List Dimensions)
      → Tells p key ds
      → increments_at p (all_reported little sprint increment_counter name (map fields_of ds))
        ≡ count key ds
  increments-all_reported p name key [] tells = refl
  increments-all_reported p name key (d ∷ ds) tells =
      ground
        (arith, increments-all_reported p name key ds tells.1, tells.0, dimensions_eq.beq_iff key d)

  module _ (S : HashMap ℕ ℕ) (H : HashMap Dimensions ℕ) (R : RingBuf Dimensions)
      (LH : HashMap.IsLawful H) (LR : RingBuf.IsLawful R) where
    -- What the loader counts from the ring buffer of tcpconnect.c is what the program counted in
    -- its hash map: after any run of the probes whose outputs are accepted, from a state in which
    -- the counters agree with the events, and for any pair of addresses, the increments at the
    -- pair's labels are its counter in the kernel, modulo 2 ^ 64, and the loop returns when the
    -- reader is closed behind the events. A test must tell the labels of the pair from those of the
    -- other events of the ring buffer.
    pub kernel_meets_loader :
        (calls : List Call) (s : Maps S H R) (name : String) (key : Dimensions) (p : Labels → Bool)
        → AllAccepted S H R calls s
        → Agree S H R s
        → Tells p key (R.submitted (run S H R calls s).events_ring)
        → (counter (H.lookup (run S H R calls s).events_hash key)
            ≡ increments_at p
                (start_ring_buf little sprint
                  (some dimensions_members)
                  increment_counter
                  name
                  (reads_of (R.submitted (run S H R calls s).events_ring))).0
              % 2 ^ 64)
          × ((start_ring_buf little sprint
                (some dimensions_members)
                increment_counter
                name
                (reads_of (R.submitted (run S H R calls s).events_ring))).1
              ≡ returned)
    kernel_meets_loader calls s name key p accepted agree tells =
        let events = R.submitted (run S H R calls s).events_ring in
        let loop =
          start_ring_buf-Stream little sprint increment_counter name dimensions_members (λ e. cc e)
            (reads_of events) (map fields_of events) returned (Stream-reads_of events) in
        rw (loop, increments-all_reported p name key events tells)
          (run-Agree S H R LH LR calls s accepted agree key, refl)
