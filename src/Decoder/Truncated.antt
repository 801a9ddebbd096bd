-- ===== src/Decoder/Truncated.antt =====
-- pkg/decoder/decoder.go on raw bytes whose capacity ends too early.
use text.Mathlib.TextEquality.{eq_iff}
use mathlib.Core.List.{append_assoc}
use native.Mathlib.Decide.{dec_le}
use bumblebee.Common.{
  ℕ, zero, suc, ◌+◌, ◌^◌, ◌≤◌, ◌<◌, ◌≡◌, refl, ap, ◌∙◌, inl, inr, String, List, [], ◌∷◌, ◌++◌,
  length, length-append, arith,
}
use bumblebee.Decoder.Types.{
  Endian, unsigned, BtfType, int, typedef, struct, BtfMembers, Value, uint, panic,
}
use bumblebee.Decoder.Decode.{
  add_u32, slice, value_of, read_chars, handle_array, handle_int, handle_uint, handle_float,
  process_plain, process_single_type, get_underlying_type, Fields, insert, decode_members,
  decode_btf_binary,
}
use bumblebee.Decoder.Format.{
  EncodesPlain, of_uint, of_sint, of_float, of_chars, StandsFor, through, Encodes, plain, renamed,
  of_duration, of_address, EncodesAll, stop, piece,
}
use bumblebee.Decoder.RoundTrip.{slice-append, binary_read-all}
use bumblebee.Decoder.AnyBytes.{process_single_type_any}
use bumblebee.Decoder.Typedef.{underlying-StandsFor, underlying-EncodesPlain, single-EncodesPlain}

slice_short :
    (pre bs : List ℕ) (n : ℕ)
    → length bs < n
    → length pre + n < 2 ^ 32
    → slice (pre ++ bs) (length pre) (add_u32 (length pre) n) ≡ panic
unfolding slice
slice_short pre bs n short bound = ground (arith, length-append pre bs)

module _ (order : Endian) where
  read_chars_short :
      (n : ℕ) (pre bs : List ℕ)
      → length bs < n
      → length pre + n < 2 ^ 32
      → read_chars order (pre ++ bs) n (length pre) ≡ panic
  unfolding read_chars
  read_chars_short zero pre bs short bound = ground arith
  read_chars_short (suc n) pre [] short bound = ground (arith, slice_short pre [] 1)
  read_chars_short (suc n) pre (b ∷ bs) short bound =
      let len : length (pre ++ (b ∷ [])) ≡ add_u32 (length pre) 1 =
        omega (arith, length-append pre (b ∷ [])) in
      let rest =
        rw (append_assoc pre (b ∷ []) bs, len) at
          (read_chars_short n (pre ++ (b ∷ [])) bs (omega arith)
            (omega (arith, length-append pre (b ∷ [])))) in
      ground
        (arith, rest, slice-append pre (b ∷ []) bs 1 refl, binary_read-all order (b ∷ []) 1 refl)

module _ (order : Endian) (pre bs whole : List ℕ) (short : length bs < length whole)
    (bound : length pre + length whole < 2 ^ 32) where
  process_plain_short :
      (v : Value) (t : BtfType)
      → EncodesPlain order v whole t
      → process_plain order (pre ++ bs) t (length pre) ≡ panic
  unfolding process_plain handle_uint handle_int handle_float handle_array
  process_plain_short v t (of_uint name n w width l e) = ground (arith, slice_short pre bs n)
  process_plain_short v t (of_sint name n w width l e) = ground (arith, slice_short pre bs n)
  process_plain_short v t (of_float n width l e) = ground (arith, slice_short pre bs n)
  process_plain_short v t (of_chars name size w n e cs rest char one clean is_whole l is) =
      ground (arith, read_chars_short order n pre bs, eq_iff name "char")

  typedef_short :
      (v : Value) (name : String) (t u : BtfType)
      → StandsFor u t
      → EncodesPlain order v whole u
      → process_single_type order (pre ++ bs) (typedef name t) (length pre) ≡ panic
  unfolding process_single_type
  typedef_short v name t u s h =
      let base : get_underlying_type (typedef name t) ≡ u =
        underlying-StandsFor u (typedef name t) (through name t s)
          (underlying-EncodesPlain order v whole u h) in
      ground (arith, base, process_plain_short v u h)

  process_single_type_short :
      (v : Value) (t : BtfType)
      → Encodes order v whole t
      → process_single_type order (pre ++ bs) t (length pre) ≡ panic
  process_single_type_short v t (plain _ h) =
      single-EncodesPlain order (pre ++ bs) (length pre) whole v t h ∙ process_plain_short v t h
  process_single_type_short v t (renamed name s u p r h) = typedef_short v name s u r h
  process_single_type_short v t (of_duration name base s n r l e) =
      typedef_short (uint 64 (value_of order whole)) name s (int base 8 64 unsigned) r
        (of_uint base 8 64 (refl, inr (inr (inr refl))) l refl)
  process_single_type_short v t (of_address name base s n r l small e) =
      typedef_short (uint 32 (value_of order whole)) name s (int base 4 32 unsigned) r
        (of_uint base 4 32 (refl, inr (inr (inl refl))) l refl)

split_length :
    (n : ℕ) (p : List ℕ)
    → n ≤ length p
    → (q : List ℕ) × (rest : List ℕ) × (p ≡ q ++ rest) × (length q ≡ n)
split_length zero p h = ([], p, refl, refl)
split_length (suc n) [] h = absurd (omega arith)
split_length (suc n) (a ∷ p) h =
    let (q, rest, is, l) = split_length n p (omega arith) in (a ∷ q, rest, cc is, omega (arith, l))

decode_members_short :
    (order : Endian) (ms : BtfMembers) (vs : Fields) (whole p pre : List ℕ) (acc : Fields)
    → EncodesAll order ms vs whole
    → length p < length whole
    → length pre + length whole < 2 ^ 32
    → decode_members order (pre ++ p) ms (length pre) acc ≡ panic
unfolding decode_members
decode_members_short order ms vs whole p pre acc stop short bound = absurd (omega arith)
decode_members_short order ms vs whole p pre acc
      (piece name t at rest_ms v rest_vs bs rest _ h hs is_whole) short bound =
    let lengths : length whole ≡ length bs + length rest = rw is_whole (length-append bs rest) in
    elim (dec_le (length bs) (length p)) [
      | no less ↦
          rw (process_single_type_short order pre p bs (omega arith) (omega (arith, lengths)) v t h)
            refl
      | yes more ↦
          let (q, left, is, l) = split_length (length bs) p more in
          let read =
            rw (← is) at
              (process_single_type_any order pre q left (omega (arith, lengths, l)) v bs t l h) in
          elim read [
            | inr fails ↦ rw fails refl
            | inl (w, gives) ↦ rw gives (
                rw (append_assoc pre q left, length-append pre q, ← is) at
                  (decode_members_short order rest_ms rest_vs rest left (pre ++ q)
                    (insert name w acc) hs
                    (omega (arith, lengths, l, length-append q left, ap length is))
                    (omega (arith, lengths, l, length-append pre q))))
          ]
    ]

-- Where the structure reaches beyond the capacity of the raw bytes, the decoder panics, whatever the
-- bytes are: no part of the structure is returned, and no error. The members are those of a structure
-- of fewer than 2 ^ 32 bytes without padding.
pub truncated_panics :
    (order : Endian) (ms : BtfMembers) (vs : Fields) (whole raw : List ℕ)
    → EncodesAll order ms vs whole
    → length raw < length whole
    → length whole < 2 ^ 32
    → decode_btf_binary order (struct ms) raw ≡ panic
unfolding decode_btf_binary
truncated_panics order ms vs whole raw h short bound =
    decode_members_short order ms vs whole raw [] [] h short (omega arith)
