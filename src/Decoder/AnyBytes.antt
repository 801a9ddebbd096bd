-- ===== src/Decoder/AnyBytes.antt =====
-- What pkg/decoder/decoder.go makes of any bytes in the place of a member.
use text.Mathlib.TextEquality.{eq_iff}
use bumblebee.Common.{
  ℕ, ◌+◌, ◌^◌, ◌<◌, ◌≡◌, refl, ◌∙◌, inl, inr, String, List, ◌++◌, ◌*◌, ◌⊎◌, take, Option-cases,
  length, arith,
}
use bumblebee.Decoder.Types.{
  Endian, unsigned, BtfType, int, typedef, Value, uint, sint, float_bits, str, duration, ip,
  Outcome, ok, panic,
}
use bumblebee.Decoder.Decode.{
  value_of, read_chars, index_nul, text_of, special, u64_to_duration, u32_to_ip, put_uint32,
  handle_array, process_plain, process_single_type, get_underlying_type,
}
use bumblebee.Decoder.Format.{
  IsWidth, EncodesPlain, of_uint, of_sint, of_float, of_chars, StandsFor, through, Encodes, plain,
  renamed, of_duration, of_address,
}
use bumblebee.Decoder.RoundTrip.{process_plain-EncodesPlain, read_chars-append}
use bumblebee.Decoder.Typedef.{
  underlying-StandsFor, underlying-EncodesPlain, single-EncodesPlain, special-IsPlainName,
}

-- A value and the place behind it, or a panic.
abbrev pub ReadOrPanic : Outcome (Value × ℕ) → ℕ → Type 0
ReadOrPanic r next = ((w : Value) × (r ≡ ok (w, next))) ⊎ (r ≡ panic)

-- Any bytes of the right number in the place of an encoding: they are a value of the type, but for an
-- array of chars without an end, which panics.
module _ (order : Endian) (pre bs post : List ℕ) (bound : length pre + length bs < 2 ^ 32) where
  process_plain_any :
      (v : Value) (whole : List ℕ) (t : BtfType)
      → length bs ≡ length whole
      → EncodesPlain order v whole t
      → ReadOrPanic
          (process_plain order (pre ++ (bs ++ post)) t (length pre))
          (length pre + length bs)
  unfolding process_plain handle_array text_of
  process_plain_any v whole t same (of_uint name n w width l e) = inl (
    uint w (value_of order bs),
    process_plain-EncodesPlain order pre bs post bound _ t (of_uint name n w width (same ∙ l) refl),
  )
  process_plain_any v whole t same (of_sint name n w width l e) = inl (
    sint w (value_of order bs),
    process_plain-EncodesPlain order pre bs post bound _ t (of_sint name n w width (same ∙ l) refl),
  )
  process_plain_any v whole t same (of_float n width l e) = inl (
    float_bits (8 * n) (value_of order bs),
    process_plain-EncodesPlain order pre bs post bound _ t (of_float n width (same ∙ l) refl),
  )
  process_plain_any v whole t same (of_chars name size w n e cs rest char one clean is_whole l is) =
      let chars : read_chars order (pre ++ (bs ++ post)) n (length pre)
          ≡ ok (bs, length pre + length bs) =
        rw (← l, ← same) (read_chars-append order pre bs post bound) in
      elim (Option-cases (index_nul bs)) [
        | inl no_end ↦ inr (ground (arith, chars, no_end, one, char, eq_iff name "char"))
        | inr (k, found) ↦
            inl (str (take k bs), ground (arith, chars, found, one, char, eq_iff name "char"))
      ]

  typedef_any :
      (v : Value) (whole : List ℕ) (name : String) (t u : BtfType)
      → length bs ≡ length whole
      → StandsFor u t
      → EncodesPlain order v whole u
      → ((w : Value)
          → process_plain order (pre ++ (bs ++ post)) u (length pre)
            ≡ ok (w, length pre + length bs)
          → (x : Value) × (special order name w ≡ ok x))
      → ReadOrPanic
          (process_single_type order (pre ++ (bs ++ post)) (typedef name t) (length pre))
          (length pre + length bs)
  unfolding process_single_type
  typedef_any v whole name t u same s h becomes =
      let base : get_underlying_type (typedef name t) ≡ u =
        underlying-StandsFor u (typedef name t) (through name t s)
          (underlying-EncodesPlain order v whole u h) in
      elim (process_plain_any v whole u same h) [
        | inr fails ↦ inr (ground (arith, base, fails))
        | inl (w, gives) ↦ let (x, is) = becomes w gives in inl (x, ground (arith, base, gives, is))
      ]

  -- A number of one of the special types.
  number_any :
      (name base : String) (n w : ℕ) (t : BtfType) (x : Value)
      → StandsFor (int base n w unsigned) t
      → length bs ≡ n
      → IsWidth n w
      → special order name (uint w (value_of order bs)) ≡ ok x
      → ReadOrPanic
          (process_single_type order (pre ++ (bs ++ post)) (typedef name t) (length pre))
          (length pre + length bs)
  unfolding process_single_type
  number_any name base n w t x s l width is =
      let u = int base n w unsigned in
      let h = of_uint base n w width l refl in
      let under : get_underlying_type (typedef name t) ≡ u =
        underlying-StandsFor u (typedef name t) (through name t s)
          (underlying-EncodesPlain order (uint w (value_of order bs)) bs u h) in
      let gives =
        process_plain-EncodesPlain order pre bs post bound (uint w (value_of order bs)) u h in
      inl (x, ground (arith, under, gives, is))

  pub process_single_type_any :
      (v : Value) (whole : List ℕ) (t : BtfType)
      → length bs ≡ length whole
      → Encodes order v whole t
      → ReadOrPanic
          (process_single_type order (pre ++ (bs ++ post)) t (length pre))
          (length pre + length bs)
  unfolding special u64_to_duration u32_to_ip
  process_single_type_any v whole t same (plain _ h) =
      rw (single-EncodesPlain order (pre ++ (bs ++ post)) (length pre) whole v t h)
        (process_plain_any v whole t same h)
  process_single_type_any v whole t same (renamed name s u p r h) =
      typedef_any v whole name s u same r h (λ w gives. (w, special-IsPlainName order name w p))
  process_single_type_any v whole t same (of_duration name base s n r l e) =
      number_any name base 8 64 s (duration (value_of order bs)) r (same ∙ l)
        (refl, inr (inr (inr refl))) (rw n refl)
  process_single_type_any v whole t same (of_address name base s (inl n) r l small e) =
      number_any name base 4 32 s (ip (put_uint32 order (value_of order bs))) r (same ∙ l)
        (refl, inr (inr (inl refl))) (rw n refl)
  process_single_type_any v whole t same (of_address name base s (inr n) r l small e) =
      number_any name base 4 32 s (ip (put_uint32 order (value_of order bs))) r (same ∙ l)
        (refl, inr (inr (inl refl))) (rw n refl)
