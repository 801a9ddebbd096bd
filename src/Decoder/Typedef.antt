-- ===== src/Decoder/Typedef.antt =====
-- The typedefs of pkg/decoder/decoder.go: what a member of a structure decodes to.
use text.Mathlib.TextEquality.{eq_iff}
use bumblebee.Common.{
  ℕ, ◌+◌, ◌^◌, ◌<◌, ◌≡◌, refl, sym, ap, ◌∙◌, ◌⊎◌, inl, inr, String, List, [], ◌∷◌, ◌++◌, length,
  arith,
}
use bumblebee.Bpf.Context.{from_bytes}
use bumblebee.Decoder.Types.{
  Endian, little, big, unsigned, BtfType, int, typedef, Value, uint, duration, ip, ok,
}
use bumblebee.Decoder.Decode.{
  value_of, put_uint32, process_plain, process_single_type, get_underlying_type, special,
  u64_to_duration, u32_to_ip,
}
use bumblebee.Decoder.Format.{
  IsPlainName, EncodesPlain, of_uint, of_sint, of_float, of_chars, StandsFor, itself, through,
  Bytes, Encodes, plain, renamed, of_duration, of_address,
}
use bumblebee.Decoder.RoundTrip.{process_plain-EncodesPlain}

four :
    {a b c d a' b' c' d' : ℕ}
    → a ≡ a'
    → b ≡ b'
    → c ≡ c'
    → d ≡ d'
    → ◌≡◌ {A = List ℕ} (a ∷ b ∷ c ∷ d ∷ []) (a' ∷ b' ∷ c' ∷ d' ∷ [])
four p q r s = λ i. p i ∷ q i ∷ r i ∷ s i ∷ []

-- `PutUint32` writes back the bytes that `binary.Read` found, in either byte order.
put_uint32-value_of :
    (order : Endian) (bs : List ℕ)
    → length bs ≡ 4
    → Bytes bs
    → put_uint32 order (value_of order bs) ≡ bs
unfolding put_uint32 value_of from_bytes
put_uint32-value_of little (a ∷ b ∷ c ∷ d ∷ []) e (ha, (hb, (hc, (hd, _)))) =
    four (omega arith) (omega arith) (omega arith) (omega arith)
put_uint32-value_of big (a ∷ b ∷ c ∷ d ∷ []) e (ha, (hb, (hc, (hd, _)))) =
    four (omega arith) (omega arith) (omega arith) (omega arith)
put_uint32-value_of order [] e h = ground arith
put_uint32-value_of order (a ∷ []) e h = ground arith
put_uint32-value_of order (a ∷ b ∷ []) e h = ground arith
put_uint32-value_of order (a ∷ b ∷ c ∷ []) e h = ground arith
put_uint32-value_of order (a ∷ b ∷ c ∷ d ∷ f ∷ bs) e h = ground arith

pub underlying-StandsFor :
    (u t : BtfType) → StandsFor u t → get_underlying_type u ≡ u → get_underlying_type t ≡ u
unfolding get_underlying_type
underlying-StandsFor u t (itself _ e) h = rw e h
underlying-StandsFor u t (through name s r) h = underlying-StandsFor u s r h

pub underlying-EncodesPlain :
    (order : Endian) (v : Value) (bs : List ℕ) (u : BtfType)
    → EncodesPlain order v bs u
    → get_underlying_type u ≡ u
unfolding get_underlying_type
underlying-EncodesPlain order v bs u (of_uint name n w width l e) = refl
underlying-EncodesPlain order v bs u (of_sint name n w width l e) = refl
underlying-EncodesPlain order v bs u (of_float n width l e) = refl
underlying-EncodesPlain order v bs u (of_chars name size w n e cs rest char one clean whole l is) =
    refl

pub special-IsPlainName :
    (order : Endian) (name : String) (v : Value) → IsPlainName name → special order name v ≡ ok v
unfolding special
special-IsPlainName order name v (a, b, c) =
    ground (arith, eq_iff name "duration", eq_iff name "ipv4_addr", eq_iff name "ipv6_addr")

special-address :
    (order : Endian) (name : String) (bs : List ℕ)
    → (name ≡ "ipv4_addr") ⊎ (name ≡ "ipv6_addr")
    → length bs ≡ 4
    → Bytes bs
    → special order name (uint 32 (value_of order bs)) ≡ ok (ip bs)
unfolding special u32_to_ip
special-address order name bs (inl n) l small =
    rw n (ap (λ x. ok (ip x)) (put_uint32-value_of order bs l small))
special-address order name bs (inr n) l small =
    rw n (ap (λ x. ok (ip x)) (put_uint32-value_of order bs l small))

-- A type that is no typedef is read by `process_plain`.
pub single-EncodesPlain :
    (order : Endian) (raw : List ℕ) (offset : ℕ) (bs : List ℕ) (v : Value) (t : BtfType)
    → EncodesPlain order v bs t
    → process_single_type order raw t offset ≡ process_plain order raw t offset
unfolding process_single_type
single-EncodesPlain order raw offset bs v t (of_uint name n w width l e) = refl
single-EncodesPlain order raw offset bs v t (of_sint name n w width l e) = refl
single-EncodesPlain order raw offset bs v t (of_float n width l e) = refl
single-EncodesPlain order raw offset bs v t
      (of_chars name size w n e cs rest char one clean whole l is) =
    refl

module _ (order : Endian) (pre bs post : List ℕ) (bound : length pre + length bs < 2 ^ 32) where
  -- What a typedef of a type without one decodes to.
  process_typedef :
      (v : Value) (name : String) (t u : BtfType)
      → StandsFor u t
      → EncodesPlain order v bs u
      → (w : Value) → special order name v ≡ ok w
      → process_single_type order (pre ++ (bs ++ post)) (typedef name t) (length pre)
        ≡ ok (w, length pre + length bs)
  unfolding process_single_type
  process_typedef v name t u s h w e =
      let base : get_underlying_type (typedef name t) ≡ u =
        underlying-StandsFor u (typedef name t) (through name t s)
          (underlying-EncodesPlain order v bs u h) in
      ground (arith, base, process_plain-EncodesPlain order pre bs post bound v u h)

  pub process_single_type-Encodes :
      (v : Value) (t : BtfType)
      → Encodes order v bs t
      → process_single_type order (pre ++ (bs ++ post)) t (length pre)
        ≡ ok (v, length pre + length bs)
  unfolding special u64_to_duration u32_to_ip
  process_single_type-Encodes v t (plain _ h) =
      single-EncodesPlain order (pre ++ (bs ++ post)) (length pre) bs v t h
      ∙ process_plain-EncodesPlain order pre bs post bound v t h
  process_single_type-Encodes v t (renamed name s u p r h) =
      process_typedef v name s u r h v (special-IsPlainName order name v p)
  process_single_type-Encodes v t (of_duration name base s n r l e) =
      rw (n, e)
        (process_typedef (uint 64 (value_of order bs)) "duration" s (int base 8 64 unsigned) r
          (of_uint base 8 64 (refl, inr (inr (inr refl))) l refl) (duration (value_of order bs))
          refl)
  process_single_type-Encodes v t (of_address name base s n r l small e) =
      process_typedef (uint 32 (value_of order bs)) name s (int base 4 32 unsigned) r
        (of_uint base 4 32 (refl, inr (inr (inl refl))) l refl) v
        (special-address order name bs n l small ∙ ap (λ x. ok x) (sym e))
