-- ===== src/Decoder/Decode.antt =====
-- pkg/decoder/decoder.go: the functions of the decoder. Its fields `raw` and `offset` are an argument
-- and a state that is passed on; `offset` is a `uint32`. The bytes of `raw` are those up to its capacity.
use mathlib.Core.List.{reverse}
use text.Mathlib.Text.{◌==◌ as str_eq}
use bumblebee.Common.{
  ℕ, zero, suc, ◌+◌, ◌*◌, ◌-◌, ◌/◌, ◌%◌, ◌^◌, String, not, ◌||◌, Option, none, some, List, [], ◌∷◌,
  length, take, drop, ltb, ◌==◌, if◌then◌else◌,
}
use bumblebee.Bpf.Context.{from_bytes}
use bumblebee.Decoder.Types.{
  Endian, little, big, Encoding, BtfType, int, typedef, float, array, struct, other, BtfMembers,
  end, field, Value, uint, sint, float_bits, false_value, str, duration, ip, eof, unexpected_eof,
  should_never_happen, unsupported_type, array_of_no_int, array_of_no_char, array_char_size,
  Outcome, ok, err, panic, ◌>>=◌,
}

abbrev pub add_u32 : ℕ → ℕ → ℕ
add_u32 a b = (a + b) % 2 ^ 32

-- `raw[lo:hi]`, where `raw` stands for all bytes of the slice up to its capacity: Go checks `hi` against the
-- capacity, and the decoder does not look at the length.
unfoldable pub slice : List ℕ → ℕ → ℕ → Outcome (List ℕ)
slice raw lo hi =
    if ltb hi lo || ltb (length raw) hi then panic else ok (take (hi - lo) (drop lo raw))

-- The unsigned number that the bytes are in a byte order, and `PutUint32`.
unfoldable pub value_of : Endian → List ℕ → ℕ
value_of little bs = from_bytes bs
value_of big bs = from_bytes (reverse bs)

unfoldable pub put_uint32 : Endian → ℕ → List ℕ
put_uint32 little v = v % 256 ∷ v / 2 ^ 8 % 256 ∷ v / 2 ^ 16 % 256 ∷ v / 2 ^ 24 % 256 ∷ []
put_uint32 big v = v / 2 ^ 24 % 256 ∷ v / 2 ^ 16 % 256 ∷ v / 2 ^ 8 % 256 ∷ v % 256 ∷ []

-- `binary.Read` of a number of `n` bytes from the front of a buffer. An empty buffer is at its end.
unfoldable pub binary_read : Endian → ℕ → List ℕ → Outcome ℕ
binary_read order n buf =
    if ltb (length buf) n
    then (if length buf == 0 then err eof else err unexpected_eof)
    else ok (value_of order (take n buf))

-- The switch over the width of a number that `handleUint` and `handleInt` have in common.
unfoldable pub read_bits : Endian → ℕ → List ℕ → Outcome ℕ
read_bits order bits buf =
    if bits == 64
    then binary_read order 8 buf
    else if bits == 32
    then binary_read order 4 buf
    else if bits == 16
    then binary_read order 2 buf
    else if bits == 8
    then binary_read order 1 buf
    else err should_never_happen

-- `bytes.IndexByte(slice, 0)`, none for -1.
unfoldable pub index_nul : List ℕ → Option ℕ
index_nul [] = none
index_nul (b ∷ bs) =
    let rest = index_nul bs in
    if b == 0 then some 0 else elim rest [ none ↦ none | some n ↦ some (suc n) ]

-- `slice[:n]`: a string without an end panics.
unfoldable pub text_of : List ℕ → Outcome Value
text_of bytes = elim (index_nul bytes) [ none ↦ panic | some n ↦ ok (str (take n bytes)) ]

unfoldable pub get_underlying_type : BtfType → BtfType
get_underlying_type (typedef name t) = get_underlying_type t
get_underlying_type (int name size bits encoding) = int name size bits encoding
get_underlying_type (float size) = float size
get_underlying_type (array t n) = array t n
get_underlying_type (struct ms) = struct ms
get_underlying_type other = other

unfoldable pub u64_to_duration : Value → Outcome Value
u64_to_duration (uint w v) = if w == 64 then ok (duration v) else err should_never_happen
u64_to_duration _ = err should_never_happen

unfoldable pub u32_to_ip : Endian → Value → Outcome Value
u32_to_ip order (uint w v) =
    if w == 32 then ok (ip (put_uint32 order v)) else err should_never_happen
u32_to_ip order _ = err should_never_happen

-- The special types, by the name of the typedef.
unfoldable pub special : Endian → String → Value → Outcome Value
special order name v =
    if str_eq name "duration"
    then u64_to_duration v
    else if str_eq name "ipv4_addr"
    then u32_to_ip order v
    else if str_eq name "ipv6_addr"
    then u32_to_ip order v
    else ok v

module _ (order : Endian) (raw : List ℕ) where
  unfoldable pub handle_uint : ℕ → ℕ → ℕ → Outcome (Value × ℕ)
  handle_uint size bits offset = do
    buf ← slice raw offset (add_u32 offset size)
    v ← read_bits order bits buf
    ok (uint bits v, add_u32 offset size)

  unfoldable pub handle_int : ℕ → ℕ → ℕ → Outcome (Value × ℕ)
  handle_int size bits offset = do
    buf ← slice raw offset (add_u32 offset size)
    v ← read_bits order bits buf
    ok (sint bits v, add_u32 offset size)

  unfoldable pub handle_float : ℕ → ℕ → Outcome (Value × ℕ)
  handle_float size offset = do
    buf ← slice raw offset (add_u32 offset size)
    v ←
        if size == 8
        then binary_read order 8 buf
        else if size == 4
        then binary_read order 4 buf
        else err should_never_happen
    ok (float_bits (8 * size) v, add_u32 offset size)

  -- The loop of `handleArray`, one byte a round.
  unfoldable pub read_chars : ℕ → ℕ → Outcome (List ℕ × ℕ)
  read_chars zero offset = ok ([], offset)
  read_chars (suc n) offset =
      let rest = read_chars n (add_u32 offset 1) in
      do
        buf ← slice raw offset (add_u32 offset 1)
        b ← binary_read order 1 buf
        (bs, end_offset) ← rest
        ok (b ∷ bs, end_offset)

  unfoldable pub handle_array : BtfType → ℕ → ℕ → Outcome (Value × ℕ)
  handle_array (int name size bits encoding) nelems offset =
      if not (str_eq name "char")
      then err array_of_no_char
      else if not (size == 1)
      then err array_char_size
      else do (bytes, end_offset) ← read_chars nelems offset; v ← text_of bytes; ok (v, end_offset)
  handle_array _ nelems offset = err array_of_no_int

  -- `processSingleType` but for its case of a typedef.
  unfoldable pub process_plain : BtfType → ℕ → Outcome (Value × ℕ)
  process_plain (int name size bits Encoding.signed) offset = handle_int size bits offset
  process_plain (int name size bits Encoding.bool) offset = ok (false_value, offset)
  process_plain (int name size bits Encoding.char) offset = ok (str [], offset)
  process_plain (int name size bits Encoding.unsigned) offset = handle_uint size bits offset
  process_plain (float size) offset = handle_float size offset
  process_plain (array t nelems) offset = handle_array t nelems offset
  process_plain (typedef name t) offset = err unsupported_type
  process_plain (struct ms) offset = err unsupported_type
  process_plain other offset = err unsupported_type

  -- A typedef's call of itself is on the underlying type, which is no typedef.
  unfoldable pub process_single_type : BtfType → ℕ → Outcome (Value × ℕ)
  process_single_type (typedef name t) offset = do
    (processed, end_offset) ← process_plain (get_underlying_type (typedef name t)) offset
    v ← special order name processed
    ok (v, end_offset)
  process_single_type t offset = process_plain t offset

-- `result[name] = val`.
abbrev pub Fields : Type 0
Fields = List (String × Value)

unfoldable pub insert : String → Value → Fields → Fields
insert name v [] = (name, v) ∷ []
insert name v ((n, w) ∷ result) =
    let rest = insert name v result in if str_eq n name then (n, v) ∷ result else (n, w) ∷ rest

-- The loop of `DecodeBtfBinary` over the members of a structure.
unfoldable pub decode_members : Endian → List ℕ → BtfMembers → ℕ → Fields → Outcome Fields
decode_members order raw end offset result = ok result
decode_members order raw (field name t at ms) offset result = do
  (val, next) ← process_single_type order raw t offset
  decode_members order raw ms next (insert name val result)

unfoldable pub decode_single : Endian → List ℕ → BtfType → Outcome Fields
decode_single order raw t = do (val, next) ← process_single_type order raw t 0; ok (("", val) ∷ [])

unfoldable pub decode_btf_binary : Endian → BtfType → List ℕ → Outcome Fields
decode_btf_binary order (struct ms) raw = decode_members order raw ms 0 []
decode_btf_binary order (typedef name t) raw = decode_single order raw (typedef name t)
decode_btf_binary order (float size) raw = decode_single order raw (float size)
decode_btf_binary order (int name size bits encoding) raw =
    decode_single order raw (int name size bits encoding)
decode_btf_binary order (array t n) raw = err unsupported_type
decode_btf_binary order other raw = err unsupported_type
