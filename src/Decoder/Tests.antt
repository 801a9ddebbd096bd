-- ===== src/Decoder/Tests.antt =====
-- Runs of pkg/decoder/decoder.go, and its theorems at concrete data.
use text.Mathlib.Text.{◌==◌ as str_eq}
use text.Mathlib.TextEquality.{eq_iff}
use bumblebee.Common.{ℕ, ◌≡◌, refl, inl, inr, ◌≢◌, false, String, List, [], ◌∷◌, ◌++◌, arith}
use bumblebee.Bpf.Context.{from_bytes}
use bumblebee.Decoder.Types.{
  little, big, unsigned, signed, Encoding, BtfType, int, typedef, array, struct, BtfMembers, end,
  field, uint, sint, false_value, str, duration, ip, ok, err, panic, unexpected_eof, eof,
  unsupported_type, should_never_happen,
}
use bumblebee.Decoder.Decode.{
  slice, value_of, put_uint32, binary_read, read_bits, index_nul, text_of, get_underlying_type,
  u64_to_duration, u32_to_ip, special, handle_uint, handle_int, handle_float, read_chars,
  handle_array, process_plain, process_single_type, insert, Fields, decode_members, decode_single,
  decode_btf_binary,
}
use bumblebee.Decoder.Format.{
  of_sint, of_chars, itself, through, plain, of_duration, of_address, EncodesAll, stop, piece,
  Distinct,
}
use bumblebee.Decoder.Struct.{
  decode_btf_binary-EncodesAll, bool_takes_no_bytes, unterminated_panics,
}
use bumblebee.Decoder.Truncated.{truncated_panics}

-- As in solo_types.h: an address is a typedef of a typedef.
abbrev u32_type : BtfType
u32_type = typedef "u32" (typedef "__u32" (int "unsigned int" 4 32 unsigned))

abbrev address_type : BtfType
address_type = typedef "ipv4_addr" u32_type

abbrev duration_type : BtfType
duration_type = typedef "duration" (int "long long unsigned int" 8 64 unsigned)

abbrev chars : ℕ → BtfType
chars n = array (int "char" 1 8 signed) n

abbrev members : BtfMembers
members = field "saddr" address_type 0 (
    field "delta" duration_type 32
      (field "comm" (chars 4) 96 (field "ret" (int "int" 4 32 signed) 128 end)))

abbrev raw : List ℕ
raw =
    127 ∷ 0 ∷ 0 ∷ 1 ∷ 232 ∷ 3 ∷ 0 ∷ 0 ∷ 0 ∷ 0 ∷ 0 ∷ 0 ∷ 104 ∷ 105 ∷ 0 ∷ 9 ∷ 254 ∷ 255 ∷ 255 ∷ 255
    ∷ []

abbrev fields : Fields
fields =
    ("saddr", ip (127 ∷ 0 ∷ 0 ∷ 1 ∷ []))
    ∷ ("delta", duration 1000)
    ∷ ("comm", str (104 ∷ 105 ∷ []))
    ∷ ("ret", sint 32 4294967294)
    ∷ []

decoded : decode_btf_binary little (struct members) raw ≡ ok fields
unfolding slice value_of put_uint32 binary_read read_bits index_nul text_of get_underlying_type
    u64_to_duration u32_to_ip special handle_uint handle_int handle_float read_chars handle_array
    process_plain process_single_type insert decode_members decode_single decode_btf_binary
    from_bytes
decoded = refl

-- In the other byte order the address is the same, the numbers are not.
decoded_big :
    decode_btf_binary big
      (struct (field "saddr" address_type 0 (field "ret" (int "int" 2 16 signed) 32 end)))
      raw
    ≡ ok (("saddr", ip (127 ∷ 0 ∷ 0 ∷ 1 ∷ [])) ∷ ("ret", sint 16 59395) ∷ [])
unfolding slice value_of put_uint32 binary_read read_bits index_nul text_of get_underlying_type
    u64_to_duration u32_to_ip special handle_uint handle_int handle_float read_chars handle_array
    process_plain process_single_type insert decode_members decode_single decode_btf_binary
    from_bytes
decoded_big = refl

-- A number whose bits are more than its bytes, and a structure in a structure.
bit_mismatch : decode_btf_binary little (int "int" 2 32 signed) raw ≡ err unexpected_eof
unfolding slice value_of put_uint32 binary_read read_bits index_nul text_of get_underlying_type
    u64_to_duration u32_to_ip special handle_uint handle_int handle_float read_chars handle_array
    process_plain process_single_type insert decode_members decode_single decode_btf_binary
    from_bytes
bit_mismatch = refl

no_bytes : decode_btf_binary little (int "int" 0 8 signed) raw ≡ err eof
unfolding slice value_of put_uint32 binary_read read_bits index_nul text_of get_underlying_type
    u64_to_duration u32_to_ip special handle_uint handle_int handle_float read_chars handle_array
    process_plain process_single_type insert decode_members decode_single decode_btf_binary
    from_bytes
no_bytes = refl

nested :
    decode_btf_binary little (struct (field "inner" (struct members) 0 end)) raw
    ≡ err unsupported_type
unfolding slice value_of put_uint32 binary_read read_bits index_nul text_of get_underlying_type
    u64_to_duration u32_to_ip special handle_uint handle_int handle_float read_chars handle_array
    process_plain process_single_type insert decode_members decode_single decode_btf_binary
    from_bytes
nested = refl

odd_duration : decode_btf_binary little (typedef "duration" u32_type) raw ≡ err should_never_happen
unfolding slice value_of put_uint32 binary_read read_bits index_nul text_of get_underlying_type
    u64_to_duration u32_to_ip special handle_uint handle_int handle_float read_chars handle_array
    process_plain process_single_type insert decode_members decode_single decode_btf_binary
    from_bytes
odd_duration = refl

-- The padding behind a byte is read as a part of the next number.
padding_misread :
    decode_btf_binary little
      (struct (
        field "a"
          (int "unsigned char" 1 8 unsigned)
          0
          (field "b" (int "unsigned int" 4 32 unsigned) 32 end)))
      (1 ∷ 0 ∷ 0 ∷ 0 ∷ 2 ∷ 0 ∷ 0 ∷ 0 ∷ [])
    ≡ ok (("a", uint 8 1) ∷ ("b", uint 32 33554432) ∷ [])
unfolding slice value_of put_uint32 binary_read read_bits index_nul text_of get_underlying_type
    u64_to_duration u32_to_ip special handle_uint handle_int handle_float read_chars handle_array
    process_plain process_single_type insert decode_members decode_single decode_btf_binary
    from_bytes
padding_misread = refl

abbrev rest_of_members : BtfMembers
rest_of_members = field "comm" (chars 4) 96 (field "ret" (int "int" 4 32 signed) 128 end)

encoded_rest :
    EncodesAll little rest_of_members
      (("comm", str (104 ∷ 105 ∷ [])) ∷ ("ret", sint 32 4294967294) ∷ [])
      (104 ∷ 105 ∷ 0 ∷ 9 ∷ 254 ∷ 255 ∷ 255 ∷ 255 ∷ [])
unfolding value_of from_bytes
encoded_rest =
    piece "comm" (chars 4) 96 (field "ret" (int "int" 4 32 signed) 128 end) (str (104 ∷ 105 ∷ []))
      (("ret", sint 32 4294967294) ∷ []) (104 ∷ 105 ∷ 0 ∷ 9 ∷ []) (254 ∷ 255 ∷ 255 ∷ 255 ∷ []) _
      (plain _ (
        of_chars "char" 1 8 4 signed (104 ∷ 105 ∷ []) (9 ∷ []) refl refl
          (omega arith, (omega arith, tt)) refl refl refl))
      (piece "ret" (int "int" 4 32 signed) 128 end (sint 32 4294967294) []
        (254 ∷ 255 ∷ 255 ∷ 255 ∷ []) [] _
        (plain _ (of_sint "int" 4 32 (refl, inr (inr (inl refl))) refl refl)) stop refl)
      refl

encoded : EncodesAll little members fields raw
unfolding value_of from_bytes
encoded =
    piece "saddr" address_type 0 _ (ip (127 ∷ 0 ∷ 0 ∷ 1 ∷ [])) _ (127 ∷ 0 ∷ 0 ∷ 1 ∷ []) _ _
      (of_address "ipv4_addr" "unsigned int" u32_type (inl refl)
        (through "u32" _ (through "__u32" _ (itself _ refl))) refl
        (omega arith, (omega arith, (omega arith, (omega arith, tt)))) refl)
      (piece "delta" duration_type 32 rest_of_members (duration 1000) _
        (232 ∷ 3 ∷ 0 ∷ 0 ∷ 0 ∷ 0 ∷ 0 ∷ 0 ∷ []) _ _
        (of_duration "duration" "long long unsigned int" _ refl (itself _ refl) refl refl)
        encoded_rest refl)
      refl

str_eq_ne : (a b : String) → str_eq a b ≡ false → a ≢ b
str_eq_ne a b h = ground (arith, eq_iff a b)

fields-Distinct : Distinct fields
fields-Distinct = (
  (str_eq_ne _ _ refl, (str_eq_ne _ _ refl, (str_eq_ne _ _ refl, tt))),
  ((str_eq_ne _ _ refl, (str_eq_ne _ _ refl, tt)), ((str_eq_ne _ _ refl, tt), (tt, tt))),
)

decode_btf_binary-EncodesAll_example :
    decode_btf_binary little (struct members) (raw ++ (1 ∷ 2 ∷ [])) ≡ ok fields
decode_btf_binary-EncodesAll_example =
    decode_btf_binary-EncodesAll little members fields raw (1 ∷ 2 ∷ []) encoded (omega arith)
      fields-Distinct

bool_takes_no_bytes_example :
    decode_btf_binary little
      (struct (field "ok" (int "_Bool" 1 8 Encoding.bool) 0 members))
      (raw ++ [])
    ≡ ok (("ok", false_value) ∷ fields)
bool_takes_no_bytes_example =
    bool_takes_no_bytes little "ok" "_Bool" 1 8 0 members fields raw [] encoded (omega arith) (
      (str_eq_ne _ _ refl, (str_eq_ne _ _ refl, (str_eq_ne _ _ refl, (str_eq_ne _ _ refl, tt)))),
      fields-Distinct,
    )

unterminated_panics_example :
    process_single_type little (1 ∷ (104 ∷ 105 ∷ []) ++ (0 ∷ [])) (chars 2) 1 ≡ panic
unterminated_panics_example =
    unterminated_panics little "char" 8 0 signed (1 ∷ []) (104 ∷ 105 ∷ []) (0 ∷ []) refl
      (omega arith) (omega arith, (omega arith, tt))

-- The array of chars in the bytes that are there has no end.
truncated_panics_example :
    decode_btf_binary little
      (struct members)
      (127 ∷ 0 ∷ 0 ∷ 1 ∷ 232 ∷ 3 ∷ 0 ∷ 0 ∷ 0 ∷ 0 ∷ 0 ∷ 0 ∷ 5 ∷ 5 ∷ 5 ∷ 5 ∷ 1 ∷ [])
    ≡ panic
truncated_panics_example =
    truncated_panics little members fields raw
      (127 ∷ 0 ∷ 0 ∷ 1 ∷ 232 ∷ 3 ∷ 0 ∷ 0 ∷ 0 ∷ 0 ∷ 0 ∷ 0 ∷ 5 ∷ 5 ∷ 5 ∷ 5 ∷ 1 ∷ []) encoded
      (omega arith) (omega arith)
