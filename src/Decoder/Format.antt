-- ===== src/Decoder/Format.antt =====
-- What bytes a C program writes for a value of a BTF type that the decoder supports: the format that
-- the decoder is to read, stated without it.
use bumblebee.Common.{ℕ, ◌*◌, ◌<◌, ◌≡◌, ◌≢◌, ◌⊎◌, String, List, [], ◌∷◌, ◌++◌, length}
use bumblebee.Decoder.Types.{
  Endian, Encoding, unsigned, signed, BtfType, int, typedef, float, array, BtfMembers, end, field,
  Value, uint, sint, float_bits, str, duration, ip,
}
use bumblebee.Decoder.Decode.{value_of, Fields}

-- The widths that the decoder reads: n bytes of 8 bits.
abbrev pub IsWidth : ℕ → ℕ → Type 0
IsWidth n w = (w ≡ 8 * n) × ((n ≡ 1) ⊎ ((n ≡ 2) ⊎ ((n ≡ 4) ⊎ (n ≡ 8))))

-- The bytes of a string: none of them is 0.
abbrev pub NoNul : List ℕ → Type 0
NoNul [] = Unit
NoNul (b ∷ bs) = (b ≢ 0) × NoNul bs

abbrev pub IsPlainName : String → Type 0
IsPlainName name = (name ≢ "duration") × (name ≢ "ipv4_addr") × (name ≢ "ipv6_addr")

-- A type that is no typedef.
pub data EncodesPlain (order : Endian) (v : Value) (bs : List ℕ) : BtfType → Type 0 where
  of_uint :
      (name : String) (n w : ℕ)
      → IsWidth n w
      → length bs ≡ n
      → v ≡ uint w (value_of order bs)
      → EncodesPlain order v bs (int name n w unsigned)
  of_sint :
      (name : String) (n w : ℕ)
      → IsWidth n w
      → length bs ≡ n
      → v ≡ sint w (value_of order bs)
      → EncodesPlain order v bs (int name n w signed)
  of_float :
      (n : ℕ)
      → (n ≡ 4) ⊎ (n ≡ 8)
      → length bs ≡ n
      → v ≡ float_bits (8 * n) (value_of order bs)
      → EncodesPlain order v bs (float n)
  of_chars :
      (name : String) (size w n : ℕ) (e : Encoding) (cs rest : List ℕ)
      → name ≡ "char"
      → size ≡ 1
      → NoNul cs
      → bs ≡ cs ++ (0 ∷ rest)
      → length bs ≡ n
      → v ≡ str cs
      → EncodesPlain order v bs (array (int name size w e) n)

-- A type, or typedefs of it.
pub data StandsFor (u : BtfType) : BtfType → Type 0 where
  itself : (t : BtfType) → t ≡ u → StandsFor u t
  through : (name : String) (t : BtfType) → StandsFor u t → StandsFor u (typedef name t)

abbrev pub Bytes : List ℕ → Type 0
Bytes [] = Unit
Bytes (b ∷ bs) = (b < 256) × Bytes bs

-- A type of a member. A duration is a number of 8 bytes, an address is its 4 bytes as they stand.
pub data Encodes (order : Endian) (v : Value) (bs : List ℕ) : BtfType → Type 0 where
  plain : (t : BtfType) → EncodesPlain order v bs t → Encodes order v bs t
  renamed :
      (name : String) (t u : BtfType)
      → IsPlainName name
      → StandsFor u t
      → EncodesPlain order v bs u
      → Encodes order v bs (typedef name t)
  of_duration :
      (name base : String) (t : BtfType)
      → name ≡ "duration"
      → StandsFor (int base 8 64 unsigned) t
      → length bs ≡ 8
      → v ≡ duration (value_of order bs)
      → Encodes order v bs (typedef name t)
  of_address :
      (name base : String) (t : BtfType)
      → (name ≡ "ipv4_addr") ⊎ (name ≡ "ipv6_addr")
      → StandsFor (int base 4 32 unsigned) t
      → length bs ≡ 4
      → Bytes bs
      → v ≡ ip bs
      → Encodes order v bs (typedef name t)

-- The members of a structure, one after the other without padding.
pub data EncodesAll (order : Endian) : BtfMembers → Fields → List ℕ → Type 0 where
  stop : EncodesAll order end [] []
  piece :
      (name : String) (t : BtfType) (at : ℕ) (ms : BtfMembers) (v : Value) (vs : Fields)
      (bs rest raw : List ℕ)
      → Encodes order v bs t
      → EncodesAll order ms vs rest
      → raw ≡ bs ++ rest
      → EncodesAll order (field name t at ms) ((name, v) ∷ vs) raw

-- No two members have the same name.
abbrev pub Fresh : String → Fields → Type 0
Fresh name [] = Unit
Fresh name ((n, v) ∷ fields) = (n ≢ name) × Fresh name fields

abbrev pub Distinct : Fields → Type 0
Distinct [] = Unit
Distinct ((n, v) ∷ fields) = Fresh n fields × Distinct fields
