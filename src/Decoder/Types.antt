-- ===== src/Decoder/Types.antt =====
-- pkg/decoder/decoder.go: what the decoder takes and returns. BTF types are those of the library
-- cilium/ebpf as the decoder's switches see them; the offset of a member is given, and never read.
use bumblebee.Common.{ℕ, String, List}

-- The byte order that the build selects (loader_le.go, loader_be.go).
pub data Endian : Type 0 where
  little big : Endian

-- `btf.IntEncoding`; unsigned stands for every value that is none of the others.
pub data Encoding : Type 0 where
  unsigned signed bool char : Encoding

-- Sizes in bytes, `Bits` in bits; any other kind of type is `other`.
mutual
  pub data BtfType : Type 0 where
    int : String → ℕ → ℕ → Encoding → BtfType
    typedef : String → BtfType → BtfType
    float : ℕ → BtfType
    array : BtfType → ℕ → BtfType
    struct : BtfMembers → BtfType
    other : BtfType

  -- The name of a member, its type, and its offset in bits.
  pub data BtfMembers : Type 0 where
    end : BtfMembers
    field : String → BtfType → ℕ → BtfMembers → BtfMembers

-- What an `interface{}` of a result holds. Integers and floats carry their width, and are the bit
-- patterns of that width; a duration is a 64-bit pattern; strings and addresses are bytes.
pub data Value : Type 0 where
  uint : ℕ → ℕ → Value
  sint : ℕ → ℕ → Value
  float_bits : ℕ → ℕ → Value
  false_value : Value
  str : List ℕ → Value
  duration : ℕ → Value
  ip : List ℕ → Value

pub data DecodeError : Type 0 where
  eof unexpected_eof should_never_happen unsupported_type : DecodeError
  array_of_no_int array_of_no_char array_char_size : DecodeError

-- A result, an error, or a panic (a slice beyond the capacity).
pub data Outcome (A : Type 0) : Type 0 where
  ok : A → Outcome A
  err : DecodeError → Outcome A
  panic : Outcome A

infixl 5 ◌>>=◌
abbrev pub ◌>>=◌ : {A B : Type 0} → Outcome A → (A → Outcome B) → Outcome B
ok a >>= f = f a
err e >>= f = err e
panic >>= f = panic
