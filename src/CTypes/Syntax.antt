-- ===== src/CTypes/Syntax.antt =====
-- C types as they are written in builder/vmlinux.h and in the programs: what a `struct` or `union`
-- declares, member by member (`packed` is a `struct` with the attribute of that name). Qualifiers and signedness take no part in a layout.
use bumblebee.Common.{ℕ, String}

mutual
  pub data CType : Type 0 where
    num : ℕ → CType
    ptr : CType
    array : CType → ℕ → CType
    struct : Members → CType
    packed : Members → CType
    union : Members → CType

  -- `bits` is a bit-field: its name, the bytes of its declared type, its width. A member without a
  -- name is a nested `struct` or `union` whose members are reached directly, or padding bits.
  pub data Member : Type 0 where
    member : String → CType → Member
    bits : String → ℕ → ℕ → Member

  pub data Members : Type 0 where
    end : Members
    ◌▸◌ : Member → Members → Members

infixr 20 ◌▸◌
-- The arithmetic types, by the words of C.
abbrev pub char : CType
char = num 1

abbrev pub signed_char : CType
signed_char = num 1

abbrev pub unsigned_char : CType
unsigned_char = num 1

abbrev pub c_bool : CType
c_bool = num 1

abbrev pub short_int : CType
short_int = num 2

abbrev pub short_unsigned_int : CType
short_unsigned_int = num 2

abbrev pub int : CType
int = num 4

abbrev pub unsigned_int : CType
unsigned_int = num 4

abbrev pub long_int : CType
long_int = num 8

abbrev pub long_unsigned_int : CType
long_unsigned_int = num 8

abbrev pub long_long_int : CType
long_long_int = num 8

abbrev pub long_long_unsigned_int : CType
long_long_unsigned_int = num 8

-- Every `enum` of the headers fits an `int`.
abbrev pub enum : CType
enum = num 4
