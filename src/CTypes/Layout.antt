-- ===== src/CTypes/Layout.antt =====
-- Sizes, alignments and places of members (System V ABI for x86-64), places in bits.
use bumblebee.Common.{ℕ, ◌+◌, ◌-◌, ◌*◌, ◌/◌, ◌%◌, max, ltb, if◌then◌else◌}
use bumblebee.CTypes.Syntax.{
  CType, num, ptr, array, struct, packed, union, Member, member, bits, Members, end, ◌▸◌,
}
use text.Mathlib.Text.{◌==◌}

-- The least multiple of `a` that is not below `n`.
unfoldable pub round_up : ℕ → ℕ → ℕ
round_up n a = n + (a - n % a) % a

unfoldable mutual
  -- The alignment in bytes. Padding bits align nothing.
  pub align : CType → ℕ
  align (num n) = n
  align ptr = 8
  align (array t n) = align t
  align (struct ms) = align_members ms
  align (packed ms) = 1
  align (union ms) = align_members ms

  pub align_member : Member → ℕ
  align_member (member name t) = align t
  align_member (bits name s w) = if name == "" then 1 else s

  pub align_members : Members → ℕ
  align_members end = 1
  align_members (m ▸ ms) = max (align_member m) (align_members ms)

-- The bit at which a member starts if the last one ended before the bit `p`: a bit-field does not
-- cross a boundary of its declared type.
unfoldable pub start : Member → ℕ → ℕ
unfolding round_up align
start (member name t) p = round_up p (8 * align t)
start (bits name s w) p = if ltb (8 * s) (p % (8 * s) + w) then round_up p (8 * s) else p

unfoldable mutual
  unfolding align round_up start

  -- The size in bytes.
  pub size : CType → ℕ
  size (num n) = n
  size ptr = 8
  size (array t n) = size t * n
  size (struct ms) = round_up (end_of ms 0) (8 * align_members ms) / 8
  size (packed ms) = round_up (packed_end ms 0) 8 / 8
  size (union ms) = round_up (widest ms) (8 * align_members ms) / 8

  -- The bits that a member takes.
  pub width : Member → ℕ
  width (member name t) = 8 * size t
  width (bits name s w) = w

  -- The end of the last of the members, in bits, if they follow on `p`.
  pub end_of : Members → ℕ → ℕ
  end_of end p = p
  end_of (m ▸ ms) p = end_of ms (start m p + width m)

  pub packed_end : Members → ℕ → ℕ
  packed_end end p = p
  packed_end (m ▸ ms) p = packed_end ms (p + width m)

  pub widest : Members → ℕ
  widest end = 0
  widest (m ▸ ms) = max (width m) (widest ms)
