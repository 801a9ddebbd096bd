-- ===== src/CTypes/Access.antt =====
-- Member accesses, as `BPF_CORE_READ` spells them: where `path` leads in an object of type `t`.
use bumblebee.Common.{ℕ, zero, ◌+◌, String, Option, none, some, List, [], ◌∷◌, if◌then◌else◌}
use bumblebee.CTypes.Syntax.{
  CType, num, ptr, array, struct, packed, union, Member, member, bits, Members, end, ◌▸◌,
}
use bumblebee.CTypes.Layout.{start, width, size}
use text.Mathlib.Text.{◌==◌}

-- A part of an object: the bit at which it starts, and its type.
pub record Place : Type 0 where
  pub at_bit : ℕ
  pub typ : CType

abbrev pub or_else {ℓ} : {A : Type ℓ} → Option A → Option A → Option A
or_else none o = o
or_else (some a) o = some a

-- The member `name` of an object that starts at the bit `b`. A member without a name is searched.
-- A bit-field has no address.
unfoldable mutual
  unfolding start size

  pub find : String → CType → ℕ → Option Place
  find name (num n) b = none
  find name ptr b = none
  find name (array t n) b = none
  find name (struct ms) b = find_in name ms b zero
  find name (packed ms) b = find_packed name ms b
  find name (union ms) b = find_any name ms b

  pub find_here : String → Member → ℕ → Option Place
  find_here name (member n t) b =
      let inside = find name t b in
      if n == name then some (record { at_bit = b; typ = t }) else if n == "" then inside else none
  find_here name (bits n s w) b = none

  pub find_in : String → Members → ℕ → ℕ → Option Place
  find_in name end b p = none
  find_in name (m ▸ ms) b p =
      let rest = find_in name ms b (start m p + width m) in
      or_else (find_here name m (b + start m p)) rest

  pub find_packed : String → Members → ℕ → Option Place
  find_packed name end b = none
  find_packed name (m ▸ ms) b =
      let rest = find_packed name ms (b + width m) in or_else (find_here name m b) rest

  pub find_any : String → Members → ℕ → Option Place
  find_any name end b = none
  find_any name (m ▸ ms) b = let rest = find_any name ms b in or_else (find_here name m b) rest

unfoldable pub locate : List String → CType → ℕ → Option Place
unfolding find
locate [] t b = some (record { at_bit = b; typ = t })
locate (name ∷ path) t b = elim (find name t b) [
  | none ↦ none
  | some place ↦ locate path place.typ place.at_bit
]
