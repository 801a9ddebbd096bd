-- ===== src/CTypes/Bounds.antt =====
-- What a layout promises: members are aligned, do not overlap, and lie inside their object.
use native.Mathlib.Nat.{div-add-mod, mod-lt, mod-eq_of_lt, mod_self}
use native.Mathlib.Decide.{dec_lt}
use mathlib.Core.Path.{subst}
use bumblebee.Common.{
  ℕ, ◌+◌, ◌-◌, Bool, true, false, ◌*◌, ◌/◌, ◌%◌, ◌≤◌, ◌<◌, ◌≡◌, ap, String, Option, none, some,
  List, [], ◌∷◌, arith, if◌then◌else◌,
}
use bumblebee.CTypes.Syntax.{
  CType, num, ptr, array, struct, packed, union, Member, member, bits, Members, end, ◌▸◌,
}
use bumblebee.CTypes.Layout.{
  round_up, align, align_members, start, width, end_of, packed_end, widest, size,
}
use bumblebee.CTypes.Access.{
  Place, or_else, find, find_here, find_in, find_packed, find_any, locate,
}
use text.Mathlib.Text.{◌==◌}

pub le-round_up : (n a : ℕ) → n ≤ round_up n a
unfolding round_up
le-round_up n a = omega arith

-- What `round_up` returns is a multiple: `n` itself, or the next one.
round_up-multiple : (n b : ℕ) → 0 < b → (k : ℕ) × (round_up n b ≡ b * k)
unfolding round_up
round_up-multiple n b h = elim (dec_lt 0 (n % b)) [
  | yes p ↦ (
    n / b + 1,
    omega (
      arith,
      div-add-mod n b,
      mod-lt n h,
      mod-eq_of_lt {n = b - n % b} {m = b} (omega (arith, mod-lt n h)),
    ),
  )
  | no p ↦ (n / b, rw (no_rest p) (omega (arith, div-add-mod n b, no_rest p, mod_self b, whole)))
]
  where
    no_rest : ¬ (0 < n % b) → n % b ≡ 0
    no_rest p = omega arith

    whole : (b - 0) % b ≡ b % b
    whole = ap (λ k. k % b) (omega arith)

pub round_up-mod : (n a : ℕ) → 0 < a → round_up n (8 * a) % 8 ≡ 0
round_up-mod n a h = let (k, e) = round_up-multiple n (8 * a) (omega arith) in rw e (omega arith)

-- The bits of a whole number of bytes.
bytes_cover : (n a : ℕ) → 0 < a → n ≤ 8 * (round_up n (8 * a) / 8)
bytes_cover n a h = omega (arith, round_up-mod n a h, le-round_up n (8 * a))

align_members-pos : (ms : Members) → 0 < align_members ms
unfolding align
align_members-pos end = omega arith
align_members-pos (m ▸ ms) = omega (arith, align_members-pos ms)

le-start : (m : Member) (p : ℕ) → p ≤ start m p
unfolding start
le-start (member name t) p = le-round_up p (8 * align t)
le-start (bits name s w) p = ground (arith, le-round_up p (8 * s))

le-end_of : (ms : Members) (p : ℕ) → p ≤ end_of ms p
unfolding size
le-end_of end p = omega arith
le-end_of (m ▸ ms) p = omega (arith, le-start m p, le-end_of ms (start m p + width m))

le-packed_end : (ms : Members) (p : ℕ) → p ≤ packed_end ms p
unfolding size
le-packed_end end p = omega arith
le-packed_end (m ▸ ms) p = omega (arith, le-packed_end ms (p + width m))

end_of-le-size : (ms : Members) → end_of ms 0 ≤ 8 * size (struct ms)
unfolding size
end_of-le-size ms = bytes_cover (end_of ms 0) (align_members ms) (align_members-pos ms)

packed_end-le-size : (ms : Members) → packed_end ms 0 ≤ 8 * size (packed ms)
unfolding size
packed_end-le-size ms = bytes_cover (packed_end ms 0) 1 (omega arith)

widest-le-size : (ms : Members) → widest ms ≤ 8 * size (union ms)
unfolding size
widest-le-size ms = bytes_cover (widest ms) (align_members ms) (align_members-pos ms)

-- A place that lies inside the bits from `lo` to `hi`.
abbrev pub Within : ℕ → ℕ → Place → Type 0
Within lo hi q = (lo ≤ q.at_bit) × (q.at_bit + 8 * size q.typ ≤ hi)

abbrev Found : ℕ → ℕ → Option Place → Type 0
Found lo hi none = Unit
Found lo hi (some q) = Within lo hi q

Found-mono :
    {lo hi lo' hi' : ℕ} (o : Option Place) → lo' ≤ lo → hi ≤ hi' → Found lo hi o → Found lo' hi' o
Found-mono none p q f = tt
Found-mono (some r) p q f = omega arith

Found-or_else :
    (lo hi : ℕ) (a b : Option Place) → Found lo hi a → Found lo hi b → Found lo hi (or_else a b)
Found-or_else lo hi none b f g = g
Found-or_else lo hi (some r) b f g = f

Found-if :
    (lo hi : ℕ) (c : Bool) (a b : Option Place)
    → Found lo hi a
    → Found lo hi b
    → Found lo hi (if c then a else b)
Found-if lo hi true a b f g = f
Found-if lo hi false a b f g = g

mutual
  unfolding find size

  find-Found : (name : String) (t : CType) (b : ℕ) → Found b (b + 8 * size t) (find name t b)
  find-Found name (num n) b = tt
  find-Found name ptr b = tt
  find-Found name (array t n) b = tt
  find-Found name (struct ms) b =
      Found-mono (find_in name ms b 0) (omega arith) (omega (arith, end_of-le-size ms))
        (find_in-Found name ms b 0)
  find-Found name (packed ms) b =
      Found-mono (find_packed name ms b) (omega arith) (omega (arith, packed_end-le-size ms))
        (find_packed-Found name ms b 0)
  find-Found name (union ms) b =
      Found-mono (find_any name ms b) (omega arith) (omega (arith, widest-le-size ms))
        (find_any-Found name ms b)

  find_here-Found :
      (name : String) (m : Member) (b : ℕ) → Found b (b + width m) (find_here name m b)
  find_here-Found name (member n t) b =
      Found-if _ _ (n == name) _ _ (omega arith)
        (Found-if _ _ (n == "") _ _ (find-Found name t b) tt)
  find_here-Found name (bits n s w) b = tt

  find_in-Found :
      (name : String) (ms : Members) (b p : ℕ) → Found b (b + end_of ms p) (find_in name ms b p)
  find_in-Found name end b p = tt
  find_in-Found name (m ▸ ms) b p =
      Found-or_else _ _ (find_here name m (b + start m p)) _
        (Found-mono (find_here name m (b + start m p)) (omega arith)
          (omega (arith, le-end_of ms (start m p + width m)))
          (find_here-Found name m (b + start m p)))
        (find_in-Found name ms b (start m p + width m))

  find_packed-Found :
      (name : String) (ms : Members) (b p : ℕ)
      → Found b (b + (packed_end ms p - p)) (find_packed name ms b)
  find_packed-Found name end b p = tt
  find_packed-Found name (m ▸ ms) b p =
      Found-or_else _ _ (find_here name m b) _
        (Found-mono (find_here name m b) (omega arith)
          (omega (arith, le-packed_end ms (p + width m))) (find_here-Found name m b))
        (Found-mono (find_packed name ms (b + width m)) (omega arith)
          (omega (arith, le-packed_end ms (p + width m)))
          (find_packed-Found name ms (b + width m) (p + width m)))

  find_any-Found :
      (name : String) (ms : Members) (b : ℕ) → Found b (b + widest ms) (find_any name ms b)
  find_any-Found name end b = tt
  find_any-Found name (m ▸ ms) b =
      Found-or_else _ _ (find_here name m b) _
        (Found-mono (find_here name m b) (omega arith) (omega arith) (find_here-Found name m b))
        (Found-mono (find_any name ms b) (omega arith) (omega arith) (find_any-Found name ms b))

Found-bind :
    (lo hi : ℕ) (o : Option Place) (next : Place → Option Place)
    → Found lo hi o
    → ((q : Place) → Found q.at_bit (q.at_bit + 8 * size q.typ) (next q))
    → Found lo hi (elim o [ none ↦ none | some q ↦ next q ])
Found-bind lo hi none next f g = tt
Found-bind lo hi (some q) next f g = Found-mono (next q) (omega arith) (omega arith) (g q)

locate-Found : (path : List String) (t : CType) (b : ℕ) → Found b (b + 8 * size t) (locate path t b)
unfolding locate
locate-Found [] t b = omega arith
locate-Found (name ∷ path) t b =
    Found-bind _ _ (find name t b) (λ q. locate path q.typ q.at_bit) (find-Found name t b)
      (λ q. locate-Found path q.typ q.at_bit)

-- A member access never leaves its object: for every type, bit-fields, unions and packed structures
-- included, what the path names lies between the start of the object and its end.
pub locate_in_bounds :
    (path : List String) (t : CType) (b : ℕ) {q : Place}
    → locate path t b ≡ some q
    → Within b (b + 8 * size t) q
locate_in_bounds path t b e = subst (Found b (b + 8 * size t)) e (locate-Found path t b)
