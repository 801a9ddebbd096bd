-- ===== src/Bpf/Equality.antt =====
-- Equality of map keys: the kernel compares their bytes.
use bumblebee.Common.{
  ℕ, ◌+◌, ◌≡◌, ◌↔◌, Bool, true, ◌&&◌, List, [], ◌∷◌, ◌++◌, arith, ◌==◌ as nat_beq, ==_iff,
  if◌then◌else◌,
}

pub record Eq (A : Type 0) : Type 0 where
  pub beq : A → A → Bool
  pub beq_iff : (a b : A) → (beq a b ≡ true) ↔ (a ≡ b)

infix 50 ◌==◌
abbrev pub ◌==◌ : {A : Type 0} ⦃e : Eq A⦄ → A → A → Bool
◌==◌ ⦃e⦄ = e.beq

instance abbrev pub nat_eq : Eq ℕ
nat_eq = record { beq = nat_beq; beq_iff = ==_iff }

-- A pair of IPv4 addresses: the key `struct dimensions_t` of activeconn.c and tcpconnect.c.
pub record Dimensions : Type 0 where
  pub saddr : ℕ
  pub daddr : ℕ

abbrev pub dimensions_beq : Dimensions → Dimensions → Bool
dimensions_beq a b = nat_beq a.saddr b.saddr && nat_beq a.daddr b.daddr

pub dimensions_beq_iff : (a b : Dimensions) → (dimensions_beq a b ≡ true) ↔ (a ≡ b)
dimensions_beq_iff a b = ground arith

instance abbrev pub dimensions_eq : Eq Dimensions
dimensions_eq = record { beq = dimensions_beq; beq_iff = dimensions_beq_iff }

-- How often a value stands in a list.
module _ {A : Type 0} ⦃e : Eq A⦄ where
  abbrev pub count : A → List A → ℕ
  count a [] = 0
  count a (x ∷ xs) = (if a == x then 1 else 0) + count a xs

  pub count-snoc :
      (a x : A) (xs : List A) → count a (xs ++ (x ∷ [])) ≡ count a xs + (if a == x then 1 else 0)
  count-snoc a x [] = omega arith
  count-snoc a x (y ∷ ys) = omega (arith, count-snoc a x ys)
