-- ===== src/Loader/Numbers.antt =====
-- A hash of labels without collisions, for the tests of pkg/loader and pkg/stats: two numbers x and a
-- make 2 ^ x * (2 * a + 1).
use Prim.Native.Char.{code}
use text.Mathlib.TextEquality.{Char-path}
use bumblebee.Common.{ℕ, zero, suc, ◌+◌, ◌*◌, ◌≡◌, refl, ap, String, [], ◌∷◌, arith}
use bumblebee.Loader.Types.{Labels}

pair : ℕ → ℕ → ℕ
pair zero a = 2 * a + 1
pair (suc x) a = 2 * pair x a

pair-inj : (x y a b : ℕ) → pair x a ≡ pair y b → (x ≡ y) × (a ≡ b)
unfolding pair
pair-inj zero zero a b h = (refl, omega arith)
pair-inj zero (suc y) a b h = absurd (omega arith)
pair-inj (suc x) zero a b h = absurd (omega arith)
pair-inj (suc x) (suc y) a b h =
    let (same, rest) = pair-inj x y a b (omega arith) in (ap suc same, rest)

pair-positive : (x a : ℕ) → pair x a ≡ 0 → ⊥
unfolding pair
pair-positive zero a h = omega arith
pair-positive (suc x) a h = pair-positive x a (omega arith)

number : String → ℕ
number String.[] = 0
number (String.◌∷◌ c s) = pair (code c) (number s)

number-inj : (s t : String) → number s ≡ number t → s ≡ t
unfolding number
number-inj String.[] String.[] h = refl
number-inj String.[] (String.◌∷◌ c t) h = absurd (pair-positive (code c) (number t) (omega arith))
number-inj (String.◌∷◌ c s) String.[] h = absurd (pair-positive (code c) (number s) h)
number-inj (String.◌∷◌ c s) (String.◌∷◌ d t) h =
    let (char, rest) = pair-inj (code c) (code d) (number s) (number t) h in
    rw (Char-path c d char, number-inj s t rest) refl

pub labels_number : Labels → ℕ
labels_number [] = 0
labels_number ((k, v) ∷ labels) = pair (pair (number k) (number v)) (labels_number labels)

pub labels_number-inj : (a b : Labels) → labels_number a ≡ labels_number b → a ≡ b
unfolding labels_number
labels_number-inj [] [] h = refl
labels_number-inj [] ((k, v) ∷ b) h =
    absurd (pair-positive (pair (number k) (number v)) (labels_number b) (omega arith))
labels_number-inj ((k, v) ∷ a) [] h =
    absurd (pair-positive (pair (number k) (number v)) (labels_number a) h)
labels_number-inj ((k, v) ∷ a) ((l, w) ∷ b) h =
    let (first, rest) =
      pair-inj (pair (number k) (number v)) (pair (number l) (number w)) (labels_number a)
        (labels_number b) h in
    let (keys, values) = pair-inj (number k) (number l) (number v) (number w) first in
    rw (number-inj k l keys, number-inj v w values, labels_number-inj a b rest) refl
