-- ===== src/Tui/Table/Hashes.antt =====
-- The table of a hash map, after any entries of any maps.
use bumblebee.Common.{
  ℕ, zero, suc, ◌≡◌, refl, sym, ◌≢◌, inl, inr, String, Option, none, some, List, [], ◌∷◌, ◌++◌,
  length, get_elem?, set, arith, ◌==◌, if◌then◌else◌, Bool-cases, Option-cases,
}
use bumblebee.Loader.Types.{Labels, KvPair}
use bumblebee.Tui.Table.{find_index}

-- The value that is shown for a hash, if any.
abbrev pub shown : ℕ → List KvPair → Option String
shown h [] = none
shown h (e ∷ entries) = if e.hash == h then some e.value else shown h entries

-- Every entry has the hash of its labels, and no two have the same.
abbrev pub NoHash : ℕ → List KvPair → Type 0
NoHash h [] = Unit
NoHash h (e ∷ entries) = (e.hash ≢ h) × NoHash h entries

abbrev pub Once : List KvPair → Type 0
Once [] = Unit
Once (e ∷ entries) = NoHash e.hash entries × Once entries

abbrev pub Hashed : (Labels → ℕ) → List KvPair → Type 0
Hashed hash_of [] = Unit
Hashed hash_of (e ∷ entries) = (e.hash ≡ hash_of e.key) × Hashed hash_of entries

pub find_index-none : (h : ℕ) (es : List KvPair) → find_index h es ≡ none → NoHash h es
unfolding find_index
find_index-none h [] n = tt
find_index-none h (e ∷ es) n = ground (arith, find_index-none h es)

pub shown-append :
    (h j : ℕ) (es : List KvPair) (x : KvPair)
    → NoHash h es
    → x.hash ≡ h
    → shown j (es ++ (x ∷ [])) ≡ (if h == j then some x.value else shown j es)
shown-append h j [] x no_hash e = ground arith
shown-append h j (y ∷ es) x no_hash e = ground (arith, shown-append h j es x)

NoHash-append :
    (h : ℕ) (es : List KvPair) (x : KvPair) → NoHash h es → x.hash ≢ h → NoHash h (es ++ (x ∷ []))
NoHash-append h [] x no_hash ne = (ne, tt)
NoHash-append h (y ∷ es) x no_hash ne = (no_hash.0, NoHash-append h es x no_hash.1 ne)

pub Once-append :
    (es : List KvPair) (x : KvPair) → Once es → NoHash x.hash es → Once (es ++ (x ∷ []))
Once-append [] x once no_hash = (tt, tt)
Once-append (y ∷ es) x once no_hash =
    (NoHash-append y.hash es x once.0 (λ e. no_hash.0 (sym e)), Once-append es x once.1 no_hash.1)

pub Hashed-append :
    (hash_of : Labels → ℕ) (es : List KvPair) (x : KvPair)
    → Hashed hash_of es
    → x.hash ≡ hash_of x.key
    → Hashed hash_of (es ++ (x ∷ []))
Hashed-append hash_of [] x h e = (e, tt)
Hashed-append hash_of (y ∷ es) x h e = (h.0, Hashed-append hash_of es x h.1 e)

-- An entry with a hash that is found, at its index.
abbrev pub Found : ℕ → List KvPair → ℕ → Type 0
Found h es i = (e : KvPair) × (get_elem? es i ≡ some e) × (e.hash ≡ h) × (shown h es ≡ some e.value)

pub find_index-some : (h : ℕ) (es : List KvPair) (i : ℕ) → find_index h es ≡ some i → Found h es i
unfolding find_index
find_index-some h [] i found = absurd (cc found)
find_index-some h (e ∷ es) i found = elim (Bool-cases (e.hash == h)) [
  | inl here ↦ (e, ground arith, ground arith, ground arith)
  | inr not_here ↦ elim (Option-cases (find_index h es)) [
    | inl missing ↦ absurd (ground arith)
    | inr (k, there) ↦
        let (x, at, same, value) = find_index-some h es k there in
        (x, ground arith, same, ground arith)
  ]
]

module _ (h : ℕ) (v : String) where
  NoHash-set :
      (k : ℕ) (es : List KvPair) (i : ℕ) (e : KvPair)
      → get_elem? es i ≡ some e
      → NoHash k es
      → NoHash k (set es i (record e { value = v }))
  NoHash-set k [] i e at no_hash = tt
  NoHash-set k (x ∷ es) zero e at no_hash = ground arith
  NoHash-set k (x ∷ es) (suc i) e at no_hash = (no_hash.0, NoHash-set k es i e at no_hash.1)

  pub Once-set :
      (es : List KvPair) (i : ℕ) (e : KvPair)
      → get_elem? es i ≡ some e
      → Once es
      → Once (set es i (record e { value = v }))
  Once-set [] i e at once = tt
  Once-set (x ∷ es) zero e at once = ground arith
  Once-set (x ∷ es) (suc i) e at once =
      (NoHash-set x.hash es i e at once.0, Once-set es i e at once.1)

  pub Hashed-set :
      (hash_of : Labels → ℕ) (es : List KvPair) (i : ℕ) (e : KvPair)
      → get_elem? es i ≡ some e
      → Hashed hash_of es
      → Hashed hash_of (set es i (record e { value = v }))
  Hashed-set hash_of [] i e at hashed = tt
  Hashed-set hash_of (x ∷ es) zero e at hashed = ground arith
  Hashed-set hash_of (x ∷ es) (suc i) e at hashed =
      (hashed.0, Hashed-set hash_of es i e at hashed.1)

  pub shown-set :
      (j : ℕ) (es : List KvPair) (i : ℕ) (e : KvPair)
      → find_index h es ≡ some i
      → get_elem? es i ≡ some e
      → shown j (set es i (record e { value = v })) ≡ (if h == j then some v else shown j es)
  unfolding find_index
  shown-set j [] i e found at = absurd (cc found)
  shown-set j (x ∷ es) zero e found at = elim (Bool-cases (x.hash == h)) [
    | inl here ↦ ground arith
    | inr not_here ↦
        absurd (elim (Option-cases (find_index h es)) [
          | inl o ↦ ground arith
          | inr (k, o) ↦ ground arith
        ])
  ]
  shown-set j (x ∷ es) (suc i) e found at = elim (Option-cases (find_index h es)) [
    | inl o ↦ absurd (ground arith)
    | inr (k, o) ↦ ground (arith, shown-set j es i e)
  ]

  pub length-set : (es : List KvPair) (i : ℕ) (e : KvPair) → length (set es i e) ≡ length es
  length-set [] i e = refl
  length-set (x ∷ es) zero e = refl
  length-set (x ∷ es) (suc i) e = omega (arith, length-set es i e)
