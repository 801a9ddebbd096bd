-- ===== src/Bpf/Examples.antt =====
-- Maps and ring buffers that behave as documented: an association list with room for `max` entries,
-- and a buffer with room for a number of records, whose fresh memory holds `junk`.
use bumblebee.Common.{
  ℕ, suc, ◌+◌, ◌-◌, ◌≡◌, refl, Bool, true, false, Option, none, some, List, [], ◌∷◌, ◌++◌, arith,
  length, ltb, if◌then◌else◌,
}
use bumblebee.Bpf.Equality.{Eq, ◌==◌}
use bumblebee.Bpf.HashMap
use bumblebee.Bpf.HashMap.{HashMap}
use bumblebee.Bpf.RingBuf
use bumblebee.Bpf.RingBuf.{RingBuf}

module _ {K V : Type 0} ⦃e : Eq K⦄ where
  abbrev pub get : List (K × V) → K → Option V
  get [] j = none
  get ((k, v) ∷ m) j = if j == k then some v else get m j

  abbrev pub remove : List (K × V) → K → List (K × V)
  remove [] k = []
  remove ((j, v) ∷ m) k = let rest = remove m k in if k == j then rest else (j, v) ∷ rest

  abbrev pub put : ℕ → List (K × V) → K → V → List (K × V) × Bool
  put max m k v =
      let others = remove m k in
      if ltb (length others) max then ((k, v) ∷ others, true) else (m, false)

  get-remove :
      (m : List (K × V)) (k j : K) → get (remove m k) j ≡ (if j == k then none else get m j)
  get-remove [] k j = ground arith
  get-remove ((i, v) ∷ m) k j =
      ground (arith, get-remove m k j, e.beq_iff k i, e.beq_iff j i, e.beq_iff j k)

module _ (K V : Type 0) ⦃e : Eq K⦄ (max : ℕ) where
  abbrev pub bounded_map : HashMap K V
  bounded_map = record { Map = List (K × V); lookup = get; update = put max; delete = remove }

  pub bounded_map-IsLawful : HashMap.IsLawful bounded_map
  bounded_map-IsLawful = record {
    lookup-update = λ m k v j h. ground (arith, get-remove m k j);
    lookup-update_refused = λ m k v j h. ground arith;
    lookup-delete = get-remove;
  }

pub record Buffer (E : Type 0) : Type 0 where
  pub items : List E
  pub pending : ℕ

module _ {E : Type 0} (junk : E) (max : ℕ) where
  abbrev pub bounded_ring : RingBuf E
  bounded_ring = record {
    Ring = Buffer E;
    reserve = λ r n.
        if ltb (length r.items + r.pending) max
        then some (junk, record r { pending = suc r.pending })
        else none;
    submit = λ r x. record { items = r.items ++ (x ∷ []); pending = r.pending - 1 };
    submitted = λ r. r.items;
    held = λ r. r.pending;
  }

  pub bounded_ring-IsLawful : RingBuf.IsLawful bounded_ring
  bounded_ring-IsLawful = record {
    submitted-reserve = λ r n x r' h. ground arith;
    held-reserve = λ r n x r' h. ground arith;
    submitted-submit = λ r x. refl;
    held-submit = λ r x n h. omega arith;
  }
