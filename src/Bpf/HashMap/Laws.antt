-- ===== src/Bpf/HashMap/Laws.antt =====
-- One key of a hash map across one operation.
use bumblebee.Common.{◌≡◌, ◌≢◌, ◌∙◌, true, none, some, Bool-cases, inl, inr, arith}
use bumblebee.Bpf.Equality.{Eq}
use bumblebee.Bpf.HashMap.{HashMap, IsLawful}

module _ {K V : Type 0} ⦃e : Eq K⦄ {H : HashMap K V} (L : IsLawful H) where
  -- Another key keeps its value, whether or not the update succeeds.
  pub lookup-update_ne :
      (m : H.Map) (k : K) (v : V) (j : K) → j ≢ k → H.lookup (H.update m k v).0 j ≡ H.lookup m j
  lookup-update_ne m k v j ne = elim (Bool-cases (H.update m k v).1) [
    | inl stored ↦ L.lookup-update m k v j stored ∙ ground (arith, e.beq_iff j k)
    | inr refused ↦ L.lookup-update_refused m k v j refused
  ]

  pub lookup-update_self :
      (m : H.Map) (k : K) (v : V)
      → (H.update m k v).1 ≡ true
      → H.lookup (H.update m k v).0 k ≡ some v
  lookup-update_self m k v stored = L.lookup-update m k v k stored ∙ ground (arith, e.beq_iff k k)

  pub lookup-delete_self : (m : H.Map) (k : K) → H.lookup (H.delete m k) k ≡ none
  lookup-delete_self m k = L.lookup-delete m k k ∙ ground (arith, e.beq_iff k k)

  pub lookup-delete_ne : (m : H.Map) (k j : K) → j ≢ k → H.lookup (H.delete m k) j ≡ H.lookup m j
  lookup-delete_ne m k j ne = L.lookup-delete m k j ∙ ground (arith, e.beq_iff j k)
