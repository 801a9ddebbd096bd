-- ===== src/Bpf/HashMap.antt =====
-- `BPF_MAP_TYPE_HASH` through `bpf_map_lookup_elem`, `bpf_map_update_elem` with flags 0, and
-- `bpf_map_delete_elem`.
pub mod Laws
use bumblebee.Common.{◌≡◌, Bool, true, false, Option, none, some, if◌then◌else◌}
use bumblebee.Bpf.Equality.{Eq, ◌==◌}

-- An update says whether it returned 0; it fails where the map is full or memory is short.
pub record HashMap (K V : Type 0) : Type 1 where
  pub Map : Type 0
  pub lookup : Map → K → Option V
  pub update : Map → K → V → Map × Bool
  pub delete : Map → K → Map

pub record IsLawful {K V : Type 0} ⦃e : Eq K⦄ (H : HashMap K V) : Type 0 where
  pub lookup-update :
      (m : H.Map) (k : K) (v : V) (j : K)
      → (H.update m k v).1 ≡ true
      → H.lookup (H.update m k v).0 j ≡ (if j == k then some v else H.lookup m j)
  pub lookup-update_refused :
      (m : H.Map) (k : K) (v : V) (j : K)
      → (H.update m k v).1 ≡ false
      → H.lookup (H.update m k v).0 j ≡ H.lookup m j
  pub lookup-delete :
      (m : H.Map) (k j : K) → H.lookup (H.delete m k) j ≡ (if j == k then none else H.lookup m j)
