-- ===== src/Bpf/RingBuf.antt =====
-- `BPF_MAP_TYPE_RINGBUF` through `bpf_ringbuf_reserve` and `bpf_ringbuf_submit`, for records of one
-- type. The bytes of a record are seen as a value of that type.
pub mod Laws
pub mod Stream
use bumblebee.Common.{ℕ, suc, ◌≡◌, Option, some, List, [], ◌∷◌, ◌++◌}

-- `reserve` finds what the memory holds from earlier use, and returns none where the buffer has no
-- room. `submitted` is what the consumer is given, in order; `held` counts the reservations that
-- are neither submitted nor discarded, of which the verifier lets no program leave one behind.
pub record RingBuf (E : Type 0) : Type 1 where
  pub Ring : Type 0
  pub reserve : Ring → ℕ → Option (E × Ring)
  pub submit : Ring → E → Ring
  pub submitted : Ring → List E
  pub held : Ring → ℕ

pub record IsLawful {E : Type 0} (R : RingBuf E) : Type 0 where
  pub submitted-reserve :
      (r : R.Ring) (n : ℕ) (e : E) (r' : R.Ring)
      → R.reserve r n ≡ some (e, r')
      → R.submitted r' ≡ R.submitted r
  pub held-reserve :
      (r : R.Ring) (n : ℕ) (e : E) (r' : R.Ring)
      → R.reserve r n ≡ some (e, r')
      → R.held r' ≡ suc (R.held r)
  pub submitted-submit :
      (r : R.Ring) (e : E) → R.submitted (R.submit r e) ≡ R.submitted r ++ (e ∷ [])
  pub held-submit : (r : R.Ring) (e : E) (n : ℕ) → R.held r ≡ suc n → R.held (R.submit r e) ≡ n
