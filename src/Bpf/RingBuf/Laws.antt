-- ===== src/Bpf/RingBuf/Laws.antt =====
-- A reservation that is submitted at once.
use bumblebee.Common.{ℕ, ◌≡◌, ◌∙◌, ap, some, [], ◌∷◌, ◌++◌}
use bumblebee.Bpf.RingBuf.{RingBuf, IsLawful}

module _ {E : Type 0} {R : RingBuf E} (L : IsLawful R) where
  pub submitted-emit :
      (r : R.Ring) (n : ℕ) (e e' : E) (r' : R.Ring)
      → R.reserve r n ≡ some (e, r')
      → R.submitted (R.submit r' e') ≡ R.submitted r ++ (e' ∷ [])
  submitted-emit r n e e' r' h =
      L.submitted-submit r' e' ∙ ap (λ xs. xs ++ (e' ∷ [])) (L.submitted-reserve r n e r' h)

  pub held-emit :
      (r : R.Ring) (n : ℕ) (e e' : E) (r' : R.Ring)
      → R.reserve r n ≡ some (e, r')
      → R.held (R.submit r' e') ≡ R.held r
  held-emit r n e e' r' h = L.held-submit r' e' (R.held r) (L.held-reserve r n e r' h)
