-- ===== src/Bpf/RingBuf/Stream.antt =====
-- A program whose whole state is its ring buffer, over a sequence of calls.
use mathlib.Core.List.{append_assoc, append-nil}
use bumblebee.Common.{ℕ, ◌≡◌, refl, ◌≢◌, ◌∙◌, none, List, [], ◌∷◌, ◌++◌}
use bumblebee.Bpf.RingBuf.{RingBuf}

-- What the calls of a sequence report, in order.
abbrev pub reports : {C E : Type 0} → (C → List E) → List C → List E
reports report [] = []
reports report (c ∷ calls) = report c ++ reports report calls

module _ {C E : Type 0} (R : RingBuf E) (step : C → R.Ring → R.Ring) where
  unfoldable pub run : List C → R.Ring → R.Ring
  run [] s = s
  run (c ∷ calls) s = run calls (step c s)

  -- The buffer has room for a record of `n` bytes at each call.
  abbrev pub HasRoom : ℕ → List C → R.Ring → Type 0
  HasRoom n [] s = Unit
  HasRoom n (c ∷ calls) s = (R.reserve s n ≢ none) × HasRoom n calls (step c s)

  -- If each call submits its reports, a sequence submits those of its calls, in order.
  pub submitted-run :
      (n : ℕ) (report : C → List E)
      → ((c : C) (s : R.Ring)
          → R.reserve s n ≢ none
          → R.submitted (step c s) ≡ R.submitted s ++ report c)
      → (calls : List C) (s : R.Ring) → HasRoom n calls s
      → R.submitted (run calls s) ≡ R.submitted s ++ reports report calls
  unfolding run
  submitted-run n report each [] s room = rw append-nil
  submitted-run n report each (c ∷ calls) s room =
      submitted-run n report each calls (step c s) room.1
      ∙ rw (each c s room.0) (append_assoc (R.submitted s) (report c) (reports report calls))

  pub held-run :
      ((c : C) (s : R.Ring) → R.held (step c s) ≡ R.held s)
      → (calls : List C) (s : R.Ring) → R.held (run calls s) ≡ R.held s
  unfolding run
  held-run each [] s = refl
  held-run each (c ∷ calls) s = held-run each calls (step c s) ∙ each c s
