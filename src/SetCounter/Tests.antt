-- ===== src/SetCounter/Tests.antt =====
-- Runs of `setCounter`, and its theorems at concrete data. Labels are numbers here, and a collector
-- is a function from them.
use bumblebee.Common.{
  ℕ, ◌+◌, ◌^◌, ◌≡◌, refl, ◌==◌, ltb, Option, none, some, List, [], ◌∷◌, arith, if◌then◌else◌,
}
use bumblebee.SetCounter.{CounterVec, State, new_set_counter, set, run}
use bumblebee.SetCounter.Laws.{IsLawful, last_value, run-Rising, falling_panics}

abbrev vec : CounterVec ℕ
vec = record {
  Vec = ℕ → ℕ;
  value = λ c key. c key;
  add = λ c key d. if ltb d (2 ^ 63) then some (λ k. if k == key then c k + d else c k) else none;
}

vec-IsLawful : IsLawful vec
vec-IsLawful = record {
  adds = λ c key d bound. (
    (λ k. if k == key then c k + d else c k),
    ground arith,
    ground arith,
    λ other ne. ground arith,
  );
  panics = λ c key d negative bound. ground arith;
}

abbrev start : State (ℕ → ℕ)
start = new_set_counter (λ key. 0)

abbrev sets : List (ℕ × ℕ)
sets = (3, 10) ∷ (5, 11) ∷ (3, 10) ∷ (8, 10) ∷ []

abbrev shown : ℕ → Option (State (ℕ → ℕ)) → ℕ
shown key none = 0
shown key (some s) = s.counter key

counted : shown 10 (run vec (λ key. key) sets start) ≡ 8
unfolding run set
counted = refl

run-Rising_example :
    (t : State (ℕ → ℕ)) × (run vec (λ key. key) sets start ≡ some t)
    × ((key : ℕ) → t.counter key ≡ last_value (λ k. k) sets key 0)
run-Rising_example =
    run-Rising vec (λ key. key) vec-IsLawful (λ a b e. e) sets start (λ key. refl)
      (
        omega arith,
        (
          omega arith,
          (
            omega arith,
            (omega arith, (omega arith, (omega arith, (omega arith, (omega arith, tt))))),
          ),
        ),
      )

abbrev later : State (ℕ → ℕ)
later = record { counter = λ key. 7; counter_map = λ h. 7 }

falling_panics_example : set vec (λ key. key) 2 10 later ≡ none
falling_panics_example =
    falling_panics vec (λ key. key) vec-IsLawful (λ a b e. e) 2 10 later (λ key. refl) (omega arith)
      (omega arith)
