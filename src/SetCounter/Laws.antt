-- ===== src/SetCounter/Laws.antt =====
-- pkg/stats/stats.go: a `setCounter` follows the values that it is set to.
use native.Mathlib.Decide.{ℕ_discrete}
use bumblebee.Common.{
  ℕ, ◌+◌, ◌^◌, ◌≤◌, ◌<◌, ◌≡◌, refl, sym, ap, ◌∙◌, ◌≢◌, ◌==◌, none, some, List, [], ◌∷◌, arith,
  sub_u64, if◌then◌else◌,
}
use bumblebee.SetCounter.{CounterVec, State, put, set, run}

-- What prometheus documents of `Add`: it adds what is not negative, and panics otherwise. The values
-- are float64, which is exact up to 2 ^ 53.
pub record IsLawful {Labels : Type 0} (P : CounterVec Labels) : Type 0 where
  pub adds :
      (c : P.Vec) (key : Labels) (d : ℕ)
      → P.value c key + d ≤ 2 ^ 53
      → (t : P.Vec) × (P.add c key d ≡ some t)
        × (P.value t key ≡ P.value c key + d)
        × ((other : Labels) → other ≢ key → P.value t other ≡ P.value c other)
  pub panics : (c : P.Vec) (key : Labels) (d : ℕ) → 2 ^ 63 ≤ d → d < 2 ^ 64 → P.add c key d ≡ none

put-same : (k v : ℕ) (m : ℕ → ℕ) (h : ℕ) → m k ≡ v → m h ≡ put k v m h
put-same k v m h e = elim (ℕ_discrete h k) [
  | yes same ↦ ground (arith, same, ap m same)
  | no ne ↦ ground (arith, ne)
]

module _ {Labels : Type 0} (hash : Labels → ℕ) where
  -- What the last of the values for the labels of a hash is, or else the one before them.
  abbrev pub last_value : List (ℕ × Labels) → ℕ → ℕ → ℕ
  last_value [] h before = before
  last_value ((v, key) ∷ sets) h before = last_value sets h (if h == hash key then v else before)

  -- No value falls below the one before it of the same labels, and all are at most 2 ^ 53.
  abbrev pub Rising : List (ℕ × Labels) → (ℕ → ℕ) → Type 0
  Rising [] old = Unit
  Rising ((v, key) ∷ sets) old =
      (old (hash key) ≤ v) × ((v ≤ 2 ^ 53) × Rising sets (put (hash key) v old))

module _ {Labels : Type 0} (P : CounterVec Labels) (hash : Labels → ℕ) (law : IsLawful P)
    (hash_inj : (a b : Labels) → hash a ≡ hash b → a ≡ b) where
  -- The map of old values holds the values of the counters.
  abbrev pub InStep : State P.Vec → Type 0
  InStep s = (key : Labels) → P.value s.counter key ≡ s.counter_map (hash key)

  InStep-put :
      (v : ℕ) (key : Labels) (s : State P.Vec) (c : P.Vec)
      → InStep s
      → P.value c key ≡ v
      → ((other : Labels) → other ≢ key → P.value c other ≡ P.value s.counter other)
      → InStep (record { counter = c; counter_map = put (hash key) v s.counter_map })
  InStep-put v key s c in_step now same k = elim (ℕ_discrete (hash k) (hash key)) [
    | yes e ↦ ground (arith, e, now, ap (P.value c) (hash_inj k key e))
    | no ne ↦ ground (arith, ne, in_step k, same k (λ e. ne (ap hash e)))
  ]

  -- A `Set` of a value that does not fall: it does not panic, and the map of old values is `put`.
  set-rising :
      (v : ℕ) (key : Labels) (s : State P.Vec)
      → InStep s
      → s.counter_map (hash key) ≤ v
      → v ≤ 2 ^ 53
      → (t : State P.Vec) × (set P hash v key s ≡ some t)
        × InStep t
        × (t.counter_map ≡ put (hash key) v s.counter_map)
  unfolding set
  set-rising v key s in_step grows bound = elim (ℕ_discrete (s.counter_map (hash key)) v) [
    | yes e ↦ (s, ground (arith, e), in_step, λ i h. put-same (hash key) v s.counter_map h e i)
    | no ne ↦
        let old : P.value s.counter key ≡ s.counter_map (hash key) = in_step key in
        let (c, added, up, same) =
          law.adds s.counter key (sub_u64 v (s.counter_map (hash key))) (omega arith) in
        (
          record { counter = c; counter_map = put (hash key) v s.counter_map },
          ground (arith, added, ne),
          InStep-put v key s c in_step (omega arith) same,
          refl,
        )
  ]

  -- Counters that are in step show after any rising values, each at most 2 ^ 53, the last value that
  -- each was set to, and what it showed before if it was not set; no `Set` panics. The labels
  -- that occur must have different hashes.
  pub run-Rising :
      (sets : List (ℕ × Labels)) (s : State P.Vec)
      → InStep s
      → Rising hash sets s.counter_map
      → (t : State P.Vec) × (run P hash sets s ≡ some t)
        × ((key : Labels)
            → P.value t.counter key ≡ last_value hash sets (hash key) (P.value s.counter key))
  unfolding run
  run-Rising [] s in_step rising = (s, refl, λ key. refl)
  run-Rising ((v, key) ∷ sets) s in_step (grows, (bound, rising)) =
      let (t, stepped, step_in, now) = set-rising v key s in_step grows bound in
      let (u, ran, latest) = run-Rising sets t step_in (rw now rising) in
      (
        u,
        ground (arith, stepped, ran),
        λ k.
            latest k
            ∙ ap (last_value hash sets (hash k)) (
                step_in k
                ∙ (ap (λ m. m (hash k)) now
                    ∙ ap (λ x. if hash k == hash key then v else x) (sym (in_step k)))),
      )

  -- With counters in step, a value below the one that its counter shows panics, if that one is at most
  -- 2 ^ 53. The labels that occur must have different hashes.
  pub falling_panics :
      (v : ℕ) (key : Labels) (s : State P.Vec)
      → InStep s
      → v < P.value s.counter key
      → P.value s.counter key ≤ 2 ^ 53
      → set P hash v key s ≡ none
  unfolding set
  falling_panics v key s in_step falls bound =
      ground (arith, in_step key, law.panics s.counter key (sub_u64 v (s.counter_map (hash key))))
