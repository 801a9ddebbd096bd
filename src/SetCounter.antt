-- ===== src/SetCounter.antt =====
-- pkg/stats/stats.go: `setCounter`, which makes a counter of prometheus follow the values that the
-- loader reads from a map. The collector of the prometheus library and the hash of the labels are
-- parameters, and so is the type of the labels that occur.
pub mod Laws
mod Tests
use bumblebee.Common.{ℕ, ◌==◌, Option, none, some, List, [], ◌∷◌, sub_u64, if◌then◌else◌}

-- `prometheus.CounterVec` for labels of a type: the value of a counter, and `With(labels).Add`. What
-- is added is the bit pattern of an `int64`. None is a panic.
pub record CounterVec (Labels : Type 0) : Type 1 where
  pub Vec : Type 0
  pub value : Vec → Labels → ℕ
  pub add : Vec → Labels → ℕ → Option Vec

pub record State (Vec : Type 0) : Type 0 where
  pub counter : Vec
  pub counter_map : ℕ → ℕ

-- `NewSetCounter`, with the collector that prometheus makes.
abbrev pub new_set_counter : {Vec : Type 0} → Vec → State Vec
new_set_counter c = record { counter = c; counter_map = λ h. 0 }

-- `counterMap[keyHash] = intVal`; a key that is missing reads as 0.
abbrev pub put : ℕ → ℕ → (ℕ → ℕ) → ℕ → ℕ
put hash v m h = if h == hash then v else m h

module _ {Labels : Type 0} (P : CounterVec Labels) (hash : Labels → ℕ) where
  unfoldable pub set : ℕ → Labels → State P.Vec → Option (State P.Vec)
  set int_val decoded_key s =
      let key_hash = hash decoded_key in
      let old_val = s.counter_map key_hash in
      let diff = sub_u64 int_val old_val in
      if old_val == int_val then some s else elim (P.add s.counter decoded_key diff) [
        | none ↦ none
        | some c ↦ some (record { counter = c; counter_map = put key_hash int_val s.counter_map })
      ]

  -- The values that the loader sets, one after the other.
  unfoldable pub run : List (ℕ × Labels) → State P.Vec → Option (State P.Vec)
  run [] s = some s
  run ((v, key) ∷ sets) s = elim (set v key s) [ none ↦ none | some t ↦ run sets t ]
