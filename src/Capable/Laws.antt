-- ===== src/Capable/Laws.antt =====
-- The events of capable.c.
use bumblebee.Common.{
  ℕ, ◌≡◌, ◌≢◌, none, List, [], ◌∷◌, ◌++◌, arith, to_u32, high_u32, Option-cases, inl, inr,
}
use bumblebee.CTypes.Layout.{size}
use bumblebee.Bpf.RingBuf.{RingBuf, IsLawful}
use bumblebee.Bpf.RingBuf.Laws.{submitted-emit, held-emit}
use bumblebee.Bpf.RingBuf.Stream.{run, HasRoom, reports, submitted-run, held-run}
use bumblebee.Bpf.Context.{Context}
use bumblebee.Capable.{CapEvent, cap_event, task_comm_len, mntns_id, cap_capable}

-- A call of `cap_capable`.
pub record Check : Type 0 where
  pub ctx : Context
  pub cap : ℕ
  pub cap_opt : ℕ

-- Its event: nothing in it depends on what the reserved memory held.
abbrev pub event_of : Check → CapEvent
event_of c = record {
  mntnsid = mntns_id c.ctx;
  pid = high_u32 c.ctx.pid_tgid;
  cap = c.cap;
  tgid = to_u32 c.ctx.pid_tgid;
  uid = to_u32 c.ctx.uid_gid;
  cap_opt = c.cap_opt;
  task = c.ctx.current_comm task_comm_len;
}

module _ (R : RingBuf CapEvent) where
  abbrev pub step : Check → R.Ring → R.Ring
  step c s = cap_capable R c.ctx c.cap c.cap_opt s

  module _ (L : IsLawful R) where
    submitted-check :
        (c : Check) (s : R.Ring)
        → R.reserve s (size cap_event) ≢ none
        → R.submitted (step c s) ≡ R.submitted s ++ (event_of c ∷ [])
    unfolding cap_capable
    submitted-check c s room = elim (Option-cases (R.reserve s (size cap_event))) [
      | inl full ↦ absurd (room full)
      | inr (er, got) ↦
          ground (arith, submitted-emit L s (size cap_event) er.0 (event_of c) er.1 got)
    ]

    -- With room in the ring buffer, the consumer is given one event for each capability check, in
    -- order, and all its members come from the check: none shows what the memory held before.
    pub submitted-checks :
        (checks : List Check) (s : R.Ring)
        → HasRoom R step (size cap_event) checks s
        → R.submitted (run R step checks s) ≡ R.submitted s ++ reports (λ c. event_of c ∷ []) checks
    submitted-checks = submitted-run R step (size cap_event) (λ c. event_of c ∷ []) submitted-check

    held-check : (c : Check) (s : R.Ring) → R.held (step c s) ≡ R.held s
    unfolding cap_capable
    held-check c s = elim (Option-cases (R.reserve s (size cap_event))) [
      | inl full ↦ ground arith
      | inr (er, got) ↦ ground (arith, held-emit L s (size cap_event) er.0 (event_of c) er.1 got)
    ]

    -- No sequence of checks leaves a reservation behind, with room or without.
    pub held-checks : (checks : List Check) (s : R.Ring) → R.held (run R step checks s) ≡ R.held s
    held-checks = held-run R step held-check
