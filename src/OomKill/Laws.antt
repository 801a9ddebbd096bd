-- ===== src/OomKill/Laws.antt =====
-- The events of oomkill.c.
use bumblebee.Common.{
  ℕ, ◌≡◌, ◌≢◌, none, List, [], ◌∷◌, ◌++◌, arith, to_u32, high_u32, Option-cases, inl, inr,
}
use bumblebee.CTypes.Layout.{size}
use bumblebee.Bpf.RingBuf.{RingBuf, IsLawful}
use bumblebee.Bpf.RingBuf.Laws.{submitted-emit, held-emit}
use bumblebee.Bpf.RingBuf.Stream.{run, HasRoom, reports, submitted-run, held-run}
use bumblebee.Bpf.Context.{Context}
use bumblebee.OomKill.{Kill, data_t, task_comm_len, total_pages, chosen_comm, oom_kill_process}

-- A call of `oom_kill_process`: the task that triggers it, and the `struct oom_control`.
pub record Trigger : Type 0 where
  pub ctx : Context
  pub oc : ℕ

-- Its event. Only `pages` and `tcomm` come from the `struct oom_control`.
abbrev pub event_of : Trigger → Kill
event_of t = record {
  fpid = high_u32 t.ctx.pid_tgid;
  tpid = to_u32 t.ctx.pid_tgid;
  pages = total_pages t.ctx t.oc;
  fcomm = t.ctx.current_comm task_comm_len;
  tcomm = chosen_comm t.ctx t.oc;
}

module _ (R : RingBuf Kill) where
  abbrev pub step : Trigger → R.Ring → R.Ring
  step t s = oom_kill_process R t.ctx t.oc s

  module _ (L : IsLawful R) where
    submitted-kill :
        (t : Trigger) (s : R.Ring)
        → R.reserve s (size data_t) ≢ none
        → R.submitted (step t s) ≡ R.submitted s ++ (event_of t ∷ [])
    unfolding oom_kill_process
    submitted-kill t s room = elim (Option-cases (R.reserve s (size data_t))) [
      | inl full ↦ absurd (room full)
      | inr (er, got) ↦ ground (arith, submitted-emit L s (size data_t) er.0 (event_of t) er.1 got)
    ]

    -- With room in the ring buffer, the consumer is given one event for each kill, in order. Its
    -- `fpid` is the process that triggers the kill and its `tpid` the thread of that process; the
    -- name `tcomm` and the pages are read from the kill's `struct oom_control`.
    pub submitted-kills :
        (kills : List Trigger) (s : R.Ring)
        → HasRoom R step (size data_t) kills s
        → R.submitted (run R step kills s) ≡ R.submitted s ++ reports (λ t. event_of t ∷ []) kills
    submitted-kills = submitted-run R step (size data_t) (λ t. event_of t ∷ []) submitted-kill

    held-kill : (t : Trigger) (s : R.Ring) → R.held (step t s) ≡ R.held s
    unfolding oom_kill_process
    held-kill t s = elim (Option-cases (R.reserve s (size data_t))) [
      | inl full ↦ ground arith
      | inr (er, got) ↦ ground (arith, held-emit L s (size data_t) er.0 (event_of t) er.1 got)
    ]

    -- No sequence of kills leaves a reservation behind, with room or without.
    pub held-kills : (kills : List Trigger) (s : R.Ring) → R.held (run R step kills s) ≡ R.held s
    held-kills = held-run R step held-kill
