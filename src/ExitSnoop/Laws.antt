-- ===== src/ExitSnoop/Laws.antt =====
-- Which exits exitsnoop.c reports, and what its events say of the exit.
use bumblebee.Common.{
  ℕ, ◌+◌, ◌*◌, ◌%◌, ◌^◌, ◌<◌, ◌≡◌, ◌≢◌, Bool, true, false, none, List, [], ◌∷◌, ◌++◌, arith,
  Option-cases, inl, inr, ◌==◌, if◌then◌else◌,
}
use mathlib.Core.List.{append-nil}
use bumblebee.CTypes.Layout.{size}
use bumblebee.Bpf.RingBuf.{RingBuf, IsLawful}
use bumblebee.Bpf.RingBuf.Stream.{run, HasRoom, reports, submitted-run, held-run}
use bumblebee.Bpf.RingBuf.Laws.{submitted-emit, held-emit}
use bumblebee.Bpf.Context.{Context}
use bumblebee.ExitSnoop.{
  Event, event, event_of, task_field, signal_of, status_of, sched_process_exit,
}

-- The two parts of an event give back the whole `exit_code` of the task, as a bit pattern.
pub exit_code_parts :
    (code : ℕ) → code < 2 ^ 32 → (status_of code * 256 + signal_of code) % 2 ^ 32 ≡ code
unfolding status_of signal_of
exit_code_parts code h = ground arith

-- A status passed to `exit`, which the kernel keeps as `status << 8`, is reported with no signal; a
-- signal number, with or without the core dump flag 128, is reported with the status 0.
pub exit_kinds :
    (status sig : ℕ)
    → status < 256
    → sig < 256
    → (status_of (status * 256) ≡ status)
      × (signal_of (status * 256) ≡ 0)
      × (status_of sig ≡ 0)
      × (signal_of sig ≡ sig)
unfolding status_of signal_of
exit_kinds status sig h k = ground arith

-- Whether an exit is reported.
abbrev pub wanted : Bool → Context → Bool
wanted false ctx = true
wanted true ctx = if task_field ctx "exit_code" == 0 then false else true

-- The events of an exit.
abbrev pub report : Bool → Context → List Event
report failed_only ctx = if wanted failed_only ctx then event_of ctx ∷ [] else []

module _ (R : RingBuf Event) where
  module _ (L : IsLawful R) where
    submitted-exit :
        (failed_only : Bool) (ctx : Context) (s : R.Ring)
        → R.reserve s (size event) ≢ none
        → R.submitted (sched_process_exit R failed_only ctx s)
          ≡ R.submitted s ++ report failed_only ctx
    unfolding sched_process_exit
    submitted-exit failed_only ctx s room = elim (Option-cases (R.reserve s (size event))) [
      | inl full ↦ absurd (room full)
      | inr (er, got) ↦ ground (
        arith,
        submitted-emit L s (size event) er.0 (event_of ctx) er.1 got,
        append-nil (R.submitted s),
      )
    ]

    -- With room in the ring buffer, the consumer is given one event for each exit, in order, except
    -- that with `trace_failed_only` the exits with code 0 are left out.
    pub submitted-exits :
        (failed_only : Bool) (exits : List Context) (s : R.Ring)
        → HasRoom R (sched_process_exit R failed_only) (size event) exits s
        → R.submitted (run R (sched_process_exit R failed_only) exits s)
          ≡ R.submitted s ++ reports (report failed_only) exits
    submitted-exits failed_only =
        submitted-run R (sched_process_exit R failed_only) (size event) (report failed_only)
          (submitted-exit failed_only)

    held-exit :
        (failed_only : Bool) (ctx : Context) (s : R.Ring)
        → R.held (sched_process_exit R failed_only ctx s) ≡ R.held s
    unfolding sched_process_exit
    held-exit failed_only ctx s = elim (Option-cases (R.reserve s (size event))) [
      | inl full ↦ ground arith
      | inr (er, got) ↦ ground (arith, held-emit L s (size event) er.0 (event_of ctx) er.1 got)
    ]

    -- No sequence of exits, reported or not, leaves a reservation behind.
    pub held-exits :
        (failed_only : Bool) (exits : List Context) (s : R.Ring)
        → R.held (run R (sched_process_exit R failed_only) exits s) ≡ R.held s
    held-exits failed_only = held-run R (sched_process_exit R failed_only) (held-exit failed_only)
