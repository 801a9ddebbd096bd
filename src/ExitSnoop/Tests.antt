-- ===== src/ExitSnoop/Tests.antt =====
-- Runs of exitsnoop.c's tracepoint, and its theorems at concrete data.
use bumblebee.Common.{◌-◌, ◌^◌, ◌≡◌, refl, true, List, [], ◌∷◌, replicate}
use bumblebee.CTypes.Layout.{size}
use bumblebee.CTypes.Access.{locate}
use bumblebee.Bpf.RingBuf.{RingBuf}
use bumblebee.Bpf.RingBuf.Stream.{run}
use bumblebee.Bpf.Examples.{Buffer, bounded_ring, bounded_ring-IsLawful}
use bumblebee.Bpf.Context.{Context, core_read, from_bytes}
use bumblebee.Samples.{context}
use bumblebee.ExitSnoop.{
  Event, event, task_field, parent_tgid, signal_of, status_of, sched_process_exit,
}
use bumblebee.ExitSnoop.Laws.{submitted-exits}

abbrev empty : Event
empty = record {
  start_time = 0;
  exit_time = 0;
  pid = 0;
  tid = 0;
  ppid = 0;
  sig = 0;
  exit_code = 0;
  comm = [];
}

abbrev ring : RingBuf Event
ring = bounded_ring empty 9

abbrev fresh : Buffer Event
fresh = record { items = []; pending = 0 }

-- The sample process ends with status 1; a process with no readable task reads as code 0.
abbrev exits : List Context
exits = context 5 100 ∷ record (context 6 200) { task = 0 } ∷ []

abbrev expected : Event
expected = record {
  start_time = 0;
  exit_time = 100;
  pid = 42;
  tid = 5;
  ppid = 42;
  sig = 0;
  exit_code = 1;
  comm = 98 ∷ 97 ∷ 115 ∷ 104 ∷ replicate 12 0;
}

event-size : size event ≡ 56
unfolding size
event-size = refl

run_failed_only :
    run ring (sched_process_exit ring true) exits fresh
    ≡ record { items = expected ∷ []; pending = 0 }
unfolding run sched_process_exit task_field parent_tgid signal_of status_of core_read from_bytes
    locate size
run_failed_only = refl

-- The `int` -1, as a code, is the status -1 and the signal 255.
negative_code : (status_of (2 ^ 32 - 1) ≡ 2 ^ 32 - 1) × (signal_of (2 ^ 32 - 1) ≡ 255)
unfolding status_of signal_of
negative_code = (refl, refl)

submitted-exits_example :
    ring.submitted (run ring (sched_process_exit ring true) exits fresh) ≡ expected ∷ []
unfolding run sched_process_exit task_field parent_tgid signal_of status_of core_read from_bytes
    locate size
submitted-exits_example =
    submitted-exits ring (bounded_ring-IsLawful empty 9) true exits fresh
      ((λ e. cc), ((λ e. cc), tt))
