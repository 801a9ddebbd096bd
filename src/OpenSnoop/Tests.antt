-- ===== src/OpenSnoop/Tests.antt =====
-- Runs of opensnoop.c's tracepoints, and its theorems at concrete data.
use bumblebee.Common.{ℕ, ◌+◌, ◌≡◌, refl, List, [], ◌∷◌, replicate}
use bumblebee.CTypes.Layout.{size}
use bumblebee.Bpf.Equality.{nat_eq}
use bumblebee.Bpf.HashMap.{HashMap}
use bumblebee.Bpf.RingBuf.{RingBuf}
use bumblebee.Bpf.Examples.{bounded_map, bounded_ring}
use bumblebee.Samples.{context}
use bumblebee.OpenSnoop.{
  Maps, Args, Event, Call, sys_enter_open, sys_enter_openat, sys_exit_open, sys_exit_openat, event,
  probe, run,
}

abbrev by_thread : HashMap ℕ Args
by_thread = bounded_map ℕ Args 10240

abbrev empty : Event
empty = record { ts = 7; pid = 7; uid = 7; ret = 7; flags = 7; comm = []; fname = [] }

abbrev ring : ℕ → RingBuf Event
ring = bounded_ring empty

abbrev fresh : (room : ℕ) → Maps by_thread (ring room)
fresh room = record { start = []; events = record { items = []; pending = 0 } }

-- Arguments 100, 101, 102, and so on.
abbrev arguments : ℕ → ℕ
arguments n = 100 + n

abbrev expected : ℕ → ℕ → Event
expected flags ret = record {
  ts = 0;
  pid = 42;
  uid = 1001;
  ret = ret;
  flags = flags;
  comm = 98 ∷ 97 ∷ 115 ∷ 104 ∷ replicate 12 0;
  fname = 47 ∷ 120 ∷ replicate 253 0;
}

event-size : size event ≡ 296
unfolding size
event-size = refl

-- A failing `openat`: the value -2 of the `long` is cut to the `int` -2.
run_openat :
    run by_thread
      (ring 9)
      (sys_enter_openat (context 5 1) arguments
        ∷ sys_exit_openat (context 6 2) 0
        ∷ sys_exit_openat (context 5 3) 0xffff_ffff_ffff_fffe
        ∷ [])
      (fresh 9)
    ≡ record { start = []; events = record { items = expected 102 0xffff_fffe ∷ []; pending = 0 } }
unfolding run probe
run_openat = refl

-- With no room the entry stays, and a later exit of the thread reports it.
run_no_room :
    run by_thread
      (ring 0)
      (sys_enter_open (context 5 1) arguments ∷ sys_exit_open (context 5 3) 0 ∷ [])
      (fresh 0)
    ≡ record {
      start = (5, record { fname = 100; flags = 101 }) ∷ [];
      events = record { items = []; pending = 0 };
    }
unfolding run probe
run_no_room = refl

abbrev entered : (room : ℕ) → Maps by_thread (ring room)
entered room = record (fresh room) { start = (5, record { fname = 100; flags = 101 }) ∷ [] }

-- Thread 6 opens another file in between.
abbrev meanwhile : List Call
meanwhile = sys_enter_open (context 6 2) (λ n. n) ∷ sys_exit_open (context 6 3) 4 ∷ []
