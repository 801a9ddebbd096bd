-- ===== src/OpenSnoop.antt =====
-- examples/opensnoop/opensnoop.c: the files that processes open, as events. The map and the ring
-- buffer are parameters. Every tracepoint returns 0.
pub mod Laws
mod Tests
use bumblebee.Common.{
  ℕ, ◌^◌, String, Option, none, some, List, [], ◌∷◌, to_u32, high_u32, replicate,
}
use bumblebee.CTypes.Syntax.{CType, char, int, ptr, array, struct, member, end, ◌▸◌}
use bumblebee.CTypes.Layout.{size}
use bumblebee.Bpf.MapSpec.{MapSpec, hash, ringbuf}
use bumblebee.Bpf.HashMap.{HashMap}
use bumblebee.Bpf.RingBuf.{RingBuf}
use bumblebee.Bpf.Context.{Context}
use bumblebee.Kernel.Basic.{u32, uapi_u64, uid_t}
use bumblebee.Kernel.TaskParts.{pid_t}

abbrev pub task_comm_len : ℕ
task_comm_len = 16

abbrev pub name_max : ℕ
name_max = 255

-- opensnoop.h
abbrev pub args_t : CType
args_t = struct (member "fname" ptr ▸ member "flags" int ▸ end)

abbrev pub event : CType
event = struct (
    member "ts" uapi_u64
    ▸ member "pid" pid_t
    ▸ member "uid" uid_t
    ▸ member "ret" int
    ▸ member "flags" int
    ▸ member "comm" (array char task_comm_len)
    ▸ member "fname" (array char name_max)
    ▸ end)

-- The values of `struct args_t` and of `struct event`.
pub record Args : Type 0 where
  pub fname : ℕ
  pub flags : ℕ

pub record Event : Type 0 where
  pub ts : ℕ
  pub pid : ℕ
  pub uid : ℕ
  pub ret : ℕ
  pub flags : ℕ
  pub comm : List ℕ
  pub fname : List ℕ

abbrev pub start : MapSpec
start = record {
  section = ".maps";
  typ = hash;
  max_entries = 10240;
  key = some u32;
  value = args_t;
}

abbrev pub events : MapSpec
events = record {
  section = ".maps.print";
  typ = ringbuf;
  max_entries = 2 ^ 24;
  key = none;
  value = event;
}

pub record State (A B : Type 0) : Type 0 where
  pub start : A
  pub events : B

-- The event of a system call that returns `ret`, with the arguments stored at its entry. `ts` keeps
-- the 0 that `event` begins with.
abbrev pub event_of : Context → Args → ℕ → Event
event_of ctx ap ret = record {
  ts = 0;
  pid = high_u32 ctx.pid_tgid;
  uid = to_u32 ctx.uid_gid;
  ret = ret;
  flags = ap.flags;
  comm = ctx.current_comm task_comm_len;
  fname = ctx.read_user_str (replicate name_max 0) ap.fname;
}

-- A tracepoint that fires: its context, and the system call's arguments or return value.
pub data Call : Type 0 where
  sys_enter_open : Context → (ℕ → ℕ) → Call
  sys_enter_openat : Context → (ℕ → ℕ) → Call
  sys_exit_open : Context → ℕ → Call
  sys_exit_openat : Context → ℕ → Call

module _ (S : HashMap ℕ Args) (R : RingBuf Event) where
  abbrev pub Maps : Type 0
  Maps = State S.Map R.Ring

  pub enter_open : Context → (ℕ → ℕ) → Maps → Maps
  enter_open ctx args s =
      let pid = to_u32 ctx.pid_tgid in
      let stored : Args = record { fname = args 0; flags = to_u32 (args 1) } in
      record s { start = (S.update s.start pid stored).0 }

  pub enter_openat : Context → (ℕ → ℕ) → Maps → Maps
  enter_openat ctx args s =
      let pid = to_u32 ctx.pid_tgid in
      let stored : Args = record { fname = args 1; flags = to_u32 (args 2) } in
      record s { start = (S.update s.start pid stored).0 }

  -- `ret` is the `long` of the tracepoint, cut to an `int`.
  pub trace_exit : Context → ℕ → Maps → Maps
  trace_exit ctx ret s =
      let pid = to_u32 ctx.pid_tgid in
      elim (S.lookup s.start pid) [
        | none ↦ s
        | some ap ↦ elim (R.reserve s.events (size event)) [
          | none ↦ s
          | some (ring_val, ring) ↦ record {
            start = S.delete s.start pid;
            events = R.submit ring (event_of ctx ap (to_u32 ret));
          }
        ]
      ]

  pub probe : Call → Maps → Maps
  unfolding enter_open enter_openat trace_exit
  probe (sys_enter_open ctx args) s = enter_open ctx args s
  probe (sys_enter_openat ctx args) s = enter_openat ctx args s
  probe (sys_exit_open ctx ret) s = trace_exit ctx ret s
  probe (sys_exit_openat ctx ret) s = trace_exit ctx ret s

  pub run : List Call → Maps → Maps
  run [] s = s
  run (c ∷ calls) s = run calls (probe c s)
