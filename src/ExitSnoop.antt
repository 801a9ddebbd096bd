-- ===== src/ExitSnoop.antt =====
-- examples/exitsnoop/exitsnoop.c: the processes and threads that exit, as events. The ring buffer is
-- a parameter, and so is the constant `trace_failed_only`, false in the source, which a loader may
-- set. The tracepoint returns 0.
pub mod Laws
mod Tests
use bumblebee.Common.{
  ℕ, ◌+◌, ◌-◌, ◌/◌, ◌%◌, ◌^◌, String, Bool, false, ◌&&◌, Option, none, some, List, [], ◌∷◌, to_u32,
  high_u32, ltb, ◌==◌, if◌then◌else◌,
}
use bumblebee.CTypes.Syntax.{CType, char, int, array, struct, member, end, ◌▸◌}
use bumblebee.CTypes.Layout.{size}
use bumblebee.Bpf.MapSpec.{MapSpec, ringbuf}
use bumblebee.Bpf.RingBuf.{RingBuf}
use bumblebee.Bpf.Context.{Context, core_read}
use bumblebee.Kernel.Basic.{uapi_u32, uapi_u64}
use bumblebee.Kernel.Task.{task_struct}

-- exitsnoop.h
abbrev pub task_comm_len : ℕ
task_comm_len = 16

abbrev pub event : CType
event = struct (
    member "start_time" uapi_u64
    ▸ member "exit_time" uapi_u64
    ▸ member "pid" uapi_u32
    ▸ member "tid" uapi_u32
    ▸ member "ppid" uapi_u32
    ▸ member "sig" uapi_u32
    ▸ member "exit_code" int
    ▸ member "comm" (array char task_comm_len)
    ▸ end)

-- The values of `struct event`.
pub record Event : Type 0 where
  pub start_time : ℕ
  pub exit_time : ℕ
  pub pid : ℕ
  pub tid : ℕ
  pub ppid : ℕ
  pub sig : ℕ
  pub exit_code : ℕ
  pub comm : List ℕ

abbrev pub trace_failed_only : Bool
trace_failed_only = false

abbrev pub exits : MapSpec
exits = record {
  section = ".maps.print";
  typ = ringbuf;
  max_entries = 2 ^ 24;
  key = none;
  value = event;
}

-- `BPF_CORE_READ(task, name)` and `BPF_CORE_READ(task, real_parent, tgid)`.
unfoldable pub task_field : Context → String → ℕ
task_field ctx name = core_read ctx ctx.task task_struct (name ∷ [])

unfoldable pub parent_tgid : Context → ℕ
unfolding task_field
parent_tgid ctx = core_read ctx (task_field ctx "real_parent") task_struct ("tgid" ∷ [])

-- `exit_code & 0xff` and `exit_code >> 8` of an `int`: the shift keeps the sign.
unfoldable pub signal_of : ℕ → ℕ
signal_of code = code % 256

unfoldable pub status_of : ℕ → ℕ
status_of code = if ltb code (2 ^ 31) then code / 256 else code / 256 + (2 ^ 32 - 2 ^ 24)

abbrev pub event_of : Context → Event
event_of ctx = record {
  start_time = task_field ctx "start_time";
  exit_time = ctx.ktime_ns;
  pid = high_u32 ctx.pid_tgid;
  tid = to_u32 ctx.pid_tgid;
  ppid = parent_tgid ctx;
  sig = signal_of (task_field ctx "exit_code");
  exit_code = status_of (task_field ctx "exit_code");
  comm = ctx.current_comm task_comm_len;
}

module _ (R : RingBuf Event) where
  pub sched_process_exit : Bool → Context → R.Ring → R.Ring
  sched_process_exit failed_only ctx s =
      if failed_only && task_field ctx "exit_code" == 0
      then s
      else elim (R.reserve s (size event)) [
        | none ↦ s
        | some (ring_val, ring) ↦ R.submit ring (event_of ctx)
      ]
