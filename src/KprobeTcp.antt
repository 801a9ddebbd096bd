-- ===== src/KprobeTcp.antt =====
-- examples/kprobetcp/handler.c: TCP connects, as events. The ring buffer is a parameter. The probe
-- returns 0.
pub mod Laws
mod Tests
use bumblebee.Common.{ℕ, ◌^◌, Option, none, some, to_u32}
use bumblebee.CTypes.Syntax.{CType, packed, member, end, ◌▸◌}
use bumblebee.CTypes.Layout.{size}
use bumblebee.Bpf.MapSpec.{MapSpec, ringbuf}
use bumblebee.Bpf.RingBuf.{RingBuf}
use bumblebee.Bpf.Context.{Context}
use bumblebee.Kernel.Basic.{u32}
use bumblebee.SoloTypes.{duration}

abbrev pub event_t : CType
event_t =
    packed
      (member "pid" u32 ▸ member "uid" u32 ▸ member "type" u32 ▸ member "uptime" duration ▸ end)

-- The values of `struct event_t`.
pub record Event : Type 0 where
  pub pid : ℕ
  pub uid : ℕ
  pub type : ℕ
  pub uptime : ℕ

abbrev pub events : MapSpec
events = record {
  section = ".maps.print";
  typ = ringbuf;
  max_entries = 2 ^ 24;
  key = none;
  value = event_t;
}

module _ (R : RingBuf Event) where
  pub tcp_v4_connect : Context → R.Ring → R.Ring
  tcp_v4_connect ctx s = elim (R.reserve s (size event_t)) [
    | none ↦ s
    | some (task_info, ring) ↦ R.submit ring (record task_info {
      pid = to_u32 ctx.pid_tgid;
      uid = to_u32 ctx.uid_gid;
      uptime = ctx.ktime_ns;
    })
  ]
