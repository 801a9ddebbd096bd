-- ===== src/TcpConnLat.antt =====
-- examples/tcpconnlat/tcpconnlat.c: the time from a TCP connect to the peer's answer, as events. The
-- map and the ring buffer are parameters. Both probes return 0.
pub mod Laws
mod Tests
pub mod Entries
use bumblebee.Common.{
  ℕ, ◌/◌, ◌^◌, String, Option, none, some, List, [], ◌∷◌, high_u32, sub_u64, ltb, not, ◌==◌,
  if◌then◌else◌,
}
use bumblebee.CTypes.Syntax.{CType, char, int, ptr, array, struct, member, end, ◌▸◌}
use bumblebee.CTypes.Layout.{size}
use bumblebee.Bpf.MapSpec.{MapSpec, hash, ringbuf}
use bumblebee.Bpf.HashMap.{HashMap}
use bumblebee.Bpf.RingBuf.{RingBuf}
use bumblebee.Bpf.Context.{Context, core_read}
use bumblebee.Kernel.Basic.{u32, u64, uapi_u32, uapi_u64}
use bumblebee.Kernel.Sock.{sock}
use bumblebee.Kernel.TcpState.{TcpState, tcp_state}
use bumblebee.SoloTypes.{ipv4_addr}

abbrev pub task_comm_len : ℕ
task_comm_len = 16

abbrev pub event : CType
event = struct (
    member "saddr_v4" ipv4_addr
    ▸ member "daddr_v4" ipv4_addr
    ▸ member "comm" (array char task_comm_len)
    ▸ member "delta_us" uapi_u64
    ▸ member "ts_us" uapi_u64
    ▸ member "tgid" uapi_u32
    ▸ member "af" int
    ▸ end)

abbrev pub piddata : CType
piddata =
    struct (member "comm" (array char task_comm_len) ▸ member "ts" u64 ▸ member "tgid" u32 ▸ end)

-- The values of `struct event` and of `struct piddata`.
pub record Event : Type 0 where
  pub saddr_v4 : ℕ
  pub daddr_v4 : ℕ
  pub comm : List ℕ
  pub delta_us : ℕ
  pub ts_us : ℕ
  pub tgid : ℕ
  pub af : ℕ

pub record PidData : Type 0 where
  pub comm : List ℕ
  pub ts : ℕ
  pub tgid : ℕ

abbrev pub start : MapSpec
start = record {
  section = ".maps";
  typ = hash;
  max_entries = 4096;
  key = some ptr;
  value = piddata;
}

abbrev pub events : MapSpec
events = record {
  section = ".maps.print";
  typ = ringbuf;
  max_entries = 2 ^ 24;
  key = none;
  value = event;
}

pub record State (A B : Type 0) : Type 0 where
  pub start : A
  pub events : B

-- The members of `__sk_common` that the program reads.
unfoldable pub sk_common : Context → ℕ → String → ℕ
sk_common ctx sk name = core_read ctx sk sock ("__sk_common" ∷ name ∷ [])

-- What `trace_connect` stores.
abbrev pub piddata_of : Context → PidData
piddata_of ctx = record {
  comm = ctx.current_comm task_comm_len;
  ts = ctx.ktime_ns;
  tgid = high_u32 ctx.pid_tgid;
}

-- The event that a socket's data make at the time `ts`, `delta` after the connect.
abbrev pub event_at : Context → ℕ → PidData → ℕ → ℕ → Event
event_at ctx sk piddatap ts delta = record {
  saddr_v4 = sk_common ctx sk "skc_rcv_saddr";
  daddr_v4 = sk_common ctx sk "skc_daddr";
  comm = piddatap.comm;
  delta_us = delta / 1000;
  ts_us = ts / 1000;
  tgid = piddatap.tgid;
  af = sk_common ctx sk "skc_family";
}

pub data Call : Type 0 where
  tcp_v4_connect : Context → ℕ → Call
  tcp_rcv_state_process : Context → ℕ → Call

module _ (S : HashMap ℕ PidData) (R : RingBuf Event) where
  abbrev pub Maps : Type 0
  Maps = State S.Map R.Ring

  pub trace_connect : Context → ℕ → Maps → Maps
  trace_connect ctx sk s = record s { start = (S.update s.start sk (piddata_of ctx)).0 }

  -- The difference of the times is taken as an `s64`: it is negative from 2 ^ 63 on.
  pub handle_tcp_rcv_state_process : Context → ℕ → Maps → Maps
  handle_tcp_rcv_state_process ctx sk s =
      if not (sk_common ctx sk "skc_state" == tcp_state TcpState.syn_sent)
      then s
      else elim (S.lookup s.start sk) [
        | none ↦ s
        | some piddatap ↦
            let ts = ctx.ktime_ns in
            let delta = sub_u64 ts piddatap.ts in
            if not (ltb delta (2 ^ 63))
            then record s { start = S.delete s.start sk }
            else elim (R.reserve s.events (size event)) [
              | none ↦ s
              | some (ring_val, ring) ↦ record s {
                events = R.submit ring (event_at ctx sk piddatap ts delta);
              }
            ]
      ]

  pub probe : Call → Maps → Maps
  unfolding trace_connect handle_tcp_rcv_state_process
  probe (tcp_v4_connect ctx sk) s = trace_connect ctx sk s
  probe (tcp_rcv_state_process ctx sk) s = handle_tcp_rcv_state_process ctx sk s

  pub run : List Call → Maps → Maps
  run [] s = s
  run (c ∷ calls) s = run calls (probe c s)
