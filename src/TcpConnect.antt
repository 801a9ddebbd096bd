-- ===== src/TcpConnect.antt =====
-- examples/tcpconnect/tcpconnect.c: TCP connects between two addresses, as a counter and as events.
-- The maps and the ring buffer are parameters; `bpf_printk` output is left out. Both probes return 0.
pub mod Laws
mod Tests
use bumblebee.Common.{ℕ, ◌+◌, ◌%◌, ◌^◌, String, Option, none, some, List, [], ◌∷◌, to_u32, add_u64}
use bumblebee.CTypes.Syntax.{CType, ptr, packed, member, end, ◌▸◌}
use bumblebee.CTypes.Layout.{size}
use bumblebee.Bpf.MapSpec.{MapSpec, hash, ringbuf}
use bumblebee.Bpf.Equality.{Dimensions}
use bumblebee.Bpf.HashMap.{HashMap}
use bumblebee.Bpf.RingBuf.{RingBuf}
use bumblebee.Bpf.Context.{Context, core_read}
use bumblebee.Kernel.Basic.{u32, u64}
use bumblebee.Kernel.Sock.{sock}
use bumblebee.SoloTypes.{ipv4_addr}

abbrev pub dimensions_t : CType
dimensions_t = packed (member "saddr" ipv4_addr ▸ member "daddr" ipv4_addr ▸ end)

-- Declared with `BPF_F_NO_PREALLOC`, so an update can also fail for want of memory.
abbrev pub sockets : MapSpec
sockets = record { section = ".maps"; typ = hash; max_entries = 8192; key = some u32; value = ptr }

abbrev pub events_hash : MapSpec
events_hash = record {
  section = ".maps.counter";
  typ = hash;
  max_entries = 8192;
  key = some dimensions_t;
  value = u64;
}

abbrev pub events_ring : MapSpec
events_ring = record {
  section = ".maps.counter";
  typ = ringbuf;
  max_entries = 2 ^ 24;
  key = none;
  value = dimensions_t;
}

-- The contents of the two maps and of the ring buffer.
pub record State (A B C : Type 0) : Type 0 where
  pub sockets : A
  pub events_hash : B
  pub events_ring : C

-- `__sk_common.skc_rcv_saddr` and `__sk_common.skc_daddr` of a socket.
unfoldable pub endpoints : Context → ℕ → Dimensions
endpoints ctx sk = record {
  saddr = core_read ctx sk sock ("__sk_common" ∷ "skc_rcv_saddr" ∷ []);
  daddr = core_read ctx sk sock ("__sk_common" ∷ "skc_daddr" ∷ []);
}

abbrev pub next_value : Option ℕ → ℕ
next_value none = 1
next_value (some v) = add_u64 v 1

pub data Call : Type 0 where
  tcp_v4_connect : Context → ℕ → Call
  tcp_v4_connect_ret : Context → ℕ → Call

module _ (S : HashMap ℕ ℕ) (H : HashMap Dimensions ℕ) (R : RingBuf Dimensions) where
  abbrev pub Maps : Type 0
  Maps = State S.Map H.Map R.Ring

  pub enter_tcp_connect : Context → ℕ → Maps → Maps
  enter_tcp_connect ctx sk s =
      let tid = to_u32 ctx.pid_tgid in record s { sockets = (S.update s.sockets tid sk).0 }

  -- The return value of the probed function goes to the log only.
  pub exit_tcp_connect : Context → ℕ → Maps → Maps
  exit_tcp_connect ctx ret s =
      let tid = to_u32 ctx.pid_tgid in
      elim (S.lookup s.sockets tid) [
        | none ↦ s
        | some sk ↦
            let hash_key = endpoints ctx sk in
            let val = next_value (H.lookup s.events_hash hash_key) in
            let counted : Maps = record s {
              events_hash = (H.update s.events_hash hash_key val).0;
              sockets = S.delete s.sockets tid;
            } in
            elim (R.reserve s.events_ring (size dimensions_t)) [
              | none ↦ counted
              | some (ring_val, ring) ↦ record counted {
                events_ring =
                    R.submit ring
                      (record ring_val { saddr = hash_key.saddr; daddr = hash_key.daddr });
              }
            ]
      ]

  unfoldable pub probe : Call → Maps → Maps
  unfolding enter_tcp_connect exit_tcp_connect
  probe (tcp_v4_connect ctx sk) s = enter_tcp_connect ctx sk s
  probe (tcp_v4_connect_ret ctx ret) s = exit_tcp_connect ctx ret s

  unfoldable pub run : List Call → Maps → Maps
  run [] s = s
  run (c ∷ calls) s = run calls (probe c s)
