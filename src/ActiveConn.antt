-- ===== src/ActiveConn.antt =====
-- examples/activeconn/activeconn.c: a gauge of the open TCP connections between two addresses.
-- The two maps are parameters; `bpf_printk` output is left out. Every probe returns 0.
pub mod Laws
pub mod Balance
mod Tests
use bumblebee.Common.{
  ℕ, ◌%◌, String, Option, none, some, List, [], ◌∷◌, to_u32, int_to_u64, add_u64, minus_one,
}
use bumblebee.CTypes.Syntax.{CType, ptr, packed, member, end, ◌▸◌}
use bumblebee.Bpf.MapSpec.{MapSpec, hash}
use bumblebee.Bpf.Equality.{Dimensions}
use bumblebee.Bpf.HashMap.{HashMap}
use bumblebee.Bpf.Context.{Context, core_read}
use bumblebee.Kernel.Basic.{u32, u64}
use bumblebee.Kernel.Sock.{sock}
use bumblebee.SoloTypes.{ipv4_addr}

-- `struct dimensions_t`, whose values are the `Dimensions` of the keys.
abbrev pub dimensions_t : CType
dimensions_t = packed (member "saddr" ipv4_addr ▸ member "daddr" ipv4_addr ▸ end)

abbrev pub sockets : MapSpec
sockets = record { section = ".maps"; typ = hash; max_entries = 8192; key = some u32; value = ptr }

abbrev pub sockets_ext : MapSpec
sockets_ext = record {
  section = ".maps.gauge";
  typ = hash;
  max_entries = 8192;
  key = some dimensions_t;
  value = u64;
}

-- The contents of the maps `sockets` and `sockets_ext`.
pub record State (A B : Type 0) : Type 0 where
  pub sockets : A
  pub sockets_ext : B

-- `__sk_common.skc_rcv_saddr` and `__sk_common.skc_daddr` of a socket.
unfoldable pub endpoints : Context → ℕ → Dimensions
endpoints ctx sk = record {
  saddr = core_read ctx sk sock ("__sk_common" ∷ "skc_rcv_saddr" ∷ []);
  daddr = core_read ctx sk sock ("__sk_common" ∷ "skc_daddr" ∷ []);
}

-- A probe that fires: its context, and the argument that it uses.
pub data Call : Type 0 where
  tcp_v4_connect : Context → ℕ → Call
  tcp_v4_connect_ret : Context → ℕ → Call
  tcp_close : Context → ℕ → Call
  tcp_close_ret : Context → ℕ → Call

-- The value that `record` stores, by the one that it found.
abbrev pub next_value : ℕ → Option ℕ → ℕ
next_value op none = 1
next_value op (some v) = add_u64 v (int_to_u64 op)

module _ (Sockets : HashMap ℕ ℕ) (SocketsExt : HashMap Dimensions ℕ) where
  abbrev pub Maps : Type 0
  Maps = State Sockets.Map SocketsExt.Map

  pub enter_tcp_connect : Context → ℕ → Maps → Maps
  enter_tcp_connect ctx sk s =
      let tid = to_u32 ctx.pid_tgid in record s { sockets = (Sockets.update s.sockets tid sk).0 }

  -- `record` of the source. The return value of the probed function goes to the log only.
  pub record_op : Context → ℕ → ℕ → Maps → Maps
  record_op ctx ret op s =
      let tid = to_u32 ctx.pid_tgid in
      elim (Sockets.lookup s.sockets tid) [
        | none ↦ s
        | some sk ↦
            let key = endpoints ctx sk in
            let val = next_value op (SocketsExt.lookup s.sockets_ext key) in
            record {
              sockets = Sockets.delete s.sockets tid;
              sockets_ext = (SocketsExt.update s.sockets_ext key val).0;
            }
      ]

  pub probe : Call → Maps → Maps
  unfolding enter_tcp_connect record_op
  probe (tcp_v4_connect ctx sk) s = enter_tcp_connect ctx sk s
  probe (tcp_v4_connect_ret ctx ret) s = record_op ctx ret 1 s
  probe (tcp_close ctx sk) s = enter_tcp_connect ctx sk s
  probe (tcp_close_ret ctx ret) s = record_op ctx ret minus_one s

  pub run : List Call → Maps → Maps
  run [] s = s
  run (c ∷ calls) s = run calls (probe c s)
