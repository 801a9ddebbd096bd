-- ===== src/ActiveConn/Laws.antt =====
-- What the maps of activeconn.c hold after each probe.
use bumblebee.Common.{
  ℕ, ◌≡◌, refl, ◌≢◌, ◌∙◌, true, none, some, List, [], ◌∷◌, arith, if◌then◌else◌, to_u32, minus_one,
}
use bumblebee.Bpf.Equality.{Dimensions, ◌==◌, nat_eq, dimensions_eq}
use bumblebee.Bpf.HashMap.{HashMap, IsLawful}
use bumblebee.Bpf.HashMap.Laws.{lookup-update_ne, lookup-delete_ne}
use bumblebee.Bpf.Context.{Context}
use bumblebee.ActiveConn.{
  Maps, Call, tcp_v4_connect, tcp_v4_connect_ret, tcp_close, tcp_close_ret, endpoints, next_value,
  enter_tcp_connect, record_op, probe, run,
}

-- The thread of a call.
abbrev pub thread : Call → ℕ
thread (tcp_v4_connect ctx sk) = to_u32 ctx.pid_tgid
thread (tcp_v4_connect_ret ctx ret) = to_u32 ctx.pid_tgid
thread (tcp_close ctx sk) = to_u32 ctx.pid_tgid
thread (tcp_close_ret ctx ret) = to_u32 ctx.pid_tgid

-- Every call of a list comes from another thread than `tid`.
abbrev pub Others : ℕ → List Call → Type 0
Others tid [] = Unit
Others tid (c ∷ calls) = (tid ≢ thread c) × Others tid calls

module _ (S : HashMap ℕ ℕ) (E : HashMap Dimensions ℕ) where
  -- Whether the update of `sockets_ext` that `record` makes for this socket succeeds.
  abbrev pub Stored : Context → ℕ → ℕ → Maps S E → Type 0
  Stored ctx op sk s =
      (E.update s.sockets_ext (endpoints ctx sk)
        (next_value op (E.lookup s.sockets_ext (endpoints ctx sk)))).1
      ≡ true

  -- A return without a recorded entry changes nothing.
  pub record_op-missing :
      (ctx : Context) (ret op : ℕ) (s : Maps S E)
      → S.lookup s.sockets (to_u32 ctx.pid_tgid) ≡ none
      → record_op S E ctx ret op s ≡ s
  unfolding record_op
  record_op-missing ctx ret op s h = ground arith

  pub record_op-pending :
      (ctx : Context) (ret op sk : ℕ) (s : Maps S E)
      → S.lookup s.sockets (to_u32 ctx.pid_tgid) ≡ some sk
      → record_op S E ctx ret op s ≡ record {
        sockets = S.delete s.sockets (to_u32 ctx.pid_tgid);
        sockets_ext =
            (E.update s.sockets_ext
              (endpoints ctx sk)
              (next_value op (E.lookup s.sockets_ext (endpoints ctx sk)))).0;
      }
  unfolding record_op
  record_op-pending ctx ret op sk s h = ground arith

  -- With a recorded entry, the gauge of the socket's addresses is 1 if there was none, and otherwise
  -- the old value plus `op`, modulo 2 ^ 64; every other gauge is kept. This if the update succeeds.
  pub lookup-record_op :
      IsLawful E
      → (ctx : Context) (ret op sk : ℕ) (s : Maps S E) (key : Dimensions)
      → S.lookup s.sockets (to_u32 ctx.pid_tgid) ≡ some sk
      → Stored ctx op sk s
      → E.lookup (record_op S E ctx ret op s).sockets_ext key ≡ (
          if key == endpoints ctx sk
          then some (next_value op (E.lookup s.sockets_ext key))
          else E.lookup s.sockets_ext key)
  lookup-record_op L ctx ret op sk s key pending stored =
      rw (record_op-pending ctx ret op sk s pending) (
        L.lookup-update s.sockets_ext (endpoints ctx sk) _ key stored
        ∙ ground (arith, dimensions_eq.beq_iff key (endpoints ctx sk)))

  -- Where the addresses have no gauge yet, a close leaves what a connect leaves: `op` is not used.
  pub record_op-first :
      (ctx : Context) (ret ret' op op' sk : ℕ) (s : Maps S E)
      → S.lookup s.sockets (to_u32 ctx.pid_tgid) ≡ some sk
      → E.lookup s.sockets_ext (endpoints ctx sk) ≡ none
      → record_op S E ctx ret op s ≡ record_op S E ctx ret' op' s
  unfolding record_op
  record_op-first ctx ret ret' op op' sk s pending unseen = ground arith

  module _ (L : IsLawful S) where
    sockets-enter_ne :
        (ctx : Context) (sk tid : ℕ) (s : Maps S E)
        → tid ≢ to_u32 ctx.pid_tgid
        → S.lookup (enter_tcp_connect S E ctx sk s).sockets tid ≡ S.lookup s.sockets tid
    unfolding enter_tcp_connect
    sockets-enter_ne ctx sk tid s ne = lookup-update_ne L _ _ _ _ ne

    sockets-record_op_ne :
        (ctx : Context) (ret op tid : ℕ) (s : Maps S E)
        → tid ≢ to_u32 ctx.pid_tgid
        → S.lookup (record_op S E ctx ret op s).sockets tid ≡ S.lookup s.sockets tid
    unfolding record_op
    sockets-record_op_ne ctx ret op tid s ne =
        ground (arith, lookup-delete_ne L s.sockets (to_u32 ctx.pid_tgid) tid ne)

    sockets-probe_ne :
        (c : Call) (tid : ℕ) (s : Maps S E)
        → tid ≢ thread c
        → S.lookup (probe S E c s).sockets tid ≡ S.lookup s.sockets tid
    unfolding probe
    sockets-probe_ne (tcp_v4_connect ctx sk) tid s ne = sockets-enter_ne ctx sk tid s ne
    sockets-probe_ne (tcp_v4_connect_ret ctx ret) tid s ne = sockets-record_op_ne ctx ret 1 tid s ne
    sockets-probe_ne (tcp_close ctx sk) tid s ne = sockets-enter_ne ctx sk tid s ne
    sockets-probe_ne (tcp_close_ret ctx ret) tid s ne =
        sockets-record_op_ne ctx ret minus_one tid s ne

    -- Whatever the other threads do, in any order, a thread finds the socket that it entered with.
    pub sockets-run-Others :
        (calls : List Call) (tid : ℕ) (s : Maps S E)
        → Others tid calls
        → S.lookup (run S E calls s).sockets tid ≡ S.lookup s.sockets tid
    unfolding run
    sockets-run-Others [] tid s others = refl
    sockets-run-Others (c ∷ calls) tid s others =
        sockets-run-Others calls tid (probe S E c s) others.1 ∙ sockets-probe_ne c tid s others.0
