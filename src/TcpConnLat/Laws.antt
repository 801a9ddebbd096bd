-- ===== src/TcpConnLat/Laws.antt =====
-- What tcpconnlat.c reports of a connect, and what it keeps of it.
use bumblebee.Common.{
  ℕ, ◌-◌, ◌^◌, ◌≤◌, ◌<◌, ◌≡◌, refl, ap, ◌≢◌, ◌∙◌, true, none, some, List, [], ◌∷◌, ◌++◌, arith,
  Option-cases, inl, inr, sub_u64,
}
use bumblebee.CTypes.Layout.{size}
use bumblebee.Bpf.Equality.{nat_eq}
use bumblebee.Bpf.HashMap
use bumblebee.Bpf.HashMap.{HashMap}
use bumblebee.Bpf.HashMap.Laws.{lookup-update_self, lookup-delete_self}
use bumblebee.Bpf.RingBuf
use bumblebee.Bpf.RingBuf.{RingBuf}
use bumblebee.Bpf.RingBuf.Laws.{submitted-emit, held-emit}
use bumblebee.Bpf.Context.{Context}
use bumblebee.Kernel.TcpState.{TcpState, tcp_state}
use bumblebee.TcpConnLat.{
  Maps, PidData, Event, Call, tcp_v4_connect, tcp_rcv_state_process, event, event_at, sk_common,
  piddata_of, trace_connect, handle_tcp_rcv_state_process, probe, run,
}

elapsed :
    (ctx : Context) (sk : ℕ) (p : PidData) (before : List Event) (t : ℕ)
    → t ≤ ctx.ktime_ns
    → ctx.ktime_ns < 2 ^ 63
    → before ++ (event_at ctx sk p ctx.ktime_ns (sub_u64 ctx.ktime_ns t) ∷ [])
      ≡ before ++ (event_at ctx sk p ctx.ktime_ns (ctx.ktime_ns - t) ∷ [])
elapsed ctx sk p before t le bound =
    let same : sub_u64 ctx.ktime_ns t ≡ ctx.ktime_ns - t = omega arith in
    ap (λ d. before ++ (event_at ctx sk p ctx.ktime_ns d ∷ [])) same

module _ (S : HashMap ℕ PidData) (R : RingBuf Event) where
  -- A segment for a socket in another state than TCP_SYN_SENT changes nothing.
  pub handle-other_state :
      (ctx : Context) (sk : ℕ) (s : Maps S R)
      → sk_common ctx sk "skc_state" ≢ tcp_state TcpState.syn_sent
      → handle_tcp_rcv_state_process S R ctx sk s ≡ s
  unfolding handle_tcp_rcv_state_process
  handle-other_state ctx sk s ne = ground arith

  handle-missing :
      (ctx : Context) (sk : ℕ) (s : Maps S R)
      → S.lookup s.start sk ≡ none
      → handle_tcp_rcv_state_process S R ctx sk s ≡ s
  unfolding handle_tcp_rcv_state_process
  handle-missing ctx sk s h = ground arith

  handle-backwards :
      (ctx : Context) (sk : ℕ) (s : Maps S R) (p : PidData)
      → sk_common ctx sk "skc_state" ≡ tcp_state TcpState.syn_sent
      → S.lookup s.start sk ≡ some p
      → 2 ^ 63 ≤ sub_u64 ctx.ktime_ns p.ts
      → handle_tcp_rcv_state_process S R ctx sk s ≡ record s { start = S.delete s.start sk }
  unfolding handle_tcp_rcv_state_process
  handle-backwards ctx sk s p st found neg = ground arith

  handle-full :
      (ctx : Context) (sk : ℕ) (s : Maps S R) (p : PidData)
      → S.lookup s.start sk ≡ some p
      → sub_u64 ctx.ktime_ns p.ts < 2 ^ 63
      → R.reserve s.events (size event) ≡ none
      → handle_tcp_rcv_state_process S R ctx sk s ≡ s
  unfolding handle_tcp_rcv_state_process
  handle-full ctx sk s p found pos full = ground arith

  handle-emit :
      (ctx : Context) (sk : ℕ) (s : Maps S R) (p : PidData) (e : Event) (r : R.Ring)
      → sk_common ctx sk "skc_state" ≡ tcp_state TcpState.syn_sent
      → S.lookup s.start sk ≡ some p
      → sub_u64 ctx.ktime_ns p.ts < 2 ^ 63
      → R.reserve s.events (size event) ≡ some (e, r)
      → handle_tcp_rcv_state_process S R ctx sk s ≡ record s {
        events = R.submit r (event_at ctx sk p ctx.ktime_ns (sub_u64 ctx.ktime_ns p.ts));
      }
  unfolding handle_tcp_rcv_state_process
  handle-emit ctx sk s p e r st found pos room = ground arith

  -- A clock that went backwards drops the entry and reports nothing, instead of a huge latency.
  pub handle_clock_backwards :
      HashMap.IsLawful S
      → (ctx : Context) (sk : ℕ) (s : Maps S R) (p : PidData)
      → sk_common ctx sk "skc_state" ≡ tcp_state TcpState.syn_sent
      → S.lookup s.start sk ≡ some p
      → ctx.ktime_ns < p.ts
      → p.ts ≤ 2 ^ 63
      → let t = handle_tcp_rcv_state_process S R ctx sk s in
        (S.lookup t.start sk ≡ none) × (t.events ≡ s.events)
  handle_clock_backwards L ctx sk s p st found before bound =
      rw (handle-backwards ctx sk s p st found (omega arith))
        (lookup-delete_self L s.start sk, refl)

  module _ (L : HashMap.IsLawful S) (LR : RingBuf.IsLawful R) where
    -- From the connect to the answer: the event holds the task that connected, the socket's addresses
    -- and the time between the two probes, in whole microseconds. This if the connect was stored, the
    -- clock did not go backwards, and the ring buffer has room.
    pub connect_latency :
        (ctx ctx' : Context) (sk : ℕ) (s : Maps S R)
        → let p = piddata_of ctx in
          let s' = probe S R (tcp_v4_connect ctx sk) s in
          (S.update s.start sk p).1 ≡ true
          → sk_common ctx' sk "skc_state" ≡ tcp_state TcpState.syn_sent
          → ctx.ktime_ns ≤ ctx'.ktime_ns
          → ctx'.ktime_ns < 2 ^ 63
          → R.reserve s.events (size event) ≢ none
          → R.submitted (probe S R (tcp_rcv_state_process ctx' sk) s').events
            ≡ R.submitted s.events
              ++ (event_at ctx' sk p ctx'.ktime_ns (ctx'.ktime_ns - ctx.ktime_ns) ∷ [])
    unfolding probe
    connect_latency ctx ctx' sk s stored st le bound room =
        elim (Option-cases (R.reserve s.events (size event))) [
          | inl full ↦ absurd (room full)
          | inr (er, got) ↦
              rw
                (
                  handle-emit ctx' sk (trace_connect S R ctx sk s) _ er.0 er.1 st
                      (lookup-update_self L _ _ _ stored) (omega arith) got,
                  submitted-emit LR s.events (size event) er.0 _ er.1 got,
                )
                (elapsed ctx' sk (piddata_of ctx) (R.submitted s.events) ctx.ktime_ns le bound)
        ]

  module _ (LR : RingBuf.IsLawful R) where
    held-handle :
        (ctx : Context) (sk : ℕ) (s : Maps S R)
        → R.held (handle_tcp_rcv_state_process S R ctx sk s).events ≡ R.held s.events
    unfolding handle_tcp_rcv_state_process
    held-handle ctx sk s = elim (Option-cases (S.lookup s.start sk)) [
      | inl missing ↦ rw (handle-missing ctx sk s missing)
      | inr (p, found) ↦ elim (Option-cases (R.reserve s.events (size event))) [
        | inl full ↦ ground arith
        | inr (er, room) ↦
            let e = event_at ctx sk p ctx.ktime_ns (sub_u64 ctx.ktime_ns p.ts) in
            ground (arith, held-emit LR s.events (size event) er.0 e er.1 room)
      ]
    ]

    -- No run of the probes, on any path through them, leaves a reservation behind.
    pub held-run_tcpconnlat :
        (calls : List Call) (s : Maps S R) → R.held (run S R calls s).events ≡ R.held s.events
    unfolding run probe
    held-run_tcpconnlat [] s = refl
    held-run_tcpconnlat (tcp_v4_connect ctx sk ∷ calls) s =
        held-run_tcpconnlat calls (trace_connect S R ctx sk s)
    held-run_tcpconnlat (tcp_rcv_state_process ctx sk ∷ calls) s =
        held-run_tcpconnlat calls (handle_tcp_rcv_state_process S R ctx sk s) ∙ held-handle ctx sk s
