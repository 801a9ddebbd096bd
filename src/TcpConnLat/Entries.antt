-- ===== src/TcpConnLat/Entries.antt =====
-- The map `start` of tcpconnlat.c over a run: which entries it holds, and for how long.
use bumblebee.Common.{
  ℕ, ◌^◌, ◌≤◌, ◌<◌, ◌≡◌, sym, ◌≢◌, ◌∙◌, none, some, List, [], ◌∷◌, arith, Option-cases, Bool-cases,
  inl, inr, sub_u64,
}
use native.Mathlib.Nat.{le_trans}
use bumblebee.Bpf.Equality.{nat_eq}
use bumblebee.Bpf.HashMap.{HashMap, IsLawful}
use bumblebee.Bpf.RingBuf.{RingBuf}
use bumblebee.Bpf.Context.{Context}
use bumblebee.TcpConnLat.{
  Maps, PidData, Event, Call, tcp_v4_connect, tcp_rcv_state_process, piddata_of, trace_connect,
  handle_tcp_rcv_state_process, probe, run,
}

abbrev pub time_of : Call → ℕ
time_of (tcp_v4_connect ctx sk) = ctx.ktime_ns
time_of (tcp_rcv_state_process ctx sk) = ctx.ktime_ns

-- The clock of the calls does not go backwards from `t` on, and stays in the range of an `s64`.
abbrev pub Clocked : ℕ → List Call → Type 0
Clocked t [] = Unit
Clocked t (c ∷ calls) = (t ≤ time_of c) × (time_of c < 2 ^ 63) × Clocked (time_of c) calls

module _ (S : HashMap ℕ PidData) (R : RingBuf Event) where
  -- No entry is younger than `t`.
  abbrev pub Past : ℕ → Maps S R → Type 0
  Past t s = (sk : ℕ) (p : PidData) → S.lookup s.start sk ≡ some p → p.ts ≤ t

  start-handle :
      (ctx : Context) (sk t : ℕ) (s : Maps S R)
      → Past t s
      → t ≤ ctx.ktime_ns
      → ctx.ktime_ns < 2 ^ 63
      → (handle_tcp_rcv_state_process S R ctx sk s).start ≡ s.start
  unfolding handle_tcp_rcv_state_process
  start-handle ctx sk t s past le bound = elim (Option-cases (S.lookup s.start sk)) [
    | inl missing ↦ ground arith
    | inr (p, found) ↦
        let young = past sk p found in
        let pos : sub_u64 ctx.ktime_ns p.ts < 2 ^ 63 = omega arith in ground arith
  ]

  module _ (L : IsLawful S) where
    Past-connect :
        (ctx : Context) (sk t : ℕ) (s : Maps S R)
        → Past t s
        → t ≤ ctx.ktime_ns
        → Past ctx.ktime_ns (trace_connect S R ctx sk s)
    unfolding trace_connect
    Past-connect ctx sk t s past le j p h =
        elim (Bool-cases (S.update s.start sk (piddata_of ctx)).1) [
          | inl stored ↦
              let e = sym (L.lookup-update s.start sk (piddata_of ctx) j stored) ∙ h in
              ground (arith, past j p)
          | inr refused ↦
              let old = past j p (sym (L.lookup-update_refused s.start sk _ j refused) ∙ h) in
              omega arith
        ]

    kept-connect :
        (ctx : Context) (sk j : ℕ) (s : Maps S R)
        → S.lookup s.start j ≢ none
        → S.lookup (trace_connect S R ctx sk s).start j ≢ none
    unfolding trace_connect
    kept-connect ctx sk j s h e = elim (Bool-cases (S.update s.start sk (piddata_of ctx)).1) [
      | inl stored ↦
          let e' = sym (L.lookup-update s.start sk (piddata_of ctx) j stored) ∙ e in ground arith
      | inr refused ↦ h (sym (L.lookup-update_refused s.start sk _ j refused) ∙ e)
    ]

    -- An entry, once stored, stays: no sequence of connects and segments removes it as long as the
    -- clock does not go backwards, not even the segment whose latency it serves to report.
    pub kept-run :
        (calls : List Call) (t j : ℕ) (s : Maps S R)
        → Clocked t calls
        → Past t s
        → S.lookup s.start j ≢ none
        → S.lookup (run S R calls s).start j ≢ none
    unfolding run probe
    kept-run [] t j s clock past h = h
    kept-run (tcp_v4_connect ctx sk ∷ calls) t j s clock past h =
        kept-run calls ctx.ktime_ns j (trace_connect S R ctx sk s) clock.2
          (Past-connect ctx sk t s past clock.0) (kept-connect ctx sk j s h)
    kept-run (tcp_rcv_state_process ctx sk ∷ calls) t j s clock past h =
        let same = start-handle ctx sk t s past clock.0 clock.1 in
        kept-run calls ctx.ktime_ns j (handle_tcp_rcv_state_process S R ctx sk s) clock.2
          (rw same (λ k p found. le_trans (past k p found) clock.0)) (rw same h)
