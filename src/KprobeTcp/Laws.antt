-- ===== src/KprobeTcp/Laws.antt =====
-- The events of kprobetcp's handler.
use mathlib.Core.List.{append_assoc, append-nil}
use bumblebee.Common.{
  ℕ, ◌≡◌, ◌≢◌, refl, ap, ◌∙◌, none, length, List, [], ◌∷◌, ◌++◌, arith, to_u32, Option-cases, inl,
  inr,
}
use bumblebee.CTypes.Layout.{size}
use bumblebee.Bpf.RingBuf.{RingBuf, IsLawful}
use bumblebee.Bpf.RingBuf.Laws.{submitted-emit, held-emit}
use bumblebee.Bpf.RingBuf.Stream.{run, HasRoom, held-run}
use bumblebee.Bpf.Context.{Context}
use bumblebee.KprobeTcp.{Event, event_t, tcp_v4_connect}

-- The events of connects, where the members `type` are given.
abbrev pub events_with : List Context → List ℕ → List Event
events_with (ctx ∷ connects) (t ∷ types) =
    record { pid = to_u32 ctx.pid_tgid; uid = to_u32 ctx.uid_gid; type = t; uptime = ctx.ktime_ns }
    ∷ events_with connects types
events_with _ _ = []

module _ (R : RingBuf Event) (L : IsLawful R) where
  submitted-connect :
      (ctx : Context) (s : R.Ring)
      → R.reserve s (size event_t) ≢ none
      → (t : ℕ) × (R.submitted (tcp_v4_connect R ctx s)
          ≡ R.submitted s ++ events_with (ctx ∷ []) (t ∷ []))
  unfolding tcp_v4_connect
  submitted-connect ctx s room = elim (Option-cases (R.reserve s (size event_t))) [
    | inl full ↦ absurd (room full)
    | inr ((e, r), got) ↦ (
      e.type,
      ground (
        arith,
        got,
        submitted-emit L s (size event_t) e
            (record e {
              pid = to_u32 ctx.pid_tgid;
              uid = to_u32 ctx.uid_gid;
              uptime = ctx.ktime_ns;
            })
            r got,
      ),
    )
  ]

  -- With room in the ring buffer, a sequence of connects submits one event for each, in order, with
  -- its thread, its user and its time; the members `type` are some numbers, which the program does not
  -- set.
  pub submitted-connects :
      (connects : List Context) (s : R.Ring)
      → HasRoom R (tcp_v4_connect R) (size event_t) connects s
      → (types : List ℕ) × (length types ≡ length connects)
        × (R.submitted (run R (tcp_v4_connect R) connects s)
            ≡ R.submitted s ++ events_with connects types)
  unfolding run
  submitted-connects [] s room = ([], refl, rw append-nil refl)
  submitted-connects (ctx ∷ connects) s (now, later) =
      let (t, one) = submitted-connect ctx s now in
      let (types, same, all) = submitted-connects connects (tcp_v4_connect R ctx s) later in
      (
        t ∷ types,
        omega (arith, same),
        all
            ∙ ap (λ es. es ++ events_with connects types) one
            ∙ append_assoc (R.submitted s) (events_with (ctx ∷ []) (t ∷ []))
                (events_with connects types),
      )

  held-connect : (ctx : Context) (s : R.Ring) → R.held (tcp_v4_connect R ctx s) ≡ R.held s
  unfolding tcp_v4_connect
  held-connect ctx s = elim (Option-cases (R.reserve s (size event_t))) [
    | inl full ↦ ground arith
    | inr (er, got) ↦ ground (
      arith,
      held-emit L s (size event_t) er.0
          (record (er.0) {
            pid = to_u32 ctx.pid_tgid;
            uid = to_u32 ctx.uid_gid;
            uptime = ctx.ktime_ns;
          })
          er.1 got,
    )
  ]

  -- No sequence of connects leaves a reservation behind, with room or without.
  pub held-connects :
      (connects : List Context) (s : R.Ring)
      → R.held (run R (tcp_v4_connect R) connects s) ≡ R.held s
  held-connects = held-run R (tcp_v4_connect R) held-connect
