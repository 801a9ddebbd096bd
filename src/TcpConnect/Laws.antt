-- ===== src/TcpConnect/Laws.antt =====
-- The two outputs of tcpconnect.c: the counter and the events.
use bumblebee.Common.{
  ℕ, ◌+◌, ◌%◌, ◌^◌, ◌≡◌, refl, ◌≢◌, ◌∙◌, ap, Bool, true, false, Option, none, some, List, [], ◌∷◌,
  arith, if◌then◌else◌, to_u32, Option-cases, inl, inr,
}
use mathlib.Core.Path.{subst}
use bumblebee.CTypes.Layout.{size}
use bumblebee.Bpf.Equality.{Dimensions, ◌==◌, nat_eq, dimensions_eq, count, count-snoc}
use bumblebee.Bpf.HashMap
use bumblebee.Bpf.HashMap.{HashMap}
use bumblebee.Bpf.RingBuf
use bumblebee.Bpf.RingBuf.{RingBuf}
use bumblebee.Bpf.RingBuf.Laws.{submitted-emit, held-emit}
use bumblebee.Bpf.Context.{Context}
use bumblebee.TcpConnect.{
  Maps, Call, tcp_v4_connect, tcp_v4_connect_ret, dimensions_t, endpoints, next_value,
  exit_tcp_connect, probe, run,
}

-- A counter that is not there yet counts 0.
abbrev pub counted : Option ℕ → ℕ
counted none = 0
counted (some v) = v

module _ (S : HashMap ℕ ℕ) (H : HashMap Dimensions ℕ) (R : RingBuf Dimensions) where
  -- Neither output refuses the event of a pending socket: the counter's update succeeds, and the
  -- buffer has room.
  abbrev pub Accepts : Context → Maps S H R → Option ℕ → Type 0
  Accepts ctx s none = Unit
  Accepts ctx s (some sk) =
      ((H.update s.events_hash (endpoints ctx sk)
          (next_value (H.lookup s.events_hash (endpoints ctx sk)))).1
        ≡ true)
      × (R.reserve s.events_ring (size dimensions_t) ≢ none)

  abbrev pub Accepted : Call → Maps S H R → Type 0
  Accepted (tcp_v4_connect ctx sk) s = Unit
  Accepted (tcp_v4_connect_ret ctx ret) s = Accepts ctx s (S.lookup s.sockets (to_u32 ctx.pid_tgid))

  abbrev pub AllAccepted : List Call → Maps S H R → Type 0
  AllAccepted [] s = Unit
  AllAccepted (c ∷ calls) s = Accepted c s × AllAccepted calls (probe S H R c s)

  -- The counter after a return with a pending socket, whatever the ring buffer does.
  abbrev counter_after : Context → ℕ → Maps S H R → H.Map
  counter_after ctx sk s =
      (H.update s.events_hash (endpoints ctx sk)
        (next_value (H.lookup s.events_hash (endpoints ctx sk)))).0

  exit-missing :
      (ctx : Context) (ret : ℕ) (s : Maps S H R)
      → S.lookup s.sockets (to_u32 ctx.pid_tgid) ≡ none
      → exit_tcp_connect S H R ctx ret s ≡ s
  unfolding exit_tcp_connect
  exit-missing ctx ret s h = ground arith

  exit-full :
      (ctx : Context) (ret sk : ℕ) (s : Maps S H R)
      → S.lookup s.sockets (to_u32 ctx.pid_tgid) ≡ some sk
      → R.reserve s.events_ring (size dimensions_t) ≡ none
      → exit_tcp_connect S H R ctx ret s ≡ record {
        sockets = S.delete s.sockets (to_u32 ctx.pid_tgid);
        events_hash = counter_after ctx sk s;
        events_ring = s.events_ring;
      }
  unfolding exit_tcp_connect
  exit-full ctx ret sk s h full = ground arith

  exit-emit :
      (ctx : Context) (ret sk : ℕ) (s : Maps S H R) (e : Dimensions) (r : R.Ring)
      → S.lookup s.sockets (to_u32 ctx.pid_tgid) ≡ some sk
      → R.reserve s.events_ring (size dimensions_t) ≡ some (e, r)
      → exit_tcp_connect S H R ctx ret s ≡ record {
        sockets = S.delete s.sockets (to_u32 ctx.pid_tgid);
        events_hash = counter_after ctx sk s;
        events_ring = R.submit r (endpoints ctx sk);
      }
  unfolding exit_tcp_connect endpoints
  exit-emit ctx ret sk s e r h room = ground arith

  module _ (LR : RingBuf.IsLawful R) where
    held-exit :
        (ctx : Context) (ret : ℕ) (s : Maps S H R)
        → R.held (exit_tcp_connect S H R ctx ret s).events_ring ≡ R.held s.events_ring
    held-exit ctx ret s = elim (Option-cases (S.lookup s.sockets (to_u32 ctx.pid_tgid))) [
      | inl missing ↦ rw (exit-missing ctx ret s missing)
      | inr (sk, found) ↦ elim (Option-cases (R.reserve s.events_ring (size dimensions_t))) [
        | inl full ↦ rw (exit-full ctx ret sk s found full)
        | inr (er, room) ↦
            rw (exit-emit ctx ret sk s er.0 er.1 found room) (held-emit LR _ _ _ _ _ room)
      ]
    ]

    held-probe :
        (c : Call) (s : Maps S H R) → R.held (probe S H R c s).events_ring ≡ R.held s.events_ring
    unfolding probe
    held-probe (tcp_v4_connect ctx sk) s = refl
    held-probe (tcp_v4_connect_ret ctx ret) s = held-exit ctx ret s

    -- No run of the probes, on any path through them, leaves a reservation behind.
    pub held-run_tcpconnect :
        (calls : List Call) (s : Maps S H R)
        → R.held (run S H R calls s).events_ring ≡ R.held s.events_ring
    unfolding run
    held-run_tcpconnect [] s = refl
    held-run_tcpconnect (c ∷ calls) s = held-run_tcpconnect calls (probe S H R c s) ∙ held-probe c s

  -- The counters and the submitted events agree: each counter is the number of its events.
  abbrev pub Agree : Maps S H R → Type 0
  Agree s =
      (key : Dimensions)
      → counted (H.lookup s.events_hash key) ≡ count key (R.submitted s.events_ring) % 2 ^ 64

  next-count :
      (o : Option ℕ) (b : Bool) (n : ℕ)
      → counted o ≡ n % 2 ^ 64
      → counted (if b then some (next_value o) else o) ≡ (n + (if b then 1 else 0)) % 2 ^ 64
  next-count none true n h = omega arith
  next-count (some v) true n h = omega arith
  next-count o false n h = h ∙ ap (λ k. k % 2 ^ 64) (omega arith)

  same_counter :
      (s : Maps S H R) (key j : Dimensions)
      → (if key == j
          then some (next_value (H.lookup s.events_hash j))
          else H.lookup s.events_hash key)
        ≡ (if key == j
            then some (next_value (H.lookup s.events_hash key))
            else H.lookup s.events_hash key)
  same_counter s key j = ground (arith, dimensions_eq.beq_iff key j)

  module _ (LH : HashMap.IsLawful H) (LR : RingBuf.IsLawful R) where
    exit-Agree :
        (ctx : Context) (ret : ℕ) (s : Maps S H R)
        → Accepted (tcp_v4_connect_ret ctx ret) s
        → Agree s
        → Agree (exit_tcp_connect S H R ctx ret s)
    exit-Agree ctx ret s ok agree key =
        elim (Option-cases (S.lookup s.sockets (to_u32 ctx.pid_tgid))) [
          | inl missing ↦ rw (exit-missing ctx ret s missing) (agree key)
          | inr (sk, found) ↦ elim (Option-cases (R.reserve s.events_ring (size dimensions_t))) [
            | inl full ↦ absurd ((subst (Accepts ctx s) found ok).1 full)
            | inr (er, room) ↦
                rw
                  (
                    exit-emit ctx ret sk s er.0 er.1 found room,
                    submitted-emit LR _ _ _ (endpoints ctx sk) _ room,
                    count-snoc,
                    LH.lookup-update s.events_hash (endpoints ctx sk) _ key
                        (subst (Accepts ctx s) found ok).0,
                  )
                  (ap counted (same_counter s key (endpoints ctx sk))
                    ∙ next-count (H.lookup s.events_hash key) (key == endpoints ctx sk)
                        (count key (R.submitted s.events_ring)) (agree key))
          ]
        ]

    probe-Agree : (c : Call) (s : Maps S H R) → Accepted c s → Agree s → Agree (probe S H R c s)
    unfolding probe
    probe-Agree (tcp_v4_connect ctx sk) s ok agree = agree
    probe-Agree (tcp_v4_connect_ret ctx ret) s ok agree = exit-Agree ctx ret s ok agree

    -- Counters that agree with the events still agree after any run, whatever threads take part and
    -- however their probes interleave, if the counter's updates succeed and the buffer has room.
    pub run-Agree :
        (calls : List Call) (s : Maps S H R)
        → AllAccepted calls s
        → Agree s
        → Agree (run S H R calls s)
    unfolding run
    run-Agree [] s ok agree = agree
    run-Agree (c ∷ calls) s ok agree =
        run-Agree calls (probe S H R c s) ok.1 (probe-Agree c s ok.0 agree)
