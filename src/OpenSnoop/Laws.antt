-- ===== src/OpenSnoop/Laws.antt =====
-- What opensnoop.c reports of each system call, and what it keeps of it.
use bumblebee.Common.{
  ℕ, ◌≡◌, refl, ◌≢◌, ◌∙◌, true, none, some, List, [], ◌∷◌, ◌++◌, arith, to_u32, Option-cases, inl,
  inr,
}
use bumblebee.CTypes.Layout.{size}
use bumblebee.Bpf.Equality.{nat_eq}
use bumblebee.Bpf.HashMap
use bumblebee.Bpf.HashMap.{HashMap}
use bumblebee.Bpf.HashMap.Laws.{
  lookup-update_ne, lookup-update_self, lookup-delete_self, lookup-delete_ne,
}
use bumblebee.Bpf.RingBuf
use bumblebee.Bpf.RingBuf.{RingBuf}
use bumblebee.Bpf.RingBuf.Laws.{submitted-emit, held-emit}
use bumblebee.Bpf.Context.{Context}
use bumblebee.OpenSnoop.{
  Maps, Args, Event, Call, sys_enter_open, sys_enter_openat, sys_exit_open, sys_exit_openat, event,
  event_of, trace_exit, probe, run,
}

-- The thread of a call.
abbrev pub thread : Call → ℕ
thread (sys_enter_open ctx args) = to_u32 ctx.pid_tgid
thread (sys_enter_openat ctx args) = to_u32 ctx.pid_tgid
thread (sys_exit_open ctx ret) = to_u32 ctx.pid_tgid
thread (sys_exit_openat ctx ret) = to_u32 ctx.pid_tgid

-- Every call of a list comes from another thread than `tid`.
abbrev pub Others : ℕ → List Call → Type 0
Others tid [] = Unit
Others tid (c ∷ calls) = (tid ≢ thread c) × Others tid calls

module _ (S : HashMap ℕ Args) (R : RingBuf Event) where
  exit-missing :
      (ctx : Context) (ret : ℕ) (s : Maps S R)
      → S.lookup s.start (to_u32 ctx.pid_tgid) ≡ none
      → trace_exit S R ctx ret s ≡ s
  unfolding trace_exit
  exit-missing ctx ret s h = ground arith

  -- Where the ring buffer has no room the call is not reported, and the arguments of its entry stay
  -- in the map: nothing at all changes.
  pub exit-full :
      (ctx : Context) (ret : ℕ) (s : Maps S R)
      → R.reserve s.events (size event) ≡ none
      → trace_exit S R ctx ret s ≡ s
  unfolding trace_exit
  exit-full ctx ret s full = ground arith

  exit-emit :
      (ctx : Context) (ret : ℕ) (s : Maps S R) (ap : Args) (e : Event) (r : R.Ring)
      → S.lookup s.start (to_u32 ctx.pid_tgid) ≡ some ap
      → R.reserve s.events (size event) ≡ some (e, r)
      → trace_exit S R ctx ret s ≡ record {
        start = S.delete s.start (to_u32 ctx.pid_tgid);
        events = R.submit r (event_of ctx ap (to_u32 ret));
      }
  unfolding trace_exit
  exit-emit ctx ret s ap e r found room = ground arith

  module _ (L : HashMap.IsLawful S) where
    start-exit_ne :
        (ctx : Context) (ret tid : ℕ) (s : Maps S R)
        → tid ≢ to_u32 ctx.pid_tgid
        → S.lookup (trace_exit S R ctx ret s).start tid ≡ S.lookup s.start tid
    unfolding trace_exit
    start-exit_ne ctx ret tid s ne =
        ground (arith, lookup-delete_ne L s.start (to_u32 ctx.pid_tgid) tid ne)

    start-probe_ne :
        (c : Call) (tid : ℕ) (s : Maps S R)
        → tid ≢ thread c
        → S.lookup (probe S R c s).start tid ≡ S.lookup s.start tid
    unfolding probe
    start-probe_ne (sys_enter_open ctx args) tid s ne = lookup-update_ne L _ _ _ _ ne
    start-probe_ne (sys_enter_openat ctx args) tid s ne = lookup-update_ne L _ _ _ _ ne
    start-probe_ne (sys_exit_open ctx ret) tid s ne = start-exit_ne ctx ret tid s ne
    start-probe_ne (sys_exit_openat ctx ret) tid s ne = start-exit_ne ctx ret tid s ne

    -- Whatever the other threads do, in any order, a thread finds the arguments that it stored.
    pub start-run-Others :
        (calls : List Call) (tid : ℕ) (s : Maps S R)
        → Others tid calls
        → S.lookup (run S R calls s).start tid ≡ S.lookup s.start tid
    unfolding run
    start-run-Others [] tid s others = refl
    start-run-Others (c ∷ calls) tid s others =
        start-run-Others calls tid (probe S R c s) others.1 ∙ start-probe_ne c tid s others.0

  module _ (L : HashMap.IsLawful S) (LR : RingBuf.IsLawful R) where
    -- What a whole system call leaves: one more event, made of the arguments of the entry and the
    -- value and task of the return, and no entry of the thread in the map.
    abbrev pub Reported : Context → Args → ℕ → Maps S R → Maps S R → Type 0
    Reported ctx args ret s t =
        (R.submitted t.events ≡ R.submitted s.events ++ (event_of ctx args (to_u32 ret) ∷ []))
        × (S.lookup t.start (to_u32 ctx.pid_tgid) ≡ none)

    exit-Reported :
        (ctx : Context) (ap : Args) (ret : ℕ) (s : Maps S R)
        → S.lookup s.start (to_u32 ctx.pid_tgid) ≡ some ap
        → R.reserve s.events (size event) ≢ none
        → Reported ctx ap ret s (trace_exit S R ctx ret s)
    exit-Reported ctx ap ret s found room = elim (Option-cases (R.reserve s.events (size event))) [
      | inl full ↦ absurd (room full)
      | inr (er, got) ↦
          rw (exit-emit ctx ret s ap er.0 er.1 found got)
            (submitted-emit LR _ _ _ _ _ got, lookup-delete_self L s.start (to_u32 ctx.pid_tgid))
    ]

    -- The same for `open`, whose file name and flags are its first two arguments.
    pub open-Reported :
        (entry leave : Context) (args : ℕ → ℕ) (ret : ℕ) (between : List Call) (s : Maps S R)
        → let tid = to_u32 leave.pid_tgid in
          let stored : Args = record { fname = args 0; flags = to_u32 (args 1) } in
          let s' = run S R between (probe S R (sys_enter_open entry args) s) in
          to_u32 entry.pid_tgid ≡ tid
          → (S.update s.start tid stored).1 ≡ true
          → Others tid between
          → R.reserve s'.events (size event) ≢ none
          → Reported leave stored ret s' (probe S R (sys_exit_open leave ret) s')
    unfolding probe
    open-Reported entry leave args ret between s same stored others room =
        exit-Reported leave _ ret _
          (start-run-Others L between _ _ others ∙ rw same (lookup-update_self L _ _ _ stored)) room

  module _ (LR : RingBuf.IsLawful R) where
    held-exit :
        (ctx : Context) (ret : ℕ) (s : Maps S R)
        → R.held (trace_exit S R ctx ret s).events ≡ R.held s.events
    held-exit ctx ret s = elim (Option-cases (S.lookup s.start (to_u32 ctx.pid_tgid))) [
      | inl missing ↦ rw (exit-missing ctx ret s missing)
      | inr (ap, found) ↦ elim (Option-cases (R.reserve s.events (size event))) [
        | inl full ↦ rw (exit-full ctx ret s full)
        | inr (er, room) ↦
            rw (exit-emit ctx ret s ap er.0 er.1 found room) (held-emit LR _ _ _ _ _ room)
      ]
    ]

    held-probe : (c : Call) (s : Maps S R) → R.held (probe S R c s).events ≡ R.held s.events
    unfolding probe
    held-probe (sys_enter_open ctx args) s = refl
    held-probe (sys_enter_openat ctx args) s = refl
    held-probe (sys_exit_open ctx ret) s = held-exit ctx ret s
    held-probe (sys_exit_openat ctx ret) s = held-exit ctx ret s

    -- No run of the tracepoints, on any path through them, leaves a reservation behind.
    pub held-run_opensnoop :
        (calls : List Call) (s : Maps S R) → R.held (run S R calls s).events ≡ R.held s.events
    unfolding run
    held-run_opensnoop [] s = refl
    held-run_opensnoop (c ∷ calls) s = held-run_opensnoop calls (probe S R c s) ∙ held-probe c s
