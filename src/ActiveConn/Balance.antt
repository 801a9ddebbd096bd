-- ===== src/ActiveConn/Balance.antt =====
-- The gauge of activeconn.c over whole calls, and over calls that others interrupt.
use bumblebee.Common.{
  ℕ, ◌+◌, ◌-◌, ◌*◌, ◌%◌, ◌^◌, ◌≤◌, ◌<◌, ◌≡◌, ap, ◌∙◌, Bool, true, false, some, List, [], ◌∷◌, arith,
  if◌then◌else◌, to_u32, minus_one,
}
use bumblebee.Bpf.Equality.{Dimensions, ◌==◌, nat_eq, dimensions_eq}
use bumblebee.Bpf.HashMap.{HashMap, IsLawful}
use bumblebee.Bpf.HashMap.Laws.{lookup-update_self}
use bumblebee.Bpf.Context.{Context}
use bumblebee.ActiveConn.{
  Maps, Call, tcp_v4_connect, tcp_v4_connect_ret, tcp_close, tcp_close_ret, endpoints, next_value,
  enter_tcp_connect, record_op, probe, run,
}
use bumblebee.ActiveConn.Laws.{Others, Stored, lookup-record_op, sockets-run-Others}

-- A call of `tcp_v4_connect` or of `tcp_close` from its entry to its return: the two contexts, the
-- socket, and the return value.
pub record Done : Type 0 where
  pub closes : Bool
  pub entry : Context
  pub leave : Context
  pub sk : ℕ
  pub ret : ℕ

abbrev pub entry_call : Done → Call
entry_call d = if d.closes then tcp_close d.entry d.sk else tcp_v4_connect d.entry d.sk

abbrev pub return_call : Done → Call
return_call d = if d.closes then tcp_close_ret d.leave d.ret else tcp_v4_connect_ret d.leave d.ret

abbrev pub calls_of : List Done → List Call
calls_of [] = []
calls_of (d ∷ ds) = entry_call d ∷ return_call d ∷ calls_of ds

-- How many of the calls concern a key, as connects or as closes.
abbrev pub count_of : Bool → Dimensions → List Done → ℕ
count_of closing key [] = 0
count_of closing key (d ∷ ds) =
    (if key == endpoints d.leave d.sk
      then (if d.closes then (if closing then 1 else 0) else (if closing then 0 else 1))
      else 0)
    + count_of closing key ds

abbrev pub op_of : Done → ℕ
op_of d = if d.closes then minus_one else 1

-- The gauge after one call, by whether the call concerns the key and whether it is a close.
abbrev gain : Bool → Bool → ℕ → ℕ
gain hit closes v = if hit then next_value (if closes then minus_one else 1) (some v) else v

gain-lt : (hit closes : Bool) (v : ℕ) → v < 2 ^ 64 → gain hit closes v < 2 ^ 64
gain-lt hit closes v h = ground arith

gain-some :
    (hit closes : Bool) (v : ℕ)
    → (if hit then some (next_value (if closes then minus_one else 1) (some v)) else some v)
      ≡ some (gain hit closes v)
gain-some hit closes v = ground arith

gain-add :
    (hit closes : Bool) (v o c : ℕ)
    → (gain hit closes v + o + (2 ^ 64 - 1) * c) % 2 ^ 64
      ≡ (v
          + ((if hit then (if closes then 0 else 1) else 0) + o)
          + (2 ^ 64 - 1) * ((if hit then (if closes then 1 else 0) else 0) + c))
        % 2 ^ 64
gain-add true true v o c = omega arith
gain-add true false v o c = omega arith
gain-add false closes v o c = omega arith

module _ (S : HashMap ℕ ℕ) (E : HashMap Dimensions ℕ) where
  -- Entry and return belong to one thread, and both updates succeed.
  pub record IsFine (d : Done) (s : Maps S E) : Type 0 where
    pub one_thread : to_u32 d.entry.pid_tgid ≡ to_u32 d.leave.pid_tgid
    pub entered : (S.update s.sockets (to_u32 d.leave.pid_tgid) d.sk).1 ≡ true
    pub stored : Stored S E d.leave (op_of d) d.sk s

  abbrev pub AllFine : List Done → Maps S E → Type 0
  AllFine [] s = Unit
  AllFine (d ∷ ds) s =
      IsFine d s × AllFine ds (probe S E (return_call d) (probe S E (entry_call d) s))

  probe-entry :
      (d : Done) (s : Maps S E) → probe S E (entry_call d) s ≡ enter_tcp_connect S E d.entry d.sk s
  unfolding probe
  probe-entry d s = ground arith

  probe-return :
      (d : Done) (s : Maps S E)
      → probe S E (return_call d) s ≡ record_op S E d.leave d.ret (op_of d) s
  unfolding probe
  probe-return d s = ground arith

  module _ (LS : IsLawful S) (LE : IsLawful E) where
    pending-enter :
        (ctx ctx' : Context) (sk : ℕ) (s : Maps S E)
        → to_u32 ctx.pid_tgid ≡ to_u32 ctx'.pid_tgid
        → (S.update s.sockets (to_u32 ctx'.pid_tgid) sk).1 ≡ true
        → S.lookup (enter_tcp_connect S E ctx sk s).sockets (to_u32 ctx'.pid_tgid) ≡ some sk
    unfolding enter_tcp_connect
    pending-enter ctx ctx' sk s same stored = rw same (lookup-update_self LS _ _ _ stored)

    -- One whole call.
    lookup-done :
        (d : Done) (s : Maps S E) (key : Dimensions)
        → IsFine d s
        → E.lookup (probe S E (return_call d) (probe S E (entry_call d) s)).sockets_ext key ≡ (
            if key == endpoints d.leave d.sk
            then some (next_value (op_of d) (E.lookup s.sockets_ext key))
            else E.lookup s.sockets_ext key)
    unfolding enter_tcp_connect
    lookup-done d s key f =
        rw (probe-return, probe-entry)
          (lookup-record_op S E LE d.leave d.ret (op_of d) d.sk
            (enter_tcp_connect S E d.entry d.sk s) key
            (pending-enter d.entry d.leave d.sk s f.one_thread f.entered) f.stored)

    -- From a gauge `v` on, whole calls add one for each connect between the two addresses and take
    -- one off for each close, modulo 2 ^ 64. This if every update on the way succeeds.
    pub gauge_balance :
        (ds : List Done) (s : Maps S E) (key : Dimensions) (v : ℕ)
        → v < 2 ^ 64
        → E.lookup s.sockets_ext key ≡ some v
        → AllFine ds s
        → E.lookup (run S E (calls_of ds) s).sockets_ext key
          ≡ some ((v + count_of false key ds + (2 ^ 64 - 1) * count_of true key ds) % 2 ^ 64)
    unfolding run
    gauge_balance [] s key v bound h f = h ∙ ground arith
    gauge_balance (d ∷ ds) s key v bound h f =
        gauge_balance ds (probe S E (return_call d) (probe S E (entry_call d) s)) key
          (gain (key == endpoints d.leave d.sk) d.closes v)
          (gain-lt (key == endpoints d.leave d.sk) d.closes v bound)
          (lookup-done d s key f.0 ∙ rw h (gain-some (key == endpoints d.leave d.sk) d.closes v))
          f.1
        ∙ ap some (
            gain-add (key == endpoints d.leave d.sk) d.closes v (count_of false key ds)
              (count_of true key ds))

    -- So the gauge of two addresses is the number of connections between them, as long as no more are
    -- closed than were open: `v` at the start, those connected added, those closed taken off.
    pub gauge_counts_open :
        (ds : List Done) (s : Maps S E) (key : Dimensions) (v : ℕ)
        → E.lookup s.sockets_ext key ≡ some v
        → AllFine ds s
        → count_of true key ds ≤ v + count_of false key ds
        → v + count_of false key ds < 2 ^ 64
        → E.lookup (run S E (calls_of ds) s).sockets_ext key
          ≡ some (v + count_of false key ds - count_of true key ds)
    gauge_counts_open ds s key v h f enough bound =
        gauge_balance ds s key v (omega arith) h f ∙ ap some (omega arith)

    -- A connect whose entry and return are apart, with any calls of other threads between them: at the
    -- return the gauge of the socket's addresses goes up by one (or becomes 1), from whatever it is
    -- by then, and no other gauge changes.
    pub interrupted_connect :
        (entry leave : Context) (sk ret : ℕ) (between : List Call) (s : Maps S E) (key : Dimensions)
        → let tid = to_u32 leave.pid_tgid in
          let s' = run S E between (probe S E (tcp_v4_connect entry sk) s) in
          to_u32 entry.pid_tgid ≡ tid
          → (S.update s.sockets tid sk).1 ≡ true
          → Others tid between
          → Stored S E leave 1 sk s'
          → E.lookup (probe S E (tcp_v4_connect_ret leave ret) s').sockets_ext key ≡ (
              if key == endpoints leave sk
              then some (next_value 1 (E.lookup s'.sockets_ext key))
              else E.lookup s'.sockets_ext key)
    unfolding probe
    interrupted_connect entry leave sk ret between s key same entered others stored =
        lookup-record_op S E LE leave ret 1 sk _ key
          (sockets-run-Others S E LS between _ _ others
            ∙ pending-enter entry leave sk s same entered)
          stored
