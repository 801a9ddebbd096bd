-- ===== src/ActiveConn/Tests.antt =====
-- Runs of activeconn.c's probes, and its theorems at concrete data.
use bumblebee.Common.{ℕ, ◌-◌, ◌^◌, ◌≡◌, refl, true, false, some, List, [], ◌∷◌, arith}
use bumblebee.CTypes.Layout.{size}
use bumblebee.CTypes.Access.{locate}
use bumblebee.Bpf.Equality.{Dimensions, dimensions_eq, nat_eq}
use bumblebee.Bpf.HashMap.{HashMap}
use bumblebee.Bpf.Examples.{bounded_map, bounded_map-IsLawful}
use bumblebee.Bpf.Context.{core_read, from_bytes}
use bumblebee.Samples.{socket, other_socket, context}
use bumblebee.ActiveConn.{
  Maps, Call, tcp_v4_connect, tcp_v4_connect_ret, tcp_close, tcp_close_ret, endpoints, probe, run,
}
use bumblebee.ActiveConn.Balance.{Done, calls_of, gauge_counts_open, interrupted_connect}

abbrev by_thread : HashMap ℕ ℕ
by_thread = bounded_map ℕ ℕ 8192

abbrev by_addresses : HashMap Dimensions ℕ
by_addresses = bounded_map Dimensions ℕ 8192

abbrev pair : Dimensions
pair = record { saddr = 0x100000a; daddr = 0x200000a }

abbrev maps : List (Dimensions × ℕ) → Maps by_thread by_addresses
maps gauges = record { sockets = []; sockets_ext = gauges }

-- Thread 5 connects the sample socket, thread 6 closes it, thread 5 closes it once more.
abbrev history : List Done
history =
    record { closes = false; entry = context 5 1; leave = context 5 2; sk = socket; ret = 0 }
    ∷ record { closes = true; entry = context 6 3; leave = context 6 4; sk = socket; ret = 0 }
    ∷ record { closes = true; entry = context 5 5; leave = context 5 6; sk = socket; ret = 0 }
    ∷ []

-- The addresses are read in memory order, lowest byte first.
sample_endpoints : endpoints (context 5 0) socket ≡ pair
unfolding endpoints core_read from_bytes locate size
sample_endpoints = refl

run-history :
    run by_thread by_addresses (calls_of history) (maps ((pair, 1) ∷ [])) ≡ maps ((pair, 0) ∷ [])
unfolding run probe endpoints core_read from_bytes locate size
run-history = refl

-- A close with no gauge leaves 1, and a close at 0 wraps round.
first_close :
    run by_thread by_addresses
      (tcp_close (context 5 0) socket ∷ tcp_close_ret (context 5 1) 0 ∷ [])
      (maps [])
    ≡ maps ((pair, 1) ∷ [])
unfolding run probe endpoints core_read from_bytes locate size
first_close = refl

close_at_zero :
    run by_thread by_addresses
      (tcp_close (context 5 0) socket ∷ tcp_close_ret (context 5 1) 0 ∷ [])
      (maps ((pair, 0) ∷ []))
    ≡ maps ((pair, 2 ^ 64 - 1) ∷ [])
unfolding run probe endpoints core_read from_bytes locate size
close_at_zero = refl

gauge_counts_open_example :
    by_addresses.lookup
      (run by_thread by_addresses (calls_of history) (maps ((pair, 1) ∷ []))).sockets_ext
      pair
    ≡ some 0
unfolding run probe endpoints core_read from_bytes locate size
gauge_counts_open_example =
    gauge_counts_open by_thread by_addresses (bounded_map-IsLawful ℕ ℕ 8192)
      (bounded_map-IsLawful Dimensions ℕ 8192) history (maps ((pair, 1) ∷ [])) pair 1 refl
      (
        record { one_thread = refl; entered = refl; stored = refl },
        (
          record { one_thread = refl; entered = refl; stored = refl },
          (record { one_thread = refl; entered = refl; stored = refl }, tt),
        ),
      )
      (omega arith) (omega arith)

-- Thread 6 closes another socket while thread 5 connects.
abbrev meanwhile : List Call
meanwhile = tcp_close (context 6 2) other_socket ∷ tcp_close_ret (context 6 3) 0 ∷ []

interrupted_connect_example :
    by_addresses.lookup
      (probe by_thread by_addresses (tcp_v4_connect_ret (context 5 4) 0) (
        run by_thread by_addresses meanwhile (
          probe by_thread by_addresses
            (tcp_v4_connect (context 5 1) socket)
            (maps ((pair, 4) ∷ []))))).sockets_ext
      pair
    ≡ some 5
unfolding run probe endpoints core_read from_bytes locate size
interrupted_connect_example =
    interrupted_connect by_thread by_addresses (bounded_map-IsLawful ℕ ℕ 8192)
      (bounded_map-IsLawful Dimensions ℕ 8192) (context 5 1) (context 5 4) socket 0 meanwhile
      (maps ((pair, 4) ∷ [])) pair refl refl (omega arith) refl

abbrev entered : Maps by_thread by_addresses
entered = record { sockets = (5, socket) ∷ []; sockets_ext = [] }
