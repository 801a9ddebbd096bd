-- ===== src/TcpConnLat/Tests.antt =====
-- Runs of tcpconnlat.c's probes, and its theorems at concrete data.
use bumblebee.Common.{ℕ, ◌≡◌, refl, ◌≢◌, none, List, [], ◌∷◌, arith, replicate}
use bumblebee.CTypes.Layout.{size}
use bumblebee.CTypes.Access.{locate}
use bumblebee.Bpf.Equality.{nat_eq}
use bumblebee.Bpf.HashMap.{HashMap}
use bumblebee.Bpf.RingBuf.{RingBuf}
use bumblebee.Bpf.Examples.{bounded_map, bounded_map-IsLawful, bounded_ring, bounded_ring-IsLawful}
use bumblebee.Bpf.Context.{core_read, from_bytes}
use bumblebee.Samples.{socket, other_socket, context}
use bumblebee.TcpConnLat.{
  Maps, PidData, Event, Call, tcp_v4_connect, tcp_rcv_state_process, event, piddata_of, sk_common,
  probe, run,
}
use bumblebee.TcpConnLat.Laws.{connect_latency}
use bumblebee.TcpConnLat.Entries.{kept-run}

abbrev by_socket : HashMap ℕ PidData
by_socket = bounded_map ℕ PidData 4096

abbrev empty : Event
empty = record { saddr_v4 = 0; daddr_v4 = 0; comm = []; delta_us = 0; ts_us = 0; tgid = 0; af = 0 }

abbrev ring : RingBuf Event
ring = bounded_ring empty 9

abbrev with_starts : List (ℕ × PidData) → Maps by_socket ring
with_starts starts = record { start = starts; events = record { items = []; pending = 0 } }

event-size : size event ≡ 48
unfolding size
event-size = refl

-- 5000 ns after the connect the answer comes, and is reported; 4000 ns later, once more.
answers : List Call
answers =
    tcp_v4_connect (context 5 1000) socket
    ∷ tcp_rcv_state_process (context 9 6000) socket
    ∷ tcp_rcv_state_process (context 9 10000) socket
    ∷ []

abbrev seen : ℕ → ℕ → Event
seen delta ts = record {
  saddr_v4 = 0x100000a;
  daddr_v4 = 0x200000a;
  comm = 98 ∷ 97 ∷ 115 ∷ 104 ∷ replicate 12 0;
  delta_us = delta;
  ts_us = ts;
  tgid = 42;
  af = 2;
}

run-answers : run by_socket ring answers (with_starts []) ≡ record {
  start = (socket, piddata_of (context 5 1000)) ∷ [];
  events = record { items = seen 5 6 ∷ seen 9 10 ∷ []; pending = 0 };
}
unfolding answers run probe sk_common core_read from_bytes locate size
run-answers = refl

connect_latency_example :
    ring.submitted
      (probe by_socket ring
        (tcp_rcv_state_process (context 9 6000) socket)
        (probe by_socket ring (tcp_v4_connect (context 5 1000) socket) (with_starts []))).events
    ≡ seen 5 6 ∷ []
unfolding sk_common core_read from_bytes locate size
connect_latency_example =
    connect_latency by_socket ring (bounded_map-IsLawful ℕ PidData 4096)
      (bounded_ring-IsLawful empty 9) (context 5 1000) (context 9 6000) socket (with_starts []) refl
      refl (omega arith) (omega arith) (λ e. cc)

abbrev later : List Call
later =
    tcp_rcv_state_process (context 9 6000) socket
    ∷ tcp_v4_connect (context 6 7000) other_socket
    ∷ tcp_rcv_state_process (context 9 9000) socket
    ∷ []

kept-run_example :
    by_socket.lookup
      (run by_socket ring later (with_starts ((socket, piddata_of (context 5 1000)) ∷ []))).start
      socket
    ≢ none
kept-run_example =
    kept-run by_socket ring (bounded_map-IsLawful ℕ PidData 4096) later 2000 socket
      (with_starts ((socket, piddata_of (context 5 1000)) ∷ [])) (omega arith)
      (λ sk p h. ground arith) (λ e. cc)
