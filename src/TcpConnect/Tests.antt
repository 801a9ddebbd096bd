-- ===== src/TcpConnect/Tests.antt =====
-- Runs of tcpconnect.c's probes, and its theorems at concrete data.
use bumblebee.Common.{ℕ, ◌≡◌, refl, List, [], ◌∷◌}
use bumblebee.CTypes.Layout.{size}
use bumblebee.CTypes.Access.{locate}
use bumblebee.Bpf.Equality.{Dimensions, dimensions_eq, nat_eq}
use bumblebee.Bpf.HashMap.{HashMap}
use bumblebee.Bpf.RingBuf.{RingBuf}
use bumblebee.Bpf.Examples.{bounded_map, bounded_map-IsLawful, bounded_ring, bounded_ring-IsLawful}
use bumblebee.Bpf.Context.{core_read, from_bytes}
use bumblebee.Samples.{socket, context}
use bumblebee.TcpConnect.{
  Maps, Call, tcp_v4_connect, tcp_v4_connect_ret, dimensions_t, endpoints, probe, run,
}
use bumblebee.TcpConnect.Laws.{Agree, run-Agree}

abbrev by_thread : HashMap ℕ ℕ
by_thread = bounded_map ℕ ℕ 8192

abbrev by_addresses : HashMap Dimensions ℕ
by_addresses = bounded_map Dimensions ℕ 8192

abbrev pair : Dimensions
pair = record { saddr = 0x100000a; daddr = 0x200000a }

abbrev nowhere : Dimensions
nowhere = record { saddr = 0; daddr = 0 }

abbrev ring : ℕ → RingBuf Dimensions
ring = bounded_ring nowhere

abbrev fresh : (room : ℕ) → Maps by_thread by_addresses (ring room)
fresh room = record {
  sockets = [];
  events_hash = [];
  events_ring = record { items = []; pending = 0 };
}

-- Threads 5 and 6 connect at the same time; 7 returns without an entry.
abbrev calls : List Call
calls =
    tcp_v4_connect (context 5 1) socket
    ∷ tcp_v4_connect (context 6 2) socket
    ∷ tcp_v4_connect_ret (context 5 3) 0
    ∷ tcp_v4_connect_ret (context 7 4) 0
    ∷ tcp_v4_connect_ret (context 6 5) 0
    ∷ []

event-size : size dimensions_t ≡ 8
unfolding size
event-size = refl

run-calls : run by_thread by_addresses (ring 9) calls (fresh 9) ≡ record {
  sockets = [];
  events_hash = (pair, 2) ∷ [];
  events_ring = record { items = pair ∷ pair ∷ []; pending = 0 };
}
unfolding run probe endpoints core_read from_bytes locate size
run-calls = refl

-- With room for one event the counter goes on alone.
run_short_of_room : run by_thread by_addresses (ring 1) calls (fresh 1) ≡ record {
  sockets = [];
  events_hash = (pair, 2) ∷ [];
  events_ring = record { items = pair ∷ []; pending = 0 };
}
unfolding run probe endpoints core_read from_bytes locate size
run_short_of_room = refl

run-Agree_example :
    Agree by_thread by_addresses (ring 9) (run by_thread by_addresses (ring 9) calls (fresh 9))
unfolding run probe endpoints core_read from_bytes locate size
run-Agree_example =
    run-Agree by_thread by_addresses (ring 9) (bounded_map-IsLawful Dimensions ℕ 8192)
      (bounded_ring-IsLawful nowhere 9) calls (fresh 9)
      (tt, (tt, ((refl, λ e. cc), (tt, ((refl, λ e. cc), tt))))) (λ key. refl)
