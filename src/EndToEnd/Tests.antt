-- ===== src/EndToEnd/Tests.antt =====
-- The kernel and the loader together, at concrete data.
use text.Mathlib.Text.{◌==◌ as str_eq}
use bumblebee.Common.{
  ℕ, ◌≡◌, refl, String, Bool, false, some, List, [], ◌∷◌, ◌%◌, ◌^◌, ◌==◌, if◌then◌else◌,
}
use bumblebee.CTypes.Layout.{size}
use bumblebee.CTypes.Access.{locate}
use bumblebee.Bpf.Context.{core_read, from_bytes}
use bumblebee.Bpf.Equality.{Dimensions, dimensions_eq, nat_eq}
use bumblebee.Bpf.HashMap.{HashMap}
use bumblebee.Bpf.RingBuf.{RingBuf}
use bumblebee.Bpf.Examples.{bounded_map, bounded_map-IsLawful, bounded_ring, bounded_ring-IsLawful}
use bumblebee.Samples.{socket, context}
use bumblebee.TcpConnect.{Maps, Call, tcp_v4_connect, tcp_v4_connect_ret, endpoints, probe, run}
use bumblebee.Decoder.Types.{little, Value, ip}
use bumblebee.Decoder.Decode.{put_uint32}
use bumblebee.Loader.Types.{Labels}
use bumblebee.Loader.Watch.{increment_counter, returned, stringify, start_ring_buf}
use bumblebee.EndToEnd.{dimensions_members, reads_of, increments_at, kernel_meets_loader}

abbrev by_thread : HashMap ℕ ℕ
by_thread = bounded_map ℕ ℕ 8192

abbrev by_addresses : HashMap Dimensions ℕ
by_addresses = bounded_map Dimensions ℕ 8192

abbrev pair : Dimensions
pair = record { saddr = 0x100000a; daddr = 0x200000a }

abbrev nowhere : Dimensions
nowhere = record { saddr = 0; daddr = 0 }

abbrev ring : RingBuf Dimensions
ring = bounded_ring nowhere 9

abbrev fresh : Maps by_thread by_addresses ring
fresh = record { sockets = []; events_hash = []; events_ring = record { items = []; pending = 0 } }

abbrev calls : List Call
calls =
    tcp_v4_connect (context 5 1) socket
    ∷ tcp_v4_connect (context 6 2) socket
    ∷ tcp_v4_connect_ret (context 5 3) 0
    ∷ tcp_v4_connect_ret (context 6 5) 0
    ∷ []

-- `fmt.Sprint` for the addresses 10.0.0.1 and 10.0.0.2.
abbrev sprint : Value → String
sprint (ip (a ∷ b ∷ c ∷ d ∷ [])) = if d == 1 then "10.0.0.1" else "10.0.0.2"
sprint _ = ""

abbrev from_first : Labels → Bool
from_first [] = false
from_first ((name, v) ∷ labels) = str_eq v "10.0.0.1"

kernel_meets_loader_example :
    (2
      ≡ increments_at from_first
          (start_ring_buf little sprint
            (some dimensions_members)
            increment_counter
            "events_ring"
            (reads_of (ring.submitted (run by_thread by_addresses ring calls fresh).events_ring))).0
        % 2 ^ 64)
    × ((start_ring_buf little sprint
          (some dimensions_members)
          increment_counter
          "events_ring"
          (reads_of (ring.submitted (run by_thread by_addresses ring calls fresh).events_ring))).1
        ≡ returned)
unfolding run probe endpoints core_read from_bytes locate size stringify put_uint32
kernel_meets_loader_example =
    kernel_meets_loader sprint by_thread by_addresses ring (bounded_map-IsLawful Dimensions ℕ 8192)
      (bounded_ring-IsLawful nowhere 9) calls fresh "events_ring" pair from_first
      (tt, (tt, ((refl, λ e. cc), ((refl, λ e. cc), tt)))) (λ key. refl)
      (((λ e. refl), (λ e. refl)), (((λ e. refl), (λ e. refl)), tt))
