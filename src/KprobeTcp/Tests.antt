-- ===== src/KprobeTcp/Tests.antt =====
-- Runs of kprobetcp's handler, and its theorems at concrete data.
use bumblebee.Common.{◌≡◌, refl, ℕ, List, length, [], ◌∷◌}
use bumblebee.CTypes.Layout.{size}
use bumblebee.Bpf.RingBuf.{RingBuf}
use bumblebee.Bpf.Examples.{Buffer, bounded_ring, bounded_ring-IsLawful}
use bumblebee.Bpf.RingBuf.Stream.{run}
use bumblebee.Samples.{context}
use bumblebee.KprobeTcp.{Event, event_t, tcp_v4_connect}
use bumblebee.KprobeTcp.Laws.{events_with, submitted-connects}

-- What the memory of the buffer holds from earlier use.
abbrev old : Event
old = record { pid = 9; uid = 9; type = 0xdead; uptime = 9 }

abbrev ring : RingBuf Event
ring = bounded_ring old 9

abbrev fresh : Buffer Event
fresh = record { items = []; pending = 0 }

-- A packed structure: 20 bytes, and not 24.
event-size : size event_t ≡ 20
unfolding size
event-size = refl

-- The type of the event is what the memory held.
type_of_memory :
    ring.submitted (tcp_v4_connect ring (context 5 100) fresh)
    ≡ record { pid = 5; uid = 1001; type = 0xdead; uptime = 100 } ∷ []
unfolding tcp_v4_connect size
type_of_memory = refl

submitted-connects_example :
    (types : List ℕ) × (length types ≡ 2)
    × (ring.submitted (run ring (tcp_v4_connect ring) (context 5 100 ∷ context 6 200 ∷ []) fresh)
        ≡ events_with (context 5 100 ∷ context 6 200 ∷ []) types)
unfolding tcp_v4_connect size
submitted-connects_example =
    submitted-connects ring (bounded_ring-IsLawful old 9) (context 5 100 ∷ context 6 200 ∷ []) fresh
      ((λ e. cc), ((λ e. cc), tt))
