-- ===== src/Capable/Tests.antt =====
-- Runs of capable.c's probe, and its theorems at concrete data.
use bumblebee.Common.{◌≡◌, refl, List, [], ◌∷◌, replicate}
use bumblebee.CTypes.Layout.{size}
use bumblebee.CTypes.Access.{locate}
use bumblebee.Bpf.RingBuf.{RingBuf}
use bumblebee.Bpf.RingBuf.Stream.{run}
use bumblebee.Bpf.Examples.{Buffer, bounded_ring, bounded_ring-IsLawful}
use bumblebee.Bpf.Context.{core_read, from_bytes}
use bumblebee.Samples.{context}
use bumblebee.Capable.{CapEvent, cap_event, key_t, mntns_id, cap_capable}
use bumblebee.Capable.Laws.{Check, step, submitted-checks}

-- What the memory of the buffer holds from earlier use.
abbrev old : CapEvent
old = record { mntnsid = 9; pid = 9; cap = 9; tgid = 9; uid = 9; cap_opt = 9; task = [] }

abbrev ring : RingBuf CapEvent
ring = bounded_ring old 9

abbrev fresh : Buffer CapEvent
fresh = record { items = []; pending = 0 }

abbrev checks : List Check
checks = record { ctx = context 5 0; cap = 12; cap_opt = 2 } ∷ []

abbrev expected : CapEvent
expected = record {
  mntnsid = 0;
  pid = 42;
  cap = 12;
  tgid = 5;
  uid = 1001;
  cap_opt = 2;
  task = 98 ∷ 97 ∷ 115 ∷ 104 ∷ replicate 12 0;
}

sizes : size cap_event ∷ size key_t ∷ [] ≡ 48 ∷ 16 ∷ []
unfolding size
sizes = refl

submitted-checks_example : ring.submitted (run ring (step ring) checks fresh) ≡ expected ∷ []
unfolding run cap_capable mntns_id core_read from_bytes locate size
submitted-checks_example =
    submitted-checks ring (bounded_ring-IsLawful old 9) checks fresh ((λ e. cc), tt)
