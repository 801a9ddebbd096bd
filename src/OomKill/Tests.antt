-- ===== src/OomKill/Tests.antt =====
-- Runs of oomkill.c's probe, and its theorems at concrete data.
use bumblebee.Common.{
  ℕ, ◌+◌, ◌≡◌, refl, Option, none, some, List, [], ◌∷◌, replicate, ◌==◌, if◌then◌else◌,
}
use bumblebee.CTypes.Layout.{size}
use bumblebee.CTypes.Access.{locate}
use bumblebee.Bpf.RingBuf.{RingBuf}
use bumblebee.Bpf.RingBuf.Stream.{run}
use bumblebee.Bpf.Examples.{Buffer, bounded_ring, bounded_ring-IsLawful}
use bumblebee.Bpf.Context.{core_read, from_bytes}
use bumblebee.Samples.{context}
use bumblebee.OomKill.{Kill, data_t, total_pages, chosen_comm, oom_kill_process}
use bumblebee.OomKill.Laws.{Trigger, step, submitted-kills}

abbrev old : Kill
old = record { fpid = 9; tpid = 9; pages = 9; fcomm = []; tcomm = [] }

abbrev ring : RingBuf Kill
ring = bounded_ring old 9

abbrev fresh : Buffer Kill
fresh = record { items = []; pending = 0 }

-- At 0x8000 a `struct oom_control` with 77 pages, whose chosen task at 0x9000 is named "top".
abbrev memory : ℕ → ℕ → Option (List ℕ)
memory a n =
    if a == 0x8020
    then some (77 ∷ replicate 7 0)
    else if a == 0x8028
    then some (0 ∷ 0x90 ∷ replicate 6 0)
    else if a == 0x9000 + 2808
    then some (116 ∷ 111 ∷ 112 ∷ replicate 13 0)
    else none

abbrev kills : List Trigger
kills = record { ctx = record (context 5 0) { read_kernel = memory }; oc = 0x8000 } ∷ []

-- Thread 5 of process 42 triggers the kill, and `tpid` is 5, whatever `top`'s number is.
abbrev expected : Kill
expected = record {
  fpid = 42;
  tpid = 5;
  pages = 77;
  fcomm = 98 ∷ 97 ∷ 115 ∷ 104 ∷ replicate 12 0;
  tcomm = 116 ∷ 111 ∷ 112 ∷ replicate 13 0;
}

data_size : size data_t ≡ 48
unfolding size
data_size = refl

submitted-kills_example : ring.submitted (run ring (step ring) kills fresh) ≡ expected ∷ []
unfolding run oom_kill_process total_pages chosen_comm core_read from_bytes locate size
submitted-kills_example =
    submitted-kills ring (bounded_ring-IsLawful old 9) kills fresh ((λ e. cc), tt)
