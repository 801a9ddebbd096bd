-- ===== src/Samples.antt =====
-- A small kernel for the tests: one socket, one process, and a clock that the tests set.
use bumblebee.Common.{
  ℕ, ◌+◌, ◌*◌, ◌^◌, Option, none, some, List, [], ◌∷◌, ◌==◌, if◌then◌else◌, replicate, take, ◌++◌,
}
use bumblebee.Bpf.Context.{Context}

abbrev pub socket : ℕ
socket = 0x1000

abbrev pub other_socket : ℕ
other_socket = 0x2000

abbrev pub process : ℕ
process = 0x4000

-- The sockets: addresses, family, state. The process: exit code, start time, parent, name, namespaces.
abbrev pub memory : ℕ → ℕ → Option (List ℕ)
memory a n =
    if a == 0x1000
    then some (10 ∷ 0 ∷ 0 ∷ 2 ∷ [])
    else if a == 0x1004
    then some (10 ∷ 0 ∷ 0 ∷ 1 ∷ [])
    else if a == 0x1010
    then some (2 ∷ 0 ∷ [])
    else if a == 0x1012
    then some (2 ∷ [])
    else if a == 0x2000
    then some (10 ∷ 0 ∷ 0 ∷ 3 ∷ [])
    else if a == 0x4000 + 2232
    then some (0 ∷ 1 ∷ 0 ∷ 0 ∷ [])
    else if a == 0x4000 + 2352
    then some (0 ∷ 0x40 ∷ 0 ∷ 0 ∷ 0 ∷ 0 ∷ 0 ∷ 0 ∷ [])
    else if a == 0x4000 + 2340
    then some (42 ∷ 0 ∷ 0 ∷ 0 ∷ [])
    else none

-- The context of a thread of process 42 at a time, running `bash`.
abbrev pub context : ℕ → ℕ → Context
context tid ktime = record {
  pid_tgid = 42 * 2 ^ 32 + tid;
  uid_gid = 1000 * 2 ^ 32 + 1001;
  task = process;
  ktime_ns = ktime;
  current_comm = λ n. take n ((98 ∷ 97 ∷ 115 ∷ 104 ∷ []) ++ replicate n 0);
  read_kernel = memory;
  read_user_str = λ buffer a. take 255 ((47 ∷ 120 ∷ 0 ∷ []) ++ buffer);
}
