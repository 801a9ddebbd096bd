-- ===== src/Bpf/Context.antt =====
-- The helpers that read the task, the clock and the memory a program runs on. A run of a program sees
-- one task; each program reads the clock at most once.
use bumblebee.Common.{
  ℕ, ◌+◌, ◌*◌, ◌/◌, ◌%◌, ◌^◌, String, Option, none, some, List, [], ◌∷◌, replicate,
}
use bumblebee.CTypes.Syntax.{CType}
use bumblebee.CTypes.Layout.{size}
use bumblebee.CTypes.Access.{locate}

-- `current_comm n` is what `bpf_get_current_comm` leaves in a buffer of n bytes, `read_kernel` the
-- bytes of kernel memory from an address on (none for a fault), `read_user_str` what
-- `bpf_probe_read_user_str` makes of a buffer's bytes, given them and the address.
pub record Context : Type 0 where
  pub pid_tgid : ℕ
  pub uid_gid : ℕ
  pub task : ℕ
  pub ktime_ns : ℕ
  pub current_comm : ℕ → List ℕ
  pub read_kernel : ℕ → ℕ → Option (List ℕ)
  pub read_user_str : List ℕ → ℕ → List ℕ

-- The number whose bytes these are, the lowest first.
unfoldable pub from_bytes : List ℕ → ℕ
from_bytes [] = 0
from_bytes (b ∷ bs) = b + 256 * from_bytes bs

-- `bpf_probe_read_kernel` into a buffer of n bytes: a fault leaves zeros.
unfoldable pub probe_read_kernel : Context → ℕ → ℕ → List ℕ
probe_read_kernel ctx n p = elim (ctx.read_kernel p n) [ none ↦ replicate n 0 | some bytes ↦ bytes ]

-- `BPF_CORE_READ(p, path)` for an object of type `t` at `p`, the bytes and the number that they are.
-- A path that the type does not have is no program; it is read as no bytes.
unfoldable pub core_read_bytes : Context → ℕ → CType → List String → List ℕ
unfolding probe_read_kernel
core_read_bytes ctx p t path = elim (locate path t 0) [
  | none ↦ []
  | some q ↦ probe_read_kernel ctx (size q.typ) ((p + q.at_bit / 8) % 2 ^ 64)
]

unfoldable pub core_read : Context → ℕ → CType → List String → ℕ
unfolding core_read_bytes
core_read ctx p t path = from_bytes (core_read_bytes ctx p t path)
