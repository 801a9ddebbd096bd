-- ===== src/Capable.antt =====
-- examples/capable/capable.c: the kernel's capability checks, as events. The ring buffer is a
-- parameter. The maps `info` and `mount_ns_set` are declared and not used. The probe returns 0.
pub mod Laws
mod Tests
use bumblebee.Common.{ℕ, ◌^◌, Option, none, some, List, [], ◌∷◌, to_u32, high_u32}
use bumblebee.CTypes.Syntax.{CType, char, int, num, array, struct, member, end, ◌▸◌}
use bumblebee.CTypes.Layout.{size}
use bumblebee.Bpf.MapSpec.{MapSpec, hash, ringbuf}
use bumblebee.Bpf.RingBuf.{RingBuf}
use bumblebee.Bpf.Context.{Context, core_read}
use bumblebee.Kernel.Basic.{u32, u64, uapi_u32, uapi_u64}
use bumblebee.Kernel.Task.{task_struct}
use bumblebee.Kernel.Namespaces.{nsproxy, mnt_namespace}

abbrev pub task_comm_len : ℕ
task_comm_len = 16

abbrev pub max_entries : ℕ
max_entries = 10240

abbrev pub cap_event : CType
cap_event = struct (
    member "mntnsid" uapi_u64
    ▸ member "pid" uapi_u32
    ▸ member "cap" int
    ▸ member "tgid" uapi_u32
    ▸ member "uid" uapi_u32
    ▸ member "cap_opt" int
    ▸ member "task" (array char task_comm_len)
    ▸ end)

abbrev pub key_t : CType
key_t = struct (
    member "pid" uapi_u32
    ▸ member "tgid" uapi_u32
    ▸ member "user_stack_id" int
    ▸ member "kern_stack_id" int
    ▸ end)

-- The values of `struct cap_event`.
pub record CapEvent : Type 0 where
  pub mntnsid : ℕ
  pub pid : ℕ
  pub cap : ℕ
  pub tgid : ℕ
  pub uid : ℕ
  pub cap_opt : ℕ
  pub task : List ℕ

abbrev pub events : MapSpec
events = record {
  section = ".maps.print";
  typ = ringbuf;
  max_entries = 2 ^ 24;
  key = none;
  value = cap_event;
}

abbrev pub info : MapSpec
info = record {
  section = ".maps";
  typ = hash;
  max_entries = max_entries;
  key = some key_t;
  value = cap_event;
}

-- Declared by the sizes of its keys and values only.
abbrev pub mount_ns_set : MapSpec
mount_ns_set = record {
  section = ".maps";
  typ = hash;
  max_entries = 1024;
  key = some u64;
  value = u32;
}

-- `BPF_CORE_READ(task, nsproxy, mnt_ns, ns.inum)`, from pointer to pointer.
unfoldable pub mntns_id : Context → ℕ
mntns_id ctx =
    let proxy = core_read ctx ctx.task task_struct ("nsproxy" ∷ []) in
    let mnt_ns = core_read ctx proxy nsproxy ("mnt_ns" ∷ []) in
    core_read ctx mnt_ns mnt_namespace ("ns" ∷ "inum" ∷ [])

module _ (R : RingBuf CapEvent) where
  -- `cap` and `cap_opt` are the probed function's arguments.
  pub cap_capable : Context → ℕ → ℕ → R.Ring → R.Ring
  cap_capable ctx cap cap_opt s = elim (R.reserve s (size cap_event)) [
    | none ↦ s
    | some (event, ring) ↦ R.submit ring (record event {
      pid = high_u32 ctx.pid_tgid;
      tgid = to_u32 ctx.pid_tgid;
      cap = cap;
      uid = to_u32 ctx.uid_gid;
      mntnsid = mntns_id ctx;
      cap_opt = cap_opt;
      task = ctx.current_comm task_comm_len;
    })
  ]
