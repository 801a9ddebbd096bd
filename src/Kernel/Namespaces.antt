-- ===== src/Kernel/Namespaces.antt =====
-- builder/vmlinux.h: what the probes reach from a task, and the description of an out-of-memory kill.
-- Each declaration is the C one of the same name, member by member (an anonymous one is "").
use bumblebee.CTypes.Syntax.{
  CType, end, enum, int, long_int, long_unsigned_int, member, ptr, struct, unsigned_int, ◌▸◌,
}
use bumblebee.Kernel.Basic.{
  atomic_t, gfp_t, list_head, refcount_t, spinlock_t, u64, wait_queue_head_t,
}
use bumblebee.Kernel.TaskParts.{atomic_long_t}

abbrev pub nsproxy : CType
nsproxy = struct (
    member "count" atomic_t
    ▸ member "uts_ns" ptr
    ▸ member "ipc_ns" ptr
    ▸ member "mnt_ns" ptr
    ▸ member "pid_ns_for_children" ptr
    ▸ member "net_ns" ptr
    ▸ member "time_ns" ptr
    ▸ member "time_ns_for_children" ptr
    ▸ member "cgroup_ns" ptr
    ▸ end)

abbrev pub ns_common : CType
ns_common = struct (
    member "stashed" atomic_long_t
    ▸ member "ops" ptr
    ▸ member "inum" unsigned_int
    ▸ member "count" refcount_t
    ▸ end)

abbrev pub mnt_namespace : CType
mnt_namespace = struct (
    member "ns" ns_common
    ▸ member "root" ptr
    ▸ member "list" list_head
    ▸ member "ns_lock" spinlock_t
    ▸ member "user_ns" ptr
    ▸ member "ucounts" ptr
    ▸ member "seq" u64
    ▸ member "poll" wait_queue_head_t
    ▸ member "event" u64
    ▸ member "mounts" unsigned_int
    ▸ member "pending_mounts" unsigned_int
    ▸ end)

abbrev pub oom_constraint : CType
oom_constraint = enum

abbrev pub oom_control : CType
oom_control = struct (
    member "zonelist" ptr
    ▸ member "nodemask" ptr
    ▸ member "memcg" ptr
    ▸ member "gfp_mask" gfp_t
    ▸ member "order" int
    ▸ member "totalpages" long_unsigned_int
    ▸ member "chosen" ptr
    ▸ member "chosen_points" long_int
    ▸ member "constraint" oom_constraint
    ▸ end)
