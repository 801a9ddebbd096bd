-- ===== src/Kernel/TaskParts.antt =====
-- builder/vmlinux.h: the other structures inside a task.
-- Each declaration is the C one of the same name, member by member (an anonymous one is "").
use bumblebee.CTypes.Syntax.{
  CType, array, c_bool, end, enum, int, long_long_unsigned_int, long_unsigned_int, member, ptr,
  struct, union, unsigned_int, ◌▸◌,
}
use bumblebee.Kernel.Basic.{
  atomic64_t, atomic_t, callback_head, list_head, raw_spinlock, rb_root, spinlock_t, u16, u32, u64,
  u8,
}

abbrev pub thread_info : CType
thread_info = struct (
    member "flags" long_unsigned_int
    ▸ member "syscall_work" long_unsigned_int
    ▸ member "status" u32
    ▸ end)

abbrev pub llist_node : CType
llist_node = struct (member "next" ptr ▸ end)

abbrev pub call_single_node : CType
call_single_node = struct (
    member "llist" llist_node
    ▸ member "" (union (member "u_flags" unsigned_int ▸ member "a_flags" atomic_t ▸ end))
    ▸ member "src" u16
    ▸ member "dst" u16
    ▸ end)

abbrev pub hlist_head : CType
hlist_head = struct (member "first" ptr ▸ end)

abbrev pub cpumask : CType
cpumask = struct (member "bits" (array long_unsigned_int 128) ▸ end)

abbrev pub cpumask_t : CType
cpumask_t = cpumask

abbrev pub rcu_special : CType
rcu_special = union (
    member "b" (
      struct (
        member "blocked" u8
        ▸ member "need_qs" u8
        ▸ member "exp_hint" u8
        ▸ member "need_mb" u8
        ▸ end))
    ▸ member "s" u32
    ▸ end)

abbrev pub bool : CType
bool = c_bool

abbrev pub sched_info : CType
sched_info = struct (
    member "pcount" long_unsigned_int
    ▸ member "run_delay" long_long_unsigned_int
    ▸ member "last_arrival" long_long_unsigned_int
    ▸ member "last_queued" long_long_unsigned_int
    ▸ end)

abbrev pub plist_node : CType
plist_node =
    struct (member "prio" int ▸ member "prio_list" list_head ▸ member "node_list" list_head ▸ end)

abbrev pub vmacache : CType
vmacache = struct (member "seqnum" u64 ▸ member "vmas" (array ptr 4) ▸ end)

abbrev pub task_rss_stat : CType
task_rss_stat = struct (member "events" int ▸ member "count" (array int 4) ▸ end)

abbrev pub kernel_clockid_t : CType
kernel_clockid_t = int

abbrev pub clockid_t : CType
clockid_t = kernel_clockid_t

abbrev pub timespec_type : CType
timespec_type = enum

abbrev pub restart_block : CType
restart_block = struct (
    member "arch_data" long_unsigned_int
    ▸ member "fn" ptr
    ▸ member "" (
        union (
          member "futex" (
            struct (
              member "uaddr" ptr
              ▸ member "val" u32
              ▸ member "flags" u32
              ▸ member "bitset" u32
              ▸ member "time" u64
              ▸ member "uaddr2" ptr
              ▸ end))
          ▸ member "nanosleep" (
              struct (
                member "clockid" clockid_t
                ▸ member "type" timespec_type
                ▸ member "" (union (member "rmtp" ptr ▸ member "compat_rmtp" ptr ▸ end))
                ▸ member "expires" u64
                ▸ end))
          ▸ member "poll" (
              struct (
                member "ufds" ptr
                ▸ member "nfds" int
                ▸ member "has_timeout" int
                ▸ member "tv_sec" long_unsigned_int
                ▸ member "tv_nsec" long_unsigned_int
                ▸ end))
          ▸ end))
    ▸ end)

abbrev pub kernel_pid_t : CType
kernel_pid_t = int

abbrev pub pid_t : CType
pid_t = kernel_pid_t

abbrev pub raw_spinlock_t : CType
raw_spinlock_t = raw_spinlock

abbrev pub prev_cputime : CType
prev_cputime = struct (member "utime" u64 ▸ member "stime" u64 ▸ member "lock" raw_spinlock_t ▸ end)

abbrev pub rb_root_cached : CType
rb_root_cached = struct (member "rb_root" rb_root ▸ member "rb_leftmost" ptr ▸ end)

abbrev pub timerqueue_head : CType
timerqueue_head = struct (member "rb_root" rb_root_cached ▸ end)

abbrev pub posix_cputimer_base : CType
posix_cputimer_base = struct (member "nextevt" u64 ▸ member "tqhead" timerqueue_head ▸ end)

abbrev pub posix_cputimers : CType
posix_cputimers = struct (
    member "bases" (array posix_cputimer_base 3)
    ▸ member "timers_active" unsigned_int
    ▸ member "expiry_active" unsigned_int
    ▸ end)

abbrev pub posix_cputimers_work : CType
posix_cputimers_work = struct (member "work" callback_head ▸ member "scheduled" unsigned_int ▸ end)

abbrev pub sysv_sem : CType
sysv_sem = struct (member "undo_list" ptr ▸ end)

abbrev pub sysv_shm : CType
sysv_shm = struct (member "shm_clist" list_head ▸ end)

abbrev pub sigset_t : CType
sigset_t = struct (member "sig" (array long_unsigned_int 1) ▸ end)

abbrev pub sigpending : CType
sigpending = struct (member "list" list_head ▸ member "signal" sigset_t ▸ end)

abbrev pub kernel_ulong_t : CType
kernel_ulong_t = long_unsigned_int

abbrev pub kernel_size_t : CType
kernel_size_t = kernel_ulong_t

abbrev pub size_t : CType
size_t = kernel_size_t

abbrev pub seccomp : CType
seccomp = struct (member "mode" int ▸ member "filter_count" atomic_t ▸ member "filter" ptr ▸ end)

abbrev pub syscall_user_dispatch : CType
syscall_user_dispatch = struct (
    member "selector" ptr
    ▸ member "offset" long_unsigned_int
    ▸ member "len" long_unsigned_int
    ▸ member "on_dispatch" bool
    ▸ end)

abbrev pub wake_q_node : CType
wake_q_node = struct (member "next" ptr ▸ end)

abbrev pub task_io_accounting : CType
task_io_accounting = struct (
    member "rchar" u64
    ▸ member "wchar" u64
    ▸ member "syscr" u64
    ▸ member "syscw" u64
    ▸ member "read_bytes" u64
    ▸ member "write_bytes" u64
    ▸ member "cancelled_write_bytes" u64
    ▸ end)

abbrev pub nodemask_t : CType
nodemask_t = struct (member "bits" (array long_unsigned_int 16) ▸ end)

abbrev pub seqcount : CType
seqcount = struct (member "sequence" unsigned_int ▸ end)

abbrev pub seqcount_t : CType
seqcount_t = seqcount

abbrev pub seqcount_spinlock : CType
seqcount_spinlock = struct (member "seqcount" seqcount_t ▸ end)

abbrev pub seqcount_spinlock_t : CType
seqcount_spinlock_t = seqcount_spinlock

abbrev pub atomic_long_t : CType
atomic_long_t = atomic64_t

abbrev pub optimistic_spin_queue : CType
optimistic_spin_queue = struct (member "tail" atomic_t ▸ end)

abbrev pub mutex : CType
mutex = struct (
    member "owner" atomic_long_t
    ▸ member "wait_lock" spinlock_t
    ▸ member "osq" optimistic_spin_queue
    ▸ member "wait_list" list_head
    ▸ end)

abbrev pub arch_tlbflush_unmap_batch : CType
arch_tlbflush_unmap_batch = struct (member "cpumask" cpumask ▸ end)

abbrev pub tlbflush_unmap_batch : CType
tlbflush_unmap_batch = struct (
    member "arch" arch_tlbflush_unmap_batch
    ▸ member "flush_required" bool
    ▸ member "writable" bool
    ▸ end)

abbrev pub kmap_ctrl : CType
kmap_ctrl = struct (end)

abbrev pub llist_head : CType
llist_head = struct (member "first" ptr ▸ end)
