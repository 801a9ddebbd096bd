-- ===== src/Kernel/Sched.antt =====
-- builder/vmlinux.h: what the scheduler keeps in a task.
-- Each declaration is the C one of the same name, member by member (an anonymous one is "").
use bumblebee.CTypes.Syntax.{
  CType, bits, end, int, long_unsigned_int, member, ptr, short_unsigned_int, struct, unsigned_int,
  ◌▸◌,
}
use bumblebee.Kernel.Basic.{ktime_t, list_head, s64, u32, u64, u8}

abbrev pub load_weight : CType
load_weight = struct (member "weight" long_unsigned_int ▸ member "inv_weight" u32 ▸ end)

abbrev pub rb_node : CType
rb_node = struct (
    member "__rb_parent_color" long_unsigned_int
    ▸ member "rb_right" ptr
    ▸ member "rb_left" ptr
    ▸ end)

abbrev pub sched_statistics : CType
sched_statistics = struct (
    member "wait_start" u64
    ▸ member "wait_max" u64
    ▸ member "wait_count" u64
    ▸ member "wait_sum" u64
    ▸ member "iowait_count" u64
    ▸ member "iowait_sum" u64
    ▸ member "sleep_start" u64
    ▸ member "sleep_max" u64
    ▸ member "sum_sleep_runtime" s64
    ▸ member "block_start" u64
    ▸ member "block_max" u64
    ▸ member "exec_max" u64
    ▸ member "slice_max" u64
    ▸ member "nr_migrations_cold" u64
    ▸ member "nr_failed_migrations_affine" u64
    ▸ member "nr_failed_migrations_running" u64
    ▸ member "nr_failed_migrations_hot" u64
    ▸ member "nr_forced_migrations" u64
    ▸ member "nr_wakeups" u64
    ▸ member "nr_wakeups_sync" u64
    ▸ member "nr_wakeups_migrate" u64
    ▸ member "nr_wakeups_local" u64
    ▸ member "nr_wakeups_remote" u64
    ▸ member "nr_wakeups_affine" u64
    ▸ member "nr_wakeups_affine_attempts" u64
    ▸ member "nr_wakeups_passive" u64
    ▸ member "nr_wakeups_idle" u64
    ▸ end)

abbrev pub util_est : CType
util_est = struct (member "enqueued" unsigned_int ▸ member "ewma" unsigned_int ▸ end)

abbrev pub sched_avg : CType
sched_avg = struct (
    member "last_update_time" u64
    ▸ member "load_sum" u64
    ▸ member "runnable_sum" u64
    ▸ member "util_sum" u32
    ▸ member "period_contrib" u32
    ▸ member "load_avg" long_unsigned_int
    ▸ member "runnable_avg" long_unsigned_int
    ▸ member "util_avg" long_unsigned_int
    ▸ member "util_est" util_est
    ▸ end)

abbrev pub sched_entity : CType
sched_entity = struct (
    member "load" load_weight
    ▸ member "run_node" rb_node
    ▸ member "group_node" list_head
    ▸ member "on_rq" unsigned_int
    ▸ member "exec_start" u64
    ▸ member "sum_exec_runtime" u64
    ▸ member "vruntime" u64
    ▸ member "prev_sum_exec_runtime" u64
    ▸ member "nr_migrations" u64
    ▸ member "statistics" sched_statistics
    ▸ member "depth" int
    ▸ member "parent" ptr
    ▸ member "cfs_rq" ptr
    ▸ member "my_q" ptr
    ▸ member "runnable_weight" long_unsigned_int
    ▸ bits "" 8 64
    ▸ bits "" 8 64
    ▸ bits "" 8 64
    ▸ member "avg" sched_avg
    ▸ end)

abbrev pub sched_rt_entity : CType
sched_rt_entity = struct (
    member "run_list" list_head
    ▸ member "timeout" long_unsigned_int
    ▸ member "watchdog_stamp" long_unsigned_int
    ▸ member "time_slice" unsigned_int
    ▸ member "on_rq" short_unsigned_int
    ▸ member "on_list" short_unsigned_int
    ▸ member "back" ptr
    ▸ end)

abbrev pub timerqueue_node : CType
timerqueue_node = struct (member "node" rb_node ▸ member "expires" ktime_t ▸ end)

abbrev pub hrtimer : CType
hrtimer = struct (
    member "node" timerqueue_node
    ▸ member "_softexpires" ktime_t
    ▸ member "function" ptr
    ▸ member "base" ptr
    ▸ member "state" u8
    ▸ member "is_rel" u8
    ▸ member "is_soft" u8
    ▸ member "is_hard" u8
    ▸ end)

abbrev pub sched_dl_entity : CType
sched_dl_entity = struct (
    member "rb_node" rb_node
    ▸ member "dl_runtime" u64
    ▸ member "dl_deadline" u64
    ▸ member "dl_period" u64
    ▸ member "dl_bw" u64
    ▸ member "dl_density" u64
    ▸ member "runtime" s64
    ▸ member "deadline" u64
    ▸ member "flags" unsigned_int
    ▸ bits "dl_throttled" 4 1
    ▸ bits "dl_yielded" 4 1
    ▸ bits "dl_non_contending" 4 1
    ▸ bits "dl_overrun" 4 1
    ▸ member "dl_timer" hrtimer
    ▸ member "inactive_timer" hrtimer
    ▸ member "pi_se" ptr
    ▸ end)

abbrev pub uclamp_se : CType
uclamp_se =
    struct
      (bits "value" 4 11 ▸ bits "bucket_id" 4 3 ▸ bits "active" 4 1 ▸ bits "user_defined" 4 1 ▸ end)
