-- ===== src/Kernel/Task.antt =====
-- builder/vmlinux.h: the task, `struct task_struct`.
-- Each declaration is the C one of the same name, member by member (an anonymous one is "").
use bumblebee.CTypes.Syntax.{
  CType, Members, array, bits, char, end, int, long_int, long_long_unsigned_int, long_unsigned_int,
  member, ptr, short_int, short_unsigned_int, struct, union, unsigned_int, ◌▸◌,
}
use bumblebee.Kernel.Basic.{
  atomic_t, callback_head, gfp_t, hlist_node, kuid_t, list_head, page_frag, refcount_t, spinlock_t,
  u32, u64, uapi_u64,
}
use bumblebee.Kernel.Sched.{rb_node, sched_dl_entity, sched_entity, sched_rt_entity, uclamp_se}
use bumblebee.Kernel.Fpu.{thread_struct}
use bumblebee.Kernel.TaskParts.{
  bool, call_single_node, cpumask_t, hlist_head, kmap_ctrl, llist_head, mutex, nodemask_t, pid_t,
  plist_node, posix_cputimers, posix_cputimers_work, prev_cputime, raw_spinlock_t, rb_root_cached,
  rcu_special, restart_block, sched_info, seccomp, seqcount_spinlock_t, sigpending, sigset_t,
  size_t, syscall_user_dispatch, sysv_sem, sysv_shm, task_io_accounting, task_rss_stat, thread_info,
  tlbflush_unmap_batch, vmacache, wake_q_node,
}

abbrev pub task_tracing : Members
task_tracing =
    member "numa_migrate_retry" long_unsigned_int
    ▸ member "node_stamp" u64
    ▸ member "last_task_numa_placement" u64
    ▸ member "last_sum_exec_runtime" u64
    ▸ member "numa_work" callback_head
    ▸ member "numa_group" ptr
    ▸ member "numa_faults" ptr
    ▸ member "total_numa_faults" long_unsigned_int
    ▸ member "numa_faults_locality" (array long_unsigned_int 3)
    ▸ member "numa_pages_migrated" long_unsigned_int
    ▸ member "rseq" ptr
    ▸ member "rseq_sig" u32
    ▸ member "rseq_event_mask" long_unsigned_int
    ▸ member "tlb_ubc" tlbflush_unmap_batch
    ▸ member "" (union (member "rcu_users" refcount_t ▸ member "rcu" callback_head ▸ end))
    ▸ member "splice_pipe" ptr
    ▸ member "task_frag" page_frag
    ▸ member "delays" ptr
    ▸ member "nr_dirtied" int
    ▸ member "nr_dirtied_pause" int
    ▸ member "dirty_paused_when" long_unsigned_int
    ▸ member "timer_slack_ns" u64
    ▸ member "default_timer_slack_ns" u64
    ▸ member "curr_ret_stack" int
    ▸ member "curr_ret_depth" int
    ▸ member "ret_stack" ptr
    ▸ member "ftrace_timestamp" long_long_unsigned_int
    ▸ member "trace_overrun" atomic_t
    ▸ member "tracing_graph_pause" atomic_t
    ▸ member "trace" long_unsigned_int
    ▸ member "trace_recursion" long_unsigned_int
    ▸ member "memcg_in_oom" ptr
    ▸ member "memcg_oom_gfp_mask" gfp_t
    ▸ member "memcg_oom_order" int
    ▸ member "memcg_nr_pages_over_high" unsigned_int
    ▸ member "active_memcg" ptr
    ▸ member "throttle_queue" ptr
    ▸ member "utask" ptr
    ▸ member "sequential_io" unsigned_int
    ▸ member "sequential_io_avg" unsigned_int
    ▸ member "kmap_ctrl" kmap_ctrl
    ▸ member "pagefault_disabled" int
    ▸ member "oom_reaper_list" ptr
    ▸ member "stack_vm_area" ptr
    ▸ member "stack_refcount" refcount_t
    ▸ member "patch_state" int
    ▸ member "security" ptr
    ▸ member "bpf_storage" ptr
    ▸ member "mce_vaddr" ptr
    ▸ member "mce_kflags" uapi_u64
    ▸ member "mce_addr" u64
    ▸ bits "mce_ripv" 8 1
    ▸ bits "mce_whole_page" 8 1
    ▸ bits "__mce_reserved" 8 62
    ▸ member "mce_kill_me" callback_head
    ▸ member "kretprobe_instances" llist_head
    ▸ bits "" 8 64
    ▸ bits "" 8 64
    ▸ bits "" 8 64
    ▸ bits "" 8 64
    ▸ member "thread" thread_struct
    ▸ end

abbrev pub task_resources : Members
task_resources =
    member "signal" ptr
    ▸ member "sighand" ptr
    ▸ member "blocked" sigset_t
    ▸ member "real_blocked" sigset_t
    ▸ member "saved_sigmask" sigset_t
    ▸ member "pending" sigpending
    ▸ member "sas_ss_sp" long_unsigned_int
    ▸ member "sas_ss_size" size_t
    ▸ member "sas_ss_flags" unsigned_int
    ▸ member "task_works" ptr
    ▸ member "audit_context" ptr
    ▸ member "loginuid" kuid_t
    ▸ member "sessionid" unsigned_int
    ▸ member "seccomp" seccomp
    ▸ member "syscall_dispatch" syscall_user_dispatch
    ▸ member "parent_exec_id" u64
    ▸ member "self_exec_id" u64
    ▸ member "alloc_lock" spinlock_t
    ▸ member "pi_lock" raw_spinlock_t
    ▸ member "wake_q" wake_q_node
    ▸ member "pi_waiters" rb_root_cached
    ▸ member "pi_top_task" ptr
    ▸ member "pi_blocked_on" ptr
    ▸ member "journal_info" ptr
    ▸ member "bio_list" ptr
    ▸ member "plug" ptr
    ▸ member "reclaim_state" ptr
    ▸ member "backing_dev_info" ptr
    ▸ member "io_context" ptr
    ▸ member "capture_control" ptr
    ▸ member "ptrace_message" long_unsigned_int
    ▸ member "last_siginfo" ptr
    ▸ member "ioac" task_io_accounting
    ▸ member "psi_flags" unsigned_int
    ▸ member "acct_rss_mem1" u64
    ▸ member "acct_vm_mem1" u64
    ▸ member "acct_timexpd" u64
    ▸ member "mems_allowed" nodemask_t
    ▸ member "mems_allowed_seq" seqcount_spinlock_t
    ▸ member "cpuset_mem_spread_rotor" int
    ▸ member "cpuset_slab_spread_rotor" int
    ▸ member "cgroups" ptr
    ▸ member "cg_list" list_head
    ▸ member "closid" u32
    ▸ member "rmid" u32
    ▸ member "robust_list" ptr
    ▸ member "compat_robust_list" ptr
    ▸ member "pi_state_list" list_head
    ▸ member "pi_state_cache" ptr
    ▸ member "futex_exit_mutex" mutex
    ▸ member "futex_state" unsigned_int
    ▸ member "perf_event_ctxp" (array ptr 2)
    ▸ member "perf_event_mutex" mutex
    ▸ member "perf_event_list" list_head
    ▸ member "mempolicy" ptr
    ▸ member "il_prev" short_int
    ▸ member "pref_node_fork" short_int
    ▸ member "numa_scan_seq" int
    ▸ member "numa_scan_period" unsigned_int
    ▸ member "numa_scan_period_max" unsigned_int
    ▸ member "numa_preferred_nid" int
    ▸ task_tracing

abbrev pub task_relations : Members
task_relations =
    member "personality" unsigned_int
    ▸ bits "sched_reset_on_fork" 4 1
    ▸ bits "sched_contributes_to_load" 4 1
    ▸ bits "sched_migrated" 4 1
    ▸ bits "sched_psi_wake_requeue" 4 1
    ▸ bits "" 4 28
    ▸ bits "sched_remote_wakeup" 4 1
    ▸ bits "in_execve" 4 1
    ▸ bits "in_iowait" 4 1
    ▸ bits "restore_sigmask" 4 1
    ▸ bits "in_user_fault" 4 1
    ▸ bits "no_cgroup_migration" 4 1
    ▸ bits "frozen" 4 1
    ▸ bits "use_memdelay" 4 1
    ▸ bits "in_memstall" 4 1
    ▸ member "atomic_flags" long_unsigned_int
    ▸ member "restart_block" restart_block
    ▸ member "pid" pid_t
    ▸ member "tgid" pid_t
    ▸ member "stack_canary" long_unsigned_int
    ▸ member "real_parent" ptr
    ▸ member "parent" ptr
    ▸ member "children" list_head
    ▸ member "sibling" list_head
    ▸ member "group_leader" ptr
    ▸ member "ptraced" list_head
    ▸ member "ptrace_entry" list_head
    ▸ member "thread_pid" ptr
    ▸ member "pid_links" (array hlist_node 4)
    ▸ member "thread_group" list_head
    ▸ member "thread_node" list_head
    ▸ member "vfork_done" ptr
    ▸ member "set_child_tid" ptr
    ▸ member "clear_child_tid" ptr
    ▸ member "pf_io_worker" ptr
    ▸ member "utime" u64
    ▸ member "stime" u64
    ▸ member "gtime" u64
    ▸ member "prev_cputime" prev_cputime
    ▸ member "nvcsw" long_unsigned_int
    ▸ member "nivcsw" long_unsigned_int
    ▸ member "start_time" u64
    ▸ member "start_boottime" u64
    ▸ member "min_flt" long_unsigned_int
    ▸ member "maj_flt" long_unsigned_int
    ▸ member "posix_cputimers" posix_cputimers
    ▸ member "posix_cputimers_work" posix_cputimers_work
    ▸ member "ptracer_cred" ptr
    ▸ member "real_cred" ptr
    ▸ member "cred" ptr
    ▸ member "cached_requested_key" ptr
    ▸ member "comm" (array char 16)
    ▸ member "nameidata" ptr
    ▸ member "sysvsem" sysv_sem
    ▸ member "sysvshm" sysv_shm
    ▸ member "last_switch_count" long_unsigned_int
    ▸ member "last_switch_time" long_unsigned_int
    ▸ member "fs" ptr
    ▸ member "files" ptr
    ▸ member "io_uring" ptr
    ▸ member "nsproxy" ptr
    ▸ task_resources

abbrev pub task_scheduling : Members
task_scheduling =
    member "thread_info" thread_info
    ▸ member "state" long_int
    ▸ member "stack" ptr
    ▸ member "usage" refcount_t
    ▸ member "flags" unsigned_int
    ▸ member "ptrace" unsigned_int
    ▸ member "on_cpu" int
    ▸ member "wake_entry" call_single_node
    ▸ member "cpu" unsigned_int
    ▸ member "wakee_flips" unsigned_int
    ▸ member "wakee_flip_decay_ts" long_unsigned_int
    ▸ member "last_wakee" ptr
    ▸ member "recent_used_cpu" int
    ▸ member "wake_cpu" int
    ▸ member "on_rq" int
    ▸ member "prio" int
    ▸ member "static_prio" int
    ▸ member "normal_prio" int
    ▸ member "rt_priority" unsigned_int
    ▸ member "sched_class" ptr
    ▸ bits "" 8 64
    ▸ bits "" 8 64
    ▸ bits "" 8 64
    ▸ bits "" 8 64
    ▸ bits "" 8 64
    ▸ bits "" 8 64
    ▸ bits "" 8 64
    ▸ member "se" sched_entity
    ▸ member "rt" sched_rt_entity
    ▸ member "sched_task_group" ptr
    ▸ member "dl" sched_dl_entity
    ▸ member "uclamp_req" (array uclamp_se 2)
    ▸ member "uclamp" (array uclamp_se 2)
    ▸ member "preempt_notifiers" hlist_head
    ▸ member "btrace_seq" unsigned_int
    ▸ member "policy" unsigned_int
    ▸ member "nr_cpus_allowed" int
    ▸ member "cpus_ptr" ptr
    ▸ member "cpus_mask" cpumask_t
    ▸ member "migration_pending" ptr
    ▸ member "migration_disabled" short_unsigned_int
    ▸ member "migration_flags" short_unsigned_int
    ▸ member "trc_reader_nesting" int
    ▸ member "trc_ipi_to_cpu" int
    ▸ member "trc_reader_special" rcu_special
    ▸ member "trc_reader_checked" bool
    ▸ member "trc_holdout_list" list_head
    ▸ member "sched_info" sched_info
    ▸ member "tasks" list_head
    ▸ member "pushable_tasks" plist_node
    ▸ member "pushable_dl_tasks" rb_node
    ▸ member "mm" ptr
    ▸ member "active_mm" ptr
    ▸ member "vmacache" vmacache
    ▸ member "rss_stat" task_rss_stat
    ▸ member "exit_state" int
    ▸ member "exit_code" int
    ▸ member "exit_signal" int
    ▸ member "pdeath_signal" int
    ▸ member "jobctl" long_unsigned_int
    ▸ task_relations

abbrev pub task_struct : CType
task_struct = struct task_scheduling
