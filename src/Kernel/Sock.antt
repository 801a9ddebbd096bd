-- ===== src/Kernel/Sock.antt =====
-- builder/vmlinux.h: the socket, `struct sock`.
-- Each declaration is the C one of the same name, member by member (an anonymous one is "").
use bumblebee.CTypes.Syntax.{
  CType, array, bits, end, int, long_int, long_unsigned_int, member, ptr, short_unsigned_int,
  struct, union, unsigned_char, unsigned_int, ◌▸◌,
}
use bumblebee.Kernel.Basic.{
  addrpair, atomic64_t, atomic_t, be16, be32, callback_head, gfp_t, hlist_node, hlist_nulls_node,
  in6_addr, ktime_t, kuid_t, netdev_features_t, page_frag, portpair, possible_net_t, rb_root,
  refcount_t, rwlock_t, s32, spinlock_t, timer_list, u16, u32, u64, u8, uapi_u16, uapi_u32,
  wait_queue_head_t,
}

abbrev pub sock_common : CType
sock_common = struct (
    member "" (
      union (
        member "skc_addrpair" addrpair
        ▸ member "" (struct (member "skc_daddr" be32 ▸ member "skc_rcv_saddr" be32 ▸ end))
        ▸ end))
    ▸ member ""
        (union (member "skc_hash" unsigned_int ▸ member "skc_u16hashes" (array uapi_u16 2) ▸ end))
    ▸ member "" (
        union (
          member "skc_portpair" portpair
          ▸ member "" (struct (member "skc_dport" be16 ▸ member "skc_num" uapi_u16 ▸ end))
          ▸ end))
    ▸ member "skc_family" short_unsigned_int
    ▸ member "skc_state" unsigned_char
    ▸ bits "skc_reuse" 1 4
    ▸ bits "skc_reuseport" 1 1
    ▸ bits "skc_ipv6only" 1 1
    ▸ bits "skc_net_refcnt" 1 1
    ▸ member "skc_bound_dev_if" int
    ▸ member ""
        (union (member "skc_bind_node" hlist_node ▸ member "skc_portaddr_node" hlist_node ▸ end))
    ▸ member "skc_prot" ptr
    ▸ member "skc_net" possible_net_t
    ▸ member "skc_v6_daddr" in6_addr
    ▸ member "skc_v6_rcv_saddr" in6_addr
    ▸ member "skc_cookie" atomic64_t
    ▸ member "" (
        union (
          member "skc_flags" long_unsigned_int
          ▸ member "skc_listener" ptr
          ▸ member "skc_tw_dr" ptr
          ▸ end))
    ▸ member "skc_dontcopy_begin" (array int 0)
    ▸ member ""
        (union (member "skc_node" hlist_node ▸ member "skc_nulls_node" hlist_nulls_node ▸ end))
    ▸ member "skc_tx_queue_mapping" short_unsigned_int
    ▸ member "skc_rx_queue_mapping" short_unsigned_int
    ▸ member "" (
        union (
          member "skc_incoming_cpu" int
          ▸ member "skc_rcv_wnd" u32
          ▸ member "skc_tw_rcv_nxt" u32
          ▸ end))
    ▸ member "skc_refcnt" refcount_t
    ▸ member "skc_dontcopy_end" (array int 0)
    ▸ member "" (
        union (
          member "skc_rxhash" u32
          ▸ member "skc_window_clamp" u32
          ▸ member "skc_tw_snd_nxt" u32
          ▸ end))
    ▸ end)

abbrev pub socket_lock_t : CType
socket_lock_t =
    struct (member "slock" spinlock_t ▸ member "owned" int ▸ member "wq" wait_queue_head_t ▸ end)

abbrev pub sk_buff_head : CType
sk_buff_head = struct (
    member "next" ptr ▸ member "prev" ptr ▸ member "qlen" uapi_u32 ▸ member "lock" spinlock_t ▸ end)

abbrev pub sock_cgroup_data : CType
sock_cgroup_data = struct (
    member "" (
      union (
        member "" (
          struct (
            bits "is_data" 1 1
            ▸ bits "no_refcnt" 1 1
            ▸ bits "unused" 1 6
            ▸ member "padding" u8
            ▸ member "prioidx" u16
            ▸ member "classid" u32
            ▸ end))
        ▸ member "val" u64
        ▸ end))
    ▸ end)

abbrev pub sock : CType
sock = struct (
    member "__sk_common" sock_common
    ▸ member "sk_lock" socket_lock_t
    ▸ member "sk_drops" atomic_t
    ▸ member "sk_rcvlowat" int
    ▸ member "sk_error_queue" sk_buff_head
    ▸ member "sk_rx_skb_cache" ptr
    ▸ member "sk_receive_queue" sk_buff_head
    ▸ member "sk_backlog" (
        struct (
          member "rmem_alloc" atomic_t
          ▸ member "len" int
          ▸ member "head" ptr
          ▸ member "tail" ptr
          ▸ end))
    ▸ member "sk_forward_alloc" int
    ▸ member "sk_ll_usec" unsigned_int
    ▸ member "sk_napi_id" unsigned_int
    ▸ member "sk_rcvbuf" int
    ▸ member "sk_filter" ptr
    ▸ member "" (union (member "sk_wq" ptr ▸ member "sk_wq_raw" ptr ▸ end))
    ▸ member "sk_policy" (array ptr 2)
    ▸ member "sk_rx_dst" ptr
    ▸ member "sk_dst_cache" ptr
    ▸ member "sk_omem_alloc" atomic_t
    ▸ member "sk_sndbuf" int
    ▸ member "sk_wmem_queued" int
    ▸ member "sk_wmem_alloc" refcount_t
    ▸ member "sk_tsq_flags" long_unsigned_int
    ▸ member "" (union (member "sk_send_head" ptr ▸ member "tcp_rtx_queue" rb_root ▸ end))
    ▸ member "sk_tx_skb_cache" ptr
    ▸ member "sk_write_queue" sk_buff_head
    ▸ member "sk_peek_off" s32
    ▸ member "sk_write_pending" int
    ▸ member "sk_dst_pending_confirm" uapi_u32
    ▸ member "sk_pacing_status" u32
    ▸ member "sk_sndtimeo" long_int
    ▸ member "sk_timer" timer_list
    ▸ member "sk_priority" uapi_u32
    ▸ member "sk_mark" uapi_u32
    ▸ member "sk_pacing_rate" long_unsigned_int
    ▸ member "sk_max_pacing_rate" long_unsigned_int
    ▸ member "sk_frag" page_frag
    ▸ member "sk_route_caps" netdev_features_t
    ▸ member "sk_route_nocaps" netdev_features_t
    ▸ member "sk_route_forced_caps" netdev_features_t
    ▸ member "sk_gso_type" int
    ▸ member "sk_gso_max_size" unsigned_int
    ▸ member "sk_allocation" gfp_t
    ▸ member "sk_txhash" uapi_u32
    ▸ bits "sk_padding" 1 1
    ▸ bits "sk_kern_sock" 1 1
    ▸ bits "sk_no_check_tx" 1 1
    ▸ bits "sk_no_check_rx" 1 1
    ▸ bits "sk_userlocks" 1 4
    ▸ member "sk_pacing_shift" u8
    ▸ member "sk_type" u16
    ▸ member "sk_protocol" u16
    ▸ member "sk_gso_max_segs" u16
    ▸ member "sk_lingertime" long_unsigned_int
    ▸ member "sk_prot_creator" ptr
    ▸ member "sk_callback_lock" rwlock_t
    ▸ member "sk_err" int
    ▸ member "sk_err_soft" int
    ▸ member "sk_ack_backlog" u32
    ▸ member "sk_max_ack_backlog" u32
    ▸ member "sk_uid" kuid_t
    ▸ member "sk_prefer_busy_poll" u8
    ▸ member "sk_busy_poll_budget" u16
    ▸ member "sk_peer_pid" ptr
    ▸ member "sk_peer_cred" ptr
    ▸ member "sk_rcvtimeo" long_int
    ▸ member "sk_stamp" ktime_t
    ▸ member "sk_tsflags" u16
    ▸ member "sk_shutdown" u8
    ▸ member "sk_tskey" u32
    ▸ member "sk_zckey" atomic_t
    ▸ member "sk_clockid" u8
    ▸ bits "sk_txtime_deadline_mode" 1 1
    ▸ bits "sk_txtime_report_errors" 1 1
    ▸ bits "sk_txtime_unused" 1 6
    ▸ member "sk_socket" ptr
    ▸ member "sk_user_data" ptr
    ▸ member "sk_security" ptr
    ▸ member "sk_cgrp_data" sock_cgroup_data
    ▸ member "sk_memcg" ptr
    ▸ member "sk_state_change" ptr
    ▸ member "sk_data_ready" ptr
    ▸ member "sk_write_space" ptr
    ▸ member "sk_error_report" ptr
    ▸ member "sk_backlog_rcv" ptr
    ▸ member "sk_validate_xmit_skb" ptr
    ▸ member "sk_destruct" ptr
    ▸ member "sk_reuseport_cb" ptr
    ▸ member "sk_bpf_storage" ptr
    ▸ member "sk_rcu" callback_head
    ▸ end)
