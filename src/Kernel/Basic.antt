-- ===== src/Kernel/Basic.antt =====
-- builder/vmlinux.h: integer types, counters, lists, trees and locks.
-- Each declaration is the C one of the same name, member by member (an anonymous one is "").
use bumblebee.CTypes.Syntax.{
  CType, array, end, int, long_long_int, long_long_unsigned_int, long_unsigned_int, member, ptr,
  short_unsigned_int, struct, union, unsigned_char, unsigned_int, ◌▸◌,
}

abbrev pub uapi_u64 : CType
uapi_u64 = long_long_unsigned_int

abbrev pub addrpair : CType
addrpair = uapi_u64

abbrev pub uapi_u32 : CType
uapi_u32 = unsigned_int

abbrev pub be32 : CType
be32 = uapi_u32

abbrev pub uapi_u16 : CType
uapi_u16 = short_unsigned_int

abbrev pub portpair : CType
portpair = uapi_u32

abbrev pub be16 : CType
be16 = uapi_u16

abbrev pub hlist_node : CType
hlist_node = struct (member "next" ptr ▸ member "pprev" ptr ▸ end)

abbrev pub possible_net_t : CType
possible_net_t = struct (member "net" ptr ▸ end)

abbrev pub uapi_u8 : CType
uapi_u8 = unsigned_char

abbrev pub in6_addr : CType
in6_addr = struct (
    member "in6_u" (
      union (
        member "u6_addr8" (array uapi_u8 16)
        ▸ member "u6_addr16" (array be16 8)
        ▸ member "u6_addr32" (array be32 4)
        ▸ end))
    ▸ end)

abbrev pub uapi_s64 : CType
uapi_s64 = long_long_int

abbrev pub s64 : CType
s64 = uapi_s64

abbrev pub atomic64_t : CType
atomic64_t = struct (member "counter" s64 ▸ end)

abbrev pub hlist_nulls_node : CType
hlist_nulls_node = struct (member "next" ptr ▸ member "pprev" ptr ▸ end)

abbrev pub u32 : CType
u32 = uapi_u32

abbrev pub atomic_t : CType
atomic_t = struct (member "counter" int ▸ end)

abbrev pub refcount_struct : CType
refcount_struct = struct (member "refs" atomic_t ▸ end)

abbrev pub refcount_t : CType
refcount_t = refcount_struct

abbrev pub u8 : CType
u8 = uapi_u8

abbrev pub u16 : CType
u16 = uapi_u16

abbrev pub qspinlock : CType
qspinlock = struct (
    member "" (
      union (
        member "val" atomic_t
        ▸ member "" (struct (member "locked" u8 ▸ member "pending" u8 ▸ end))
        ▸ member "" (struct (member "locked_pending" u16 ▸ member "tail" u16 ▸ end))
        ▸ end))
    ▸ end)

abbrev pub arch_spinlock_t : CType
arch_spinlock_t = qspinlock

abbrev pub raw_spinlock : CType
raw_spinlock = struct (member "raw_lock" arch_spinlock_t ▸ end)

abbrev pub spinlock : CType
spinlock = struct (member "" (union (member "rlock" raw_spinlock ▸ end)) ▸ end)

abbrev pub spinlock_t : CType
spinlock_t = spinlock

abbrev pub list_head : CType
list_head = struct (member "next" ptr ▸ member "prev" ptr ▸ end)

abbrev pub wait_queue_head : CType
wait_queue_head = struct (member "lock" spinlock_t ▸ member "head" list_head ▸ end)

abbrev pub wait_queue_head_t : CType
wait_queue_head_t = wait_queue_head

abbrev pub rb_root : CType
rb_root = struct (member "rb_node" ptr ▸ end)

abbrev pub s32 : CType
s32 = int

abbrev pub timer_list : CType
timer_list = struct (
    member "entry" hlist_node
    ▸ member "expires" long_unsigned_int
    ▸ member "function" ptr
    ▸ member "flags" u32
    ▸ end)

abbrev pub page_frag : CType
page_frag = struct (member "page" ptr ▸ member "offset" uapi_u32 ▸ member "size" uapi_u32 ▸ end)

abbrev pub u64 : CType
u64 = uapi_u64

abbrev pub netdev_features_t : CType
netdev_features_t = u64

abbrev pub gfp_t : CType
gfp_t = unsigned_int

abbrev pub qrwlock : CType
qrwlock = struct (
    member "" (
      union (
        member "cnts" atomic_t
        ▸ member "" (struct (member "wlocked" u8 ▸ member "__lstate" (array u8 3) ▸ end))
        ▸ end))
    ▸ member "wait_lock" arch_spinlock_t
    ▸ end)

abbrev pub arch_rwlock_t : CType
arch_rwlock_t = qrwlock

abbrev pub rwlock_t : CType
rwlock_t = struct (member "raw_lock" arch_rwlock_t ▸ end)

abbrev pub kernel_uid32_t : CType
kernel_uid32_t = unsigned_int

abbrev pub uid_t : CType
uid_t = kernel_uid32_t

abbrev pub kuid_t : CType
kuid_t = struct (member "val" uid_t ▸ end)

abbrev pub ktime_t : CType
ktime_t = s64

abbrev pub callback_head : CType
callback_head = struct (member "next" ptr ▸ member "func" ptr ▸ end)
