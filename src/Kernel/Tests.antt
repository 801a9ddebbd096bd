-- ===== src/Kernel/Tests.antt =====
-- Runs of the layout on the kernel's types: the sizes and places that a C compiler gives them.
use bumblebee.Common.{ℕ, ◌*◌, ◌≡◌, refl, String, none, some, List, [], ◌∷◌}
use bumblebee.CTypes.Syntax.{CType}
use bumblebee.CTypes.Layout.{size}
use bumblebee.CTypes.Access.{locate}
use bumblebee.Kernel.Sock.{sock_common, sock}
use bumblebee.Kernel.Task.{task_struct}
use bumblebee.Kernel.Namespaces.{nsproxy, mnt_namespace, oom_control}
use bumblebee.Kernel.Trace.{trace_event_raw_sys_enter, trace_event_raw_sys_exit}

-- In bits; 0 for a path that the type does not have.
abbrev bit_offset : List String → CType → ℕ
bit_offset path t = elim (locate path t 0) [ none ↦ 0 | some q ↦ q.at_bit ]

sizes : size sock_common ∷ size sock ∷ size task_struct ∷ [] ≡ 136 ∷ 760 ∷ 9472 ∷ []
unfolding size
sizes = refl

socket_offsets :
    bit_offset ("__sk_common" ∷ "skc_daddr" ∷ []) sock
      ∷ bit_offset ("__sk_common" ∷ "skc_rcv_saddr" ∷ []) sock
      ∷ bit_offset ("__sk_common" ∷ "skc_family" ∷ []) sock
      ∷ bit_offset ("__sk_common" ∷ "skc_state" ∷ []) sock
      ∷ []
    ≡ 0 ∷ 4 * 8 ∷ 16 * 8 ∷ 18 * 8 ∷ []
unfolding locate
socket_offsets = refl

task_offsets :
    bit_offset ("exit_code" ∷ []) task_struct
      ∷ bit_offset ("tgid" ∷ []) task_struct
      ∷ bit_offset ("real_parent" ∷ []) task_struct
      ∷ bit_offset ("start_time" ∷ []) task_struct
      ∷ bit_offset ("comm" ∷ []) task_struct
      ∷ bit_offset ("nsproxy" ∷ []) task_struct
      ∷ []
    ≡ 2232 * 8 ∷ 2340 * 8 ∷ 2352 * 8 ∷ 2640 * 8 ∷ 2808 * 8 ∷ 2896 * 8 ∷ []
unfolding locate
task_offsets = refl

other_offsets :
    bit_offset ("mnt_ns" ∷ []) nsproxy
      ∷ bit_offset ("ns" ∷ "inum" ∷ []) mnt_namespace
      ∷ bit_offset ("totalpages" ∷ []) oom_control
      ∷ bit_offset ("chosen" ∷ []) oom_control
      ∷ bit_offset ("args" ∷ []) trace_event_raw_sys_enter
      ∷ bit_offset ("ret" ∷ []) trace_event_raw_sys_exit
      ∷ []
    ≡ 24 * 8 ∷ 16 * 8 ∷ 32 * 8 ∷ 40 * 8 ∷ 16 * 8 ∷ 16 * 8 ∷ []
unfolding locate
other_offsets = refl

-- Bit-fields have no address, and a missing member has no place.
no_place :
    (locate ("__sk_common" ∷ "skc_reuse" ∷ []) sock 0 ≡ none)
    × (locate ("__sk_common" ∷ "daddr" ∷ []) sock 0 ≡ none)
unfolding locate
no_place = (refl, refl)
