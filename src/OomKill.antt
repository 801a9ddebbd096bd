-- ===== src/OomKill.antt =====
-- examples/oomkill/oomkill.c: out-of-memory kills, as events. The ring buffer is a parameter. The
-- probe returns 0.
pub mod Laws
mod Tests
use bumblebee.Common.{ℕ, ◌^◌, Option, none, some, List, [], ◌∷◌, to_u32, high_u32}
use bumblebee.CTypes.Syntax.{CType, char, array, struct, member, end, ◌▸◌}
use bumblebee.CTypes.Layout.{size}
use bumblebee.Bpf.MapSpec.{MapSpec, ringbuf}
use bumblebee.Bpf.RingBuf.{RingBuf}
use bumblebee.Bpf.Context.{Context, core_read, core_read_bytes}
use bumblebee.Kernel.Basic.{uapi_u32, uapi_u64}
use bumblebee.Kernel.Task.{task_struct}
use bumblebee.Kernel.Namespaces.{oom_control}

abbrev pub task_comm_len : ℕ
task_comm_len = 16

abbrev pub data_t : CType
data_t = struct (
    member "fpid" uapi_u32
    ▸ member "tpid" uapi_u32
    ▸ member "pages" uapi_u64
    ▸ member "fcomm" (array char task_comm_len)
    ▸ member "tcomm" (array char task_comm_len)
    ▸ end)

-- The values of `struct data_t`.
pub record Kill : Type 0 where
  pub fpid : ℕ
  pub tpid : ℕ
  pub pages : ℕ
  pub fcomm : List ℕ
  pub tcomm : List ℕ

abbrev pub oomkills : MapSpec
oomkills = record {
  section = ".maps.print";
  typ = ringbuf;
  max_entries = 2 ^ 24;
  key = none;
  value = data_t;
}

-- `BPF_CORE_READ(oc, totalpages)` and `BPF_CORE_READ(oc, chosen, comm)`: the latter's bytes are then
-- copied to the event from the program's own stack.
unfoldable pub total_pages : Context → ℕ → ℕ
total_pages ctx oc = core_read ctx oc oom_control ("totalpages" ∷ [])

unfoldable pub chosen_comm : Context → ℕ → List ℕ
chosen_comm ctx oc =
    core_read_bytes ctx (core_read ctx oc oom_control ("chosen" ∷ [])) task_struct ("comm" ∷ [])

module _ (R : RingBuf Kill) where
  pub oom_kill_process : Context → ℕ → R.Ring → R.Ring
  oom_kill_process ctx oc s = elim (R.reserve s (size data_t)) [
    | none ↦ s
    | some (e, ring) ↦ R.submit ring (record e {
      tpid = to_u32 ctx.pid_tgid;
      fcomm = ctx.current_comm task_comm_len;
      fpid = high_u32 ctx.pid_tgid;
      pages = total_pages ctx oc;
      tcomm = chosen_comm ctx oc;
    })
  ]
