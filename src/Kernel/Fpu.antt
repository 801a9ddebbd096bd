-- ===== src/Kernel/Fpu.antt =====
-- builder/vmlinux.h: the saved registers of a task.
-- Each declaration is the C one of the same name, member by member (an anonymous one is "").
use bumblebee.CTypes.Syntax.{
  CType, array, bits, end, long_unsigned_int, member, ptr, short_unsigned_int, struct, union,
  unsigned_int, ◌▸◌,
}
use bumblebee.Kernel.Basic.{u16, u32, u64, u8}

abbrev pub desc_struct : CType
desc_struct = struct (
    member "limit0" u16
    ▸ member "base0" u16
    ▸ bits "base1" 2 8
    ▸ bits "type" 2 4
    ▸ bits "s" 2 1
    ▸ bits "dpl" 2 2
    ▸ bits "p" 2 1
    ▸ bits "limit1" 2 4
    ▸ bits "avl" 2 1
    ▸ bits "l" 2 1
    ▸ bits "d" 2 1
    ▸ bits "g" 2 1
    ▸ bits "base2" 2 8
    ▸ end)

abbrev pub fregs_state : CType
fregs_state = struct (
    member "cwd" u32
    ▸ member "swd" u32
    ▸ member "twd" u32
    ▸ member "fip" u32
    ▸ member "fcs" u32
    ▸ member "foo" u32
    ▸ member "fos" u32
    ▸ member "st_space" (array u32 20)
    ▸ member "status" u32
    ▸ end)

abbrev pub fxregs_state : CType
fxregs_state = struct (
    member "cwd" u16
    ▸ member "swd" u16
    ▸ member "twd" u16
    ▸ member "fop" u16
    ▸ member "" (
        union (
          member "" (struct (member "rip" u64 ▸ member "rdp" u64 ▸ end))
          ▸ member "" (
              struct
                (member "fip" u32 ▸ member "fcs" u32 ▸ member "foo" u32 ▸ member "fos" u32 ▸ end))
          ▸ end))
    ▸ member "mxcsr" u32
    ▸ member "mxcsr_mask" u32
    ▸ member "st_space" (array u32 32)
    ▸ member "xmm_space" (array u32 64)
    ▸ member "padding" (array u32 12)
    ▸ member ""
        (union (member "padding1" (array u32 12) ▸ member "sw_reserved" (array u32 12) ▸ end))
    ▸ end)

abbrev pub swregs_state : CType
swregs_state = struct (
    member "cwd" u32
    ▸ member "swd" u32
    ▸ member "twd" u32
    ▸ member "fip" u32
    ▸ member "fcs" u32
    ▸ member "foo" u32
    ▸ member "fos" u32
    ▸ member "st_space" (array u32 20)
    ▸ member "ftop" u8
    ▸ member "changed" u8
    ▸ member "lookahead" u8
    ▸ member "no_update" u8
    ▸ member "rm" u8
    ▸ member "alimit" u8
    ▸ member "info" ptr
    ▸ member "entry_eip" u32
    ▸ end)

abbrev pub xstate_header : CType
xstate_header =
    struct (member "xfeatures" u64 ▸ member "xcomp_bv" u64 ▸ member "reserved" (array u64 6) ▸ end)

abbrev pub xregs_state : CType
xregs_state = struct (
    member "i387" fxregs_state
    ▸ member "header" xstate_header
    ▸ member "extended_state_area" (array u8 0)
    ▸ end)

abbrev pub fpregs_state : CType
fpregs_state = union (
    member "fsave" fregs_state
    ▸ member "fxsave" fxregs_state
    ▸ member "soft" swregs_state
    ▸ member "xsave" xregs_state
    ▸ member "__padding" (array u8 4096)
    ▸ end)

abbrev pub fpu : CType
fpu = struct (
    member "last_cpu" unsigned_int
    ▸ member "avx512_timestamp" long_unsigned_int
    ▸ bits "" 8 64
    ▸ bits "" 8 64
    ▸ bits "" 8 64
    ▸ bits "" 8 64
    ▸ bits "" 8 64
    ▸ bits "" 8 64
    ▸ member "state" fpregs_state
    ▸ end)

abbrev pub thread_struct : CType
thread_struct = struct (
    member "tls_array" (array desc_struct 3)
    ▸ member "sp" long_unsigned_int
    ▸ member "es" short_unsigned_int
    ▸ member "ds" short_unsigned_int
    ▸ member "fsindex" short_unsigned_int
    ▸ member "gsindex" short_unsigned_int
    ▸ member "fsbase" long_unsigned_int
    ▸ member "gsbase" long_unsigned_int
    ▸ member "ptrace_bps" (array ptr 4)
    ▸ member "virtual_dr6" long_unsigned_int
    ▸ member "ptrace_dr7" long_unsigned_int
    ▸ member "cr2" long_unsigned_int
    ▸ member "trap_nr" long_unsigned_int
    ▸ member "error_code" long_unsigned_int
    ▸ member "io_bitmap" ptr
    ▸ member "iopl_emul" long_unsigned_int
    ▸ bits "sig_on_uaccess_err" 4 1
    ▸ bits "" 8 63
    ▸ bits "" 8 64
    ▸ bits "" 8 64
    ▸ bits "" 8 64
    ▸ bits "" 8 64
    ▸ bits "" 8 64
    ▸ member "fpu" fpu
    ▸ end)
