-- ===== src/Kernel/Trace.antt =====
-- builder/vmlinux.h: the records that a system call tracepoint passes to its program.
-- Each declaration is the C one of the same name, member by member (an anonymous one is "").
use bumblebee.CTypes.Syntax.{
  CType, array, char, end, int, long_int, long_unsigned_int, member, short_unsigned_int, struct,
  unsigned_char, ◌▸◌,
}

abbrev pub trace_entry : CType
trace_entry = struct (
    member "type" short_unsigned_int
    ▸ member "flags" unsigned_char
    ▸ member "preempt_count" unsigned_char
    ▸ member "pid" int
    ▸ end)

abbrev pub trace_event_raw_sys_enter : CType
trace_event_raw_sys_enter = struct (
    member "ent" trace_entry
    ▸ member "id" long_int
    ▸ member "args" (array long_unsigned_int 6)
    ▸ member "__data" (array char 0)
    ▸ end)

abbrev pub trace_event_raw_sys_exit : CType
trace_event_raw_sys_exit = struct (
    member "ent" trace_entry
    ▸ member "id" long_int
    ▸ member "ret" long_int
    ▸ member "__data" (array char 0)
    ▸ end)
