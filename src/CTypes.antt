-- ===== src/CTypes.antt =====
-- The C types of the eBPF programs and of builder/vmlinux.h, with the layout that the x86-64 ABI
-- gives them: sizes, alignments, the place of each member, and the path of a member access.
pub mod Syntax
pub mod Layout
pub mod Access
pub mod Bounds
