-- ===== src/Kernel.antt =====
-- The kernel types of builder/vmlinux.h that the probes read, with all that lies inside them.
pub mod Basic
pub mod Sock
pub mod Sched
pub mod Fpu
pub mod TaskParts
pub mod Task
pub mod Namespaces
pub mod Trace
pub mod TcpState
mod Tests
