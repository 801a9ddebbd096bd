-- ===== src/Bpf.antt =====
-- What the programs under examples/ use of the kernel: the eBPF helpers, maps and ring buffers. That
-- code is not in this repository, so each is a parameter with the behaviour that bpf-helpers(7)
pub mod Equality
pub mod HashMap
pub mod RingBuf
pub mod MapSpec
pub mod Context
pub mod Examples
