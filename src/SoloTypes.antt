-- ===== src/SoloTypes.antt =====
-- builder/solo_types.h: the types that the loader's decoder prints in a special way.
use bumblebee.CTypes.Syntax.{CType}
use bumblebee.Kernel.Basic.{u32, u64}

abbrev pub ipv4_addr : CType
ipv4_addr = u32

abbrev pub ipv6_addr : CType
ipv6_addr = u32

abbrev pub duration : CType
duration = u64
