-- ===== src/Bpf/MapSpec.antt =====
-- A map as a program declares it: the section, which tells the loader what to do with its contents,
-- the type, the capacity, and the C types of keys and values.
use bumblebee.Common.{ℕ, String, Option}
use bumblebee.CTypes.Syntax.{CType}

pub data MapType : Type 0 where
  hash ringbuf : MapType

pub record MapSpec : Type 0 where
  pub section : String
  pub typ : MapType
  pub max_entries : ℕ
  pub key : Option CType
  pub value : CType
