-- ===== src/Loader/Types.antt =====
-- pkg/loader/loader.go and watcher.go: the specification of a program's maps as the library
-- cilium/ebpf gives it, and what the loader keeps and passes on.
use text.Mathlib.Text.{starts_with}
use bumblebee.Common.{ℕ, String, Bool, true, ◌||◌, Option, List, if◌then◌else◌}
use bumblebee.Decoder.Types.{BtfType, BtfMembers, DecodeError}

-- `ebpf.MapType`, with what the switches tell apart.
pub data MapType : Type 0 where
  unspecified hash array ring_buf perf_event_array other_map : MapType

-- `btf.Map`; a map can lack either type.
pub record BtfMap : Type 0 where
  pub key : Option BtfType
  pub value : Option BtfType

-- `ebpf.MapSpec`, with its name in `spec.Maps`. `btf` is a pointer that can be nil; `pinned` says that
-- `Pinning` is `PinByName`.
pub record MapSpec : Type 0 where
  pub name : String
  pub section_name : String
  pub typ : MapType
  pub btf : Option BtfMap
  pub value_size : ℕ
  pub pinned : Bool

-- `btf` points to the types that `map_spec` had before `Parse` cleared its own pointer.
pub record WatchedMap : Type 0 where
  pub name : String
  pub labels : List String
  pub btf : Option BtfMap
  pub map_type : MapType
  pub map_spec : MapSpec
  pub value_struct : Option BtfMembers

pub record ParsedElf : Type 0 where
  pub maps : List MapSpec
  pub watched_maps : List WatchedMap

pub data LoadError : Type 0 where
  value_no_struct : String → LoadError
  key_no_struct unsupported_map : LoadError
  decode_error : DecodeError → LoadError

-- A panic is a nil pointer that is read.
pub data Result (A : Type 0) : Type 0 where
  ok : A → Result A
  err : LoadError → Result A
  panic : Result A

infixl 5 ◌>>=◌
abbrev pub ◌>>=◌ : {A B : Type 0} → Result A → (A → Result B) → Result B
ok a >>= f = f a
err e >>= f = err e
panic >>= f = panic

-- `strings.Contains`.
unfoldable pub contains : String → String → Bool
contains String.[] t = starts_with "" t
contains (String.◌∷◌ c s) t =
    let rest = contains s t in if starts_with (String.◌∷◌ c s) t then true else rest

unfoldable pub is_print_map : MapSpec → Bool
unfolding contains
is_print_map spec = contains spec.section_name "print"

unfoldable pub is_gauge_map : MapSpec → Bool
unfolding contains
is_gauge_map spec = contains spec.section_name "gauge"

unfoldable pub is_counter_map : MapSpec → Bool
unfolding contains
is_counter_map spec = contains spec.section_name "counter"

unfoldable pub is_tracked_map : MapSpec → Bool
is_tracked_map spec = is_counter_map spec || is_gauge_map spec || is_print_map spec

-- `map[string]string`, as an association list.
abbrev pub Labels : Type 0
Labels = List (String × String)

pub record KvPair : Type 0 where
  pub key : Labels
  pub value : String
  pub hash : ℕ

pub record MapEntry : Type 0 where
  pub name : String
  pub entry : KvPair
