-- ===== src/Loader/Samples.antt =====
-- The maps of a program for the tests of the loader: a counter from a ring buffer, a gauge from a
-- hash map, a map that no one watches, and a ring buffer that asks for a gauge.
use bumblebee.Common.{false, ℕ, some, none, String, List, [], ◌∷◌, ◌==◌, if◌then◌else◌}
use bumblebee.Decoder.Types.{
  BtfType, int, typedef, struct, unsigned, signed, BtfMembers, end, field, Value, uint, sint,
}
use bumblebee.Decoder.Decode.{Fields}
use bumblebee.Loader.Types.{hash, array, ring_buf, BtfMap, MapSpec, WatchedMap, ParsedElf}

abbrev pub pid_members : BtfMembers
pid_members =
    field "pid" (int "unsigned int" 4 32 unsigned) 0 (field "ret" (int "int" 4 32 signed) 32 end)

abbrev pub counts : BtfType
counts = typedef "u64" (int "unsigned long long" 8 64 unsigned)

abbrev pub event_types : BtfMap
event_types = record { key = none; value = some (struct pid_members) }

abbrev pub table_types : BtfMap
table_types = record { key = some (struct pid_members); value = some counts }

abbrev pub events_spec : MapSpec
events_spec = record {
  name = "events";
  section_name = ".maps.counter";
  typ = ring_buf;
  btf = some event_types;
  value_size = 8;
  pinned = false;
}

abbrev pub events_cleared : MapSpec
events_cleared = record events_spec { btf = none; value_size = 0 }

abbrev pub table_spec : MapSpec
table_spec = record {
  name = "open";
  section_name = ".maps.gauge";
  typ = hash;
  btf = some table_types;
  value_size = 8;
  pinned = false;
}

abbrev pub start_spec : MapSpec
start_spec = record {
  name = "start";
  section_name = ".maps";
  typ = array;
  btf = none;
  value_size = 4;
  pinned = false;
}

abbrev pub specs : List MapSpec
specs = events_spec ∷ start_spec ∷ table_spec ∷ []

abbrev pub events_watched : WatchedMap
events_watched = record {
  name = "events";
  labels = "pid" ∷ "ret" ∷ [];
  btf = some event_types;
  map_type = ring_buf;
  map_spec = events_cleared;
  value_struct = some pid_members;
}

abbrev pub table_watched : WatchedMap
table_watched = record {
  name = "open";
  labels = "pid" ∷ "ret" ∷ [];
  btf = some table_types;
  map_type = hash;
  map_spec = table_spec;
  value_struct = none;
}

abbrev pub parsed_elf : ParsedElf
parsed_elf = record {
  maps = events_cleared ∷ start_spec ∷ table_spec ∷ [];
  watched_maps = events_watched ∷ table_watched ∷ [];
}

-- A sample of pid 7 that returned 2, and what it holds.
abbrev pub raw : List ℕ
raw = 7 ∷ 0 ∷ 0 ∷ 0 ∷ 2 ∷ 0 ∷ 0 ∷ 0 ∷ []

abbrev pub fields : Fields
fields = ("pid", uint 32 7) ∷ ("ret", sint 32 2) ∷ []

abbrev pub five : List ℕ
five = 5 ∷ 0 ∷ 0 ∷ 0 ∷ 0 ∷ 0 ∷ 0 ∷ 0 ∷ []

-- `fmt.Sprint` for these.
abbrev pub sprint : Value → String
sprint (uint w v) = if v == 7 then "7" else "5"
sprint _ = "2"
