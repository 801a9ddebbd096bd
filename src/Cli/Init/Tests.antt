-- ===== src/Cli/Init/Tests.antt =====
-- Runs of `bee init`, and its theorems at a concrete terminal.
use text.Mathlib.Text.{◌==◌ as str_eq}
use text.Mathlib.TextEquality.{eq_iff}
use bumblebee.Common.{
  ◌≡◌, refl, String, true, false, Option, none, some, List, [], ◌∷◌, arith, if◌then◌else◌,
}
use bumblebee.Common.Dict.{insert}
use bumblebee.Loader.Types.{hash, MapSpec, WatchedMap, is_tracked_map}
use bumblebee.Loader.Types
use bumblebee.Loader.Watch.{task_of}
use bumblebee.Cli.Init.Skeletons.{
  print, counter, gauge, open_at, ring_of, hash_of, declared, kind, task_for, section, text_of,
  skeleton_watched, data_of,
}
use bumblebee.Cli.Init.Laws.{initialize-flags, flags}
use bumblebee.Cli.Init.{
  InitOptions, Terminal, create_error, no_overrides, bad_map_type, ok, err, contains, initialize,
  written, skeleton, handle_network_program,
}

abbrev first : List String → Option String
first [] = none
first (v ∷ vs) = some v

-- A terminal at which the first item is selected and every question is left without an answer.
abbrev terminal : Terminal
terminal = record {
  Files = List (String × String);
  select = λ question options. first options;
  prompt = some "";
  create = λ files path. if str_eq path "" then none else some (insert path "" files);
  write = λ files path text. (insert path text files, true);
}

abbrev no_flags : InitOptions
no_flags = record {
  language = "";
  map_type = "";
  file_path = "";
  output_type = "";
  program_type = "";
}

abbrev file_system : InitOptions
file_system = record no_flags { program_type = "FileSystem" }

all_asked : initialize terminal no_flags [] ≡ (("bee.c", text_of (ring_of print)) ∷ [], ok tt)
unfolding initialize skeleton handle_network_program insert contains text_of data_of
all_asked = refl

refused :
    initialize terminal (record no_flags { map_type = "Array" }) []
      ∷ initialize terminal (record file_system { output_type = "print" }) []
      ∷ []
    ≡ ([], err (bad_map_type "Array")) ∷ ([], err no_overrides) ∷ []
unfolding initialize skeleton handle_network_program contains
refused = refl

-- The flag `-l C` against the answer C.
flagged :
    initialize terminal (record file_system { language = "C" }) []
      ∷ initialize terminal file_system []
      ∷ []
    ≡ ([], err create_error) ∷ (("bee.c", text_of open_at) ∷ [], ok tt) ∷ []
unfolding initialize skeleton contains insert text_of data_of
flagged = refl

abbrev values : WatchedMap
values = record {
  name = "values";
  labels = "pid" ∷ [];
  btf = none;
  map_type = hash;
  map_spec = record {
    name = "values";
    section_name = ".maps.counter";
    typ = hash;
    btf = none;
    value_size = 8;
    pinned = false;
  };
  value_struct = none;
}

skeleton_watched_example :
    (declared (hash_of counter) ≡ true)
    × (is_tracked_map values.map_spec ≡ true)
    × (task_of values (kind (hash_of counter))
        ≡ Types.Result.ok (task_for (hash_of counter) values))
unfolding section
skeleton_watched_example = skeleton_watched (hash_of counter) values refl

initialize-flags_example :
    initialize terminal (flags (ring_of gauge) "a.c") []
    ≡ written terminal (terminal.write (("a.c", "") ∷ []) "a.c" (text_of (ring_of gauge)))
unfolding insert
initialize-flags_example =
    initialize-flags terminal (ring_of gauge) "a.c" [] (("a.c", "") ∷ [])
      (ground (arith, eq_iff "a.c" "")) refl
