-- ===== src/Cli/Publish/Tests.antt =====
-- From a build to the loader of another machine, with stores, a compiler and a kernel that take
-- everything.
use text.Mathlib.Text.{◌==◌ as str_eq}
use bumblebee.Common.{
  ◌≡◌, refl, String, true, false, Option, none, some, List, [], ◌∷◌, if◌then◌else◌,
}
use bumblebee.Common.Dict.{lookup, insert}
use bumblebee.Images.Oras.{Platform, Descriptor, Manifest}
use bumblebee.Images.{
  config_name, config_media_type, ebpf_media_type, ebpf_file_name, allowed_media_types, World,
}
use bumblebee.Images
use bumblebee.Images.Sample.{
  Store, generate_manifest, copy, new_memory, named_descriptor, sample_library,
}
use bumblebee.Images.Sample.Same.{same_manifest}
use bumblebee.Images.Sample.Lawful.{sample_library-IsLawful}
use bumblebee.Loader.Types.{
  ok, contains, is_print_map, is_gauge_map, is_counter_map, is_tracked_map,
}
use bumblebee.Loader.Parse.{
  get_labels_for_btf_struct, get_labels_for_hash_map_key, clear_btf, watch_map, parse,
}
use bumblebee.Loader.Watch.{Task}
use bumblebee.Loader.Watch.Dispatch.{AllServe}
use bumblebee.Loader.Attach.{
  kprobe, ProgramSpec, kprobe_link, directory, System, Action, watched, plan_of, create_dir,
  pin_program,
}
use bumblebee.Loader.Attach.Success.{Attachable, no_programs, one_more}
use bumblebee.Loader.Samples.{specs, parsed_elf}
use bumblebee.Tui.Filter.{Regexp, build_filter}
use bumblebee.Cli.Options.{GeneralOptions}
use bumblebee.Cli.Registry.{push}
use bumblebee.Cli.Build.{BuildOptions, Tools, build}
use bumblebee.Cli.Build.Paths.{output_path}
use bumblebee.Cli.Build.Platform.{is_space, trim_space}
use bumblebee.Cli.Run.{RunOptions, Machine, loaded, run}
use bumblebee.Cli.Publish.{run-build}

abbrev general : GeneralOptions
general = record {
  verbose = false;
  oci_storage_dir = "store";
  config_dir = "";
  auth_options = record {
    credentials_files = [];
    username = "";
    password = "";
    insecure = false;
    plain_http = false;
  };
}

abbrev making : BuildOptions
making = record {
  build_image = "builder";
  builder = "docker";
  output_file = "";
  local = false;
  binary_only = false;
  c_flags = [];
  build_script = "";
  build_script_output = false;
  general = general;
}

abbrev running : RunOptions
running = record {
  general = general;
  debug = true;
  filter = [];
  notty = true;
  pin_maps = "";
  pin_progs = "";
}

-- A compiler that leaves an object file.
abbrev tools : Tools String
tools = record {
  Files = List (String × String);
  create = λ files path. some (insert path "" files);
  read_file = λ files path. lookup path files;
  exec = λ command files. (insert "a.o" "elf" files, true);
  getwd = some "/src";
  uname = some "Linux 5.15.0 x86_64\n";
  get_build_script = "clang";
}

abbrev connect : ProgramSpec
connect = record {
  name = "connect";
  section_name = "kprobe/tcp_v4_connect";
  attach_to = "tcp_v4_connect";
  typ = kprobe;
}

abbrev machine : Machine String
machine = record {
  can_log = true;
  stat = λ path. false;
  open_file = λ path. none;
  remove_memlock = true;
  load_collection_spec = λ b. if str_eq b "elf" then some (specs, connect ∷ []) else none;
  context_done = false;
}

abbrev kernel : System
kernel = record {
  Files = Unit {0};
  context_done = λ n. false;
  new_collection = λ maps path. true;
  attach = λ l. true;
  stat = λ files path. directory;
  mkdir = λ files path. some tt;
  join = λ path name. path;
  pin = λ files path. some tt;
}

abbrev regexp : Regexp
regexp = record { Regex = String; must_compile = λ p. some p; match_string = λ r t. str_eq r t }

abbrev bare : Manifest
bare = record {
  config = named_descriptor config_name config_media_type "{}";
  layers = named_descriptor ebpf_file_name ebpf_media_type "elf" ∷ [];
  annotations = [];
}

abbrev world : Option Store → Option Store → World (sample_library bare bare)
world local there = record {
  new_oci = λ dir. local;
  new_registry = λ auth. there;
  ebpf_image_dir = "store";
}

abbrev root : Option Platform → Descriptor
root platform = record {
  media_type = "application/vnd.oci.image.manifest.v1+json";
  digest = "manifest 1";
  size = 10;
  annotations = [];
  platform = platform;
}

abbrev remote : Store
remote = record new_memory { platforms = false }

-- The directory of the author after the build, the registry after the push, the directory of the user
-- after the fetch, and its image in memory.
built : Store
unfolding build Images.push copy same_manifest generate_manifest is_space trim_space
built =
    elim (build (sample_library bare bare) (world (some new_memory) none) tools "a.c" (some "new")
      making []).1 [ none ↦ new_memory | some t ↦ t ]

published : Store
unfolding built
published = (copy bare bare allowed_media_types built "new" remote).0

fetched : Store
unfolding published
fetched = (copy bare bare allowed_media_types published "new" new_memory).0

in_memory : Store
unfolding fetched
in_memory = (copy bare bare allowed_media_types fetched "new" new_memory).0

parsed : parse specs ≡ ok parsed_elf
unfolding contains is_print_map is_gauge_map is_counter_map is_tracked_map get_labels_for_btf_struct
    get_labels_for_hash_map_key clear_btf watch_map parse
parsed = refl

connect-Attachable : Attachable kernel "" 1 (connect ∷ []) tt tt
unfolding plan_of create_dir pin_program
connect-Attachable =
    one_more 1 connect [] (kprobe_link "tcp_v4_connect" "connect") [] tt tt tt refl refl refl refl
      (no_programs 2 tt)

run-build_example :
    (acts : List Action) × (ts : List Task) × (run
        (sample_library bare bare)
        (world (some new_memory) (some published))
        machine
        kernel
        regexp
        tt
        "new"
        running
      ≡ loaded (acts, watched (ok ts)))
    × AllServe parsed_elf.watched_maps ts
unfolding in_memory push output_path build_filter
run-build_example =
    run-build (sample_library-IsLawful bare bare) "a.c" "new" (world (some new_memory) none)
      (world (some built) (some remote)) (world (some new_memory) (some published)) tools machine
      kernel regexp making general running [] (("a.o", "elf") ∷ []) built remote published
      new_memory fetched in_memory "elf" (root none) (root none) specs (connect ∷ []) parsed_elf
      none tt tt refl refl refl refl refl refl refl refl refl refl refl refl refl refl refl refl
      parsed refl (refl, refl) connect-Attachable
