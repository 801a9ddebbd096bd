-- ===== src/Cli/Tests.antt =====
-- Runs of the commands, and their theorems at concrete machines and stores.
use Prim.Native.String.{◌++◌ as ◌<>◌}
use bumblebee.Common.{◌≡◌, refl, String, true, false, Option, none, some, List, [], ◌∷◌}
use mathlib.Core.Path.{subst}
use mathlib.Core.Option.{some-injective}
use bumblebee.Common.Dict.{lookup, insert, lookup-insert_self}
use bumblebee.Images.Oras.{Annotations, Platform, Descriptor, Manifest, annotation_authors}
use bumblebee.Images.{
  config_name, config_media_type, ebpf_media_type, ebpf_file_name, allowed_media_types, EbpfPackage,
  World, try_from_local,
}
use bumblebee.Images
use bumblebee.Images.Sample.{
  Store, generate_manifest, copy, new_memory, named_descriptor, sample_library,
}
use bumblebee.Images.Sample.Same.{same_manifest}
use bumblebee.Images.Sample.Lawful.{sample_library-IsLawful}
use bumblebee.Cli.Options.{GeneralOptions}
use bumblebee.Cli.Show.{describe}
use bumblebee.Cli.Describe.{describe_hides_authors}
use bumblebee.Cli.Build.{
  BuildOptions, Tools, build, validate, compile, after_compile, printed, docker_args,
  get_build_script,
}
use bumblebee.Cli.Build.Paths.{output_path}
use bumblebee.Cli.Build.Platform.{get_platform_info, is_space, trim_space, get_platform_info-words}

extensions :
    output_path "" "examples/tcpconnect/tcpconnect.c"
      ∷ output_path "" "v1.2/probe"
      ∷ output_path "" "probe.o"
      ∷ output_path "out.o" "probe.c"
      ∷ []
    ≡ "examples/tcpconnect/tcpconnect.o" ∷ "v1.2/probe.o" ∷ "probe.o" ∷ "out.o" ∷ []
unfolding output_path
extensions = refl

abbrev linux : Platform
linux = record {
  architecture = "x86_64";
  os = "Linux";
  os_version = "5.15.0";
  os_features = [];
  variant = "";
}

uname : get_platform_info (some "Linux 5.15.0 x86_64\n") ≡ some linux
unfolding get_platform_info is_space trim_space
uname = refl

uname_other :
    get_platform_info (some "Darwin 21 kernel arm64\n") ∷ get_platform_info none ∷ []
    ≡ none ∷ none ∷ []
unfolding get_platform_info is_space trim_space
uname_other = refl

abbrev general : GeneralOptions
general = record {
  verbose = false;
  oci_storage_dir = "store";
  config_dir = "";
  auth_options = record {
    credentials_files = [];
    username = "";
    password = "";
    insecure = false;
    plain_http = false;
  };
}

abbrev options : BuildOptions
options = record {
  build_image = "builder";
  builder = "docker";
  output_file = "";
  local = false;
  binary_only = false;
  c_flags = "-DDEBUG" ∷ "-g" ∷ [];
  build_script = "";
  build_script_output = false;
  general = general;
}

flags :
    docker_args options "/src" "a.c" "a.o"
    ≡ "run" ∷ "-v" ∷ "/src:/usr/src/bpf" ∷ "--env" ∷ "CFLAGS=-DDEBUG -g" ∷ "builder" ∷ "a.c" ∷ "a.o"
      ∷ []
unfolding docker_args
flags = refl

get_platform_info-words_example :
    get_platform_info (some ("Linux" <> (" " <> ("5.15.0" <> (" " <> ("x86_64" <> "\n"))))))
    ≡ some linux
unfolding is_space
get_platform_info-words_example =
    get_platform_info-words "Linux" "5.15.0" "x86_64" " " " " "\n"
      (refl, (refl, (refl, (refl, (refl, tt))))) (refl, (refl, (refl, (refl, (refl, (refl, tt))))))
      (refl, (refl, (refl, (refl, (refl, (refl, tt)))))) refl refl refl

-- A disk: the files and what they hold.
abbrev tools : Tools String
tools = record {
  Files = List (String × String);
  create = λ files path. some (insert path "" files);
  read_file = λ files path. lookup path files;
  exec = λ command files. (insert "a.o" "elf 2" files, true);
  getwd = some "/src";
  uname = some "Linux 5.15.0 x86_64\n";
  get_build_script = "clang";
}

creates_empty :
    (f g : List (String × String)) (path : String)
    → tools.create f path ≡ some g
    → tools.read_file g path ≡ some ""
creates_empty f g path e =
    subst (λ (h : List (String × String)). lookup path h ≡ some "") (some-injective _ _ e)
      (lookup-insert_self path "" f)

abbrev manifest : String → Annotations → Manifest
manifest elf annotations = record {
  config = named_descriptor config_name config_media_type "{}";
  layers = named_descriptor ebpf_file_name ebpf_media_type elf ∷ [];
  annotations = annotations;
}

-- An image with authors and no description, and one that a build makes.
abbrev authored : Manifest
authored = manifest "elf 1" ((annotation_authors, "me") ∷ [])

abbrev bare : Manifest
bare = manifest "elf 2" []

abbrev pkg : EbpfPackage String
pkg = record {
  program_file_bytes = "elf 1";
  description = "";
  authors = "me";
  platform = some linux;
  config = tt;
}

store : Store
unfolding Images.push copy same_manifest generate_manifest
store = (Images.push (sample_library authored bare) "new" new_memory pkg).0

in_memory : Store
unfolding store copy
in_memory = (copy authored bare allowed_media_types store "new" new_memory).0

abbrev world : Option Store → World (sample_library authored bare)
world local = record {
  new_oci = λ dir. local;
  new_registry = λ auth. none;
  ebpf_image_dir = "store";
}

abbrev root : Descriptor
root = record {
  media_type = "application/vnd.oci.image.manifest.v1+json";
  digest = "manifest 1";
  size = 10;
  annotations = [];
  platform = some linux;
}

describe_hides_authors_example :
    describe (sample_library authored bare) (world (some store)) general "new" ≡ (
      Images.ok (record {
        description_panel = "No description found";
        authors_panel = "No Authors found";
        platform_panel = "Linux 5.15.0 x86_64";
      }),
      some store,
    )
unfolding store in_memory
describe_hides_authors_example =
    describe_hides_authors (sample_library-IsLawful authored bare) (world (some store)) general
      "new" new_memory store in_memory pkg root refl refl refl refl

abbrev printing : BuildOptions
printing = record options { local = true; build_script_output = true }

printed_script :
    build
      (sample_library authored bare)
      (world none)
      tools
      "a.c"
      (some "new")
      printing
      (("a.o", "elf 1") ∷ [])
    ≡ (("a.o", "") ∷ [], none, printed "clang")
unfolding build validate compile after_compile insert output_path get_build_script
printed_script = refl
