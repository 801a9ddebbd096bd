-- ===== src/Cli/Build.antt =====
-- pkg/cli/internal/commands/build/build.go: a C file is compiled, by a script or in a container, and the
-- object file becomes an image in the local directory. What is printed is left out, but for the script.
pub mod Paths
pub mod Platform
pub mod Laws
use Prim.Native.String.{◌++◌ as ◌<>◌}
use text.Mathlib.Text.{◌==◌ as str_eq}
use bumblebee.Common.{
  String, Bool, true, false, not, ◌&&◌, Option, none, some, List, [], ◌∷◌, ◌++◌, if◌then◌else◌,
}
use bumblebee.Images.Oras.{Library}
use bumblebee.Images.{EbpfConfig, EbpfPackage, ImageError, Result, ok, err, World}
use bumblebee.Images
use bumblebee.Cli.Options.{GeneralOptions}
use Paths.{output_path}
use Platform.{get_platform_info}

pub record BuildOptions : Type 0 where
  pub build_image : String
  pub builder : String
  pub output_file : String
  pub local : Bool
  pub binary_only : Bool
  pub c_flags : List String
  pub build_script : String
  pub build_script_output : Bool
  pub general : GeneralOptions

-- The commands that are run: a container with the arguments of its builder, and `sh` with its
-- environment, its input and its arguments.
pub data Command (Bytes : Type 0) : Type 0 where
  docker : String → List String → Command Bytes
  shell : List String → Bytes → List String → Command Bytes

-- What `build` asks of the machine: `os.Create`, which leaves an empty file, `os.ReadFile`, the command
-- with whether it succeeds, `os.Getwd`, what `uname -srm` prints, and the script that is embedded.
pub record Tools (Bytes : Type 0) : Type 1 where
  pub Files : Type 0
  pub create : Files → String → Option Files
  pub read_file : Files → String → Option Bytes
  pub exec : Command Bytes → Files → Files × Bool
  pub getwd : Option String
  pub uname : Option String
  pub get_build_script : Bytes

pub data BuildError : Type 0 where
  script_with_docker create_error script_error compile_error no_registry read_error : BuildError
  library_error : BuildError
  image_error : ImageError → BuildError

-- How `build` ends.
pub data Ending (Bytes : Type 0) : Type 0 where
  failed : BuildError → Ending Bytes
  printed : Bytes → Ending Bytes
  compiled packaged : Ending Bytes

-- `strings.Join` with a space.
unfoldable pub join : List String → String
join [] = ""
join (s ∷ []) = s
join (s ∷ t ∷ ss) = s <> (" " <> join (t ∷ ss))

unfoldable pub validate : BuildOptions → Bool
validate opts = not (not opts.local && opts.build_script_output)

unfoldable pub docker_args : BuildOptions → (wd input_file output_file : String) → List String
unfolding join
docker_args opts wd input_file output_file =
    ("run" ∷ "-v" ∷ (wd <> ":/usr/src/bpf") ∷ [])
    ++ ((elim opts.c_flags [ [] ↦ [] | f ∷ fs ↦ "--env" ∷ ("CFLAGS=" <> join (f ∷ fs)) ∷ [] ])
        ++ (opts.build_image ∷ input_file ∷ output_file ∷ []))

module _ {Bytes : Type 0} (T : Tools Bytes) where
  unfoldable pub get_build_script : T.Files → String → Option Bytes
  get_build_script files path =
      if str_eq path "" then some T.get_build_script else T.read_file files path

  -- What the compilation leaves: the files and no ending, or an ending.
  unfoldable pub build_local :
      BuildOptions
      → Bytes
      → (input_file output_file : String) → T.Files
      → T.Files × Option (Ending Bytes)
  unfolding join
  build_local opts script input_file output_file files =
      let (after, done) =
        T.exec
          (shell (("CFLAGS=" <> join opts.c_flags) ∷ []) script (input_file ∷ output_file ∷ []))
          files in
      (after, if done then none else some (failed compile_error))

  unfoldable pub build_docker :
      BuildOptions → (input_file output_file : String) → T.Files → T.Files × Option (Ending Bytes)
  unfolding docker_args
  build_docker opts input_file output_file files = elim T.getwd [
    | none ↦ (files, some (failed compile_error))
    | some wd ↦
        let (after, done) =
          T.exec (docker opts.builder (docker_args opts wd input_file output_file)) files in
        (after, if done then none else some (failed compile_error))
  ]

  unfoldable pub compile :
      BuildOptions → (input_file output_file : String) → T.Files → T.Files × Option (Ending Bytes)
  unfolding get_build_script build_local build_docker
  compile opts input_file output_file files =
      if opts.local
      then (elim (get_build_script files opts.build_script) [
        | none ↦ (files, some (failed script_error))
        | some script ↦
            if opts.build_script_output
            then (files, some (printed script))
            else build_local opts script input_file output_file files
      ])
      else build_docker opts input_file output_file files

module _ (L : Library EbpfConfig) (w : World L) (T : Tools L.Bytes) where
  unfoldable pub pushed : L.Target × Result (Unit {0}) → Option L.Target × Ending L.Bytes
  pushed (after, ok u) = (some after, packaged)
  pushed (after, err e) = (some after, failed (image_error e))

  -- From the object file to the image.
  unfoldable pub package_program :
      BuildOptions
      → (output_file registry_ref : String) → T.Files
      → Option L.Target × Ending L.Bytes
  unfolding pushed
  package_program opts output_file registry_ref files = elim (T.read_file files output_file) [
    | none ↦ (none, failed read_error)
    | some elf_bytes ↦ elim (w.new_oci opts.general.oci_storage_dir) [
      | none ↦ (none, failed library_error)
      | some reg ↦ pushed (
          Images.push L registry_ref reg (record {
            program_file_bytes = elf_bytes;
            description = "";
            authors = "";
            platform = get_platform_info T.uname;
            config = tt;
          }))
    ]
  ]

  -- What follows the compilation. The name of the image is the second argument, if there is one.
  unfoldable pub after_compile :
      BuildOptions
      → String
      → Option String
      → T.Files × Option (Ending L.Bytes)
      → T.Files × Option L.Target × Ending L.Bytes
  unfolding package_program
  after_compile opts output_file registry_ref (files, some e) = (files, none, e)
  after_compile opts output_file registry_ref (files, none) =
      if opts.binary_only then (files, none, compiled) else elim registry_ref [
        | none ↦ (files, none, failed no_registry)
        | some ref ↦
            let (store, e) = package_program opts output_file ref files in (files, store, e)
      ]

  -- The files, the store if it was opened, and the ending.
  unfoldable pub build :
      String → Option String → BuildOptions → T.Files → T.Files × Option L.Target × Ending L.Bytes
  unfolding validate compile after_compile
  build input_file registry_ref opts files =
      if validate opts
      then (let output_file = output_path opts.output_file input_file in
          elim (T.create files output_file) [
            | none ↦ (files, none, failed create_error)
            | some created ↦
                after_compile opts output_file registry_ref
                  (compile T opts input_file output_file created)
          ])
      else (files, none, failed script_with_docker)
