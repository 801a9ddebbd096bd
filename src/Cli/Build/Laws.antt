-- ===== src/Cli/Build/Laws.antt =====
-- What `bee build` leaves: an image of the object file, or an object file that is lost.
use Prim.Native.String.{◌++◌ as ◌<>◌}
use bumblebee.Common.{
  ◌≡◌, Bool-cases, Option-cases, inl, inr, String, true, Option, none, some, arith,
}
use bumblebee.Images.Oras.{Library}
use bumblebee.Images.{EbpfConfig, EbpfPackage, ok, err, World, Result}
use bumblebee.Images
use bumblebee.Cli.Build.{
  BuildOptions, Tools, Ending, packaged, compile, pushed, package_program, after_compile, build,
  validate,
}
use bumblebee.Cli.Build.Paths.{output_path, output_path-object}
use bumblebee.Cli.Build.Platform.{get_platform_info}

-- The package that is made of an object file.
abbrev pub package_of : {Bytes : Type 0} → Bytes → Option String → EbpfPackage Bytes
package_of elf uname = record {
  program_file_bytes = elf;
  description = "";
  authors = "";
  platform = get_platform_info uname;
  config = tt;
}

module _ (L : Library EbpfConfig) (w : World L) (T : Tools L.Bytes) where
  pushed-packaged :
      (r : L.Target × Result (Unit {0})) (after : L.Target)
      → pushed L w T r ≡ (some after, packaged)
      → r ≡ (after, ok tt)
  unfolding pushed
  pushed-packaged (t, ok u) after h = ground (arith, h)
  pushed-packaged (t, err e) after h = absurd (ground (arith, h))

  package_program-packaged :
      (opts : BuildOptions) (out ref : String) (files : T.Files) (after : L.Target)
      → package_program L w T opts out ref files ≡ (some after, packaged)
      → (elf : L.Bytes) × (reg : L.Target) × (T.read_file files out ≡ some elf)
        × (w.new_oci opts.general.oci_storage_dir ≡ some reg)
        × (Images.push L ref reg (package_of elf T.uname) ≡ (after, ok tt))
  unfolding package_program
  package_program-packaged opts out ref files after h =
      elim (Option-cases (T.read_file files out)) [
        | inl e ↦ absurd (ground (arith, e, h))
        | inr (elf, e) ↦ elim (Option-cases (w.new_oci opts.general.oci_storage_dir)) [
          | inl d ↦ absurd (ground (arith, e, d, h))
          | inr (reg, d) ↦ (
            elf,
            reg,
            e,
            d,
            pushed-packaged (Images.push L ref reg (package_of elf T.uname)) after
                (ground (arith, e, d, h)),
          )
        ]
      ]

  after_compile-packaged :
      (opts : BuildOptions) (out ref : String) (r : T.Files × Option (Ending L.Bytes))
      (left : T.Files) (after : L.Target)
      → after_compile L w T opts out (some ref) r ≡ (left, some after, packaged)
      → package_program L w T opts out ref left ≡ (some after, packaged)
  unfolding after_compile
  after_compile-packaged opts out ref (files, some e) left after h = absurd (ground (arith, h))
  after_compile-packaged opts out ref (files, none) left after h =
      elim (Bool-cases opts.binary_only) [
        | inl b ↦ absurd (ground (arith, b, h))
        | inr b ↦ ground (arith, b, h)
      ]

  -- A build that succeeds has pushed the object file that the compiler left.
  pub build-push :
      (input ref : String) (opts : BuildOptions) (files left : T.Files) (after : L.Target)
      → build L w T input (some ref) opts files ≡ (left, some after, packaged)
      → (elf : L.Bytes) × (reg : L.Target) × (T.read_file left (output_path opts.output_file input)
          ≡ some elf)
        × (w.new_oci opts.general.oci_storage_dir ≡ some reg)
        × (Images.push L ref reg (package_of elf T.uname) ≡ (after, ok tt))
  unfolding build
  build-push input ref opts files left after h =
      let out = output_path opts.output_file input in
      elim (Bool-cases (validate opts)) [
        | inr v ↦ absurd (ground (arith, v, h))
        | inl v ↦ elim (Option-cases (T.create files out)) [
          | inl c ↦ absurd (ground (arith, v, c, h))
          | inr (made, c) ↦ package_program-packaged opts out ref left after (
              after_compile-packaged opts out ref (compile T opts input out made) left after
                (ground (arith, v, c, h)))
        ]
      ]

  -- An object file that is given as the input is also the output: it is empty when the compiler reads it.
  pub object_input_emptied :
      (name : String) (ref : Option String) (opts : BuildOptions) (files made : T.Files)
      (empty : L.Bytes)
      → ((f g : T.Files) (path : String)
          → T.create f path ≡ some g
          → T.read_file g path ≡ some empty)
      → validate opts ≡ true
      → opts.output_file ≡ ""
      → T.create files (name <> ".o") ≡ some made
      → (build L w T (name <> ".o") ref opts files
          ≡ after_compile L w T opts
              (name <> ".o")
              ref
              (compile T opts (name <> ".o") (name <> ".o") made))
        × (T.read_file made (name <> ".o") ≡ some empty)
  unfolding build
  object_input_emptied name ref opts files made empty creates valid no_file c = (
    ground (arith, valid, no_file, output_path-object name, c),
    creates files made (name <> ".o") c,
  )
