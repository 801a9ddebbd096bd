-- ===== src/Cli/Publish.antt =====
-- An image on its way: from the directory of the one who builds it to the registry, from there to the
-- directory of another machine, and into the loader.
mod Tests
use text.Mathlib.Text.{◌==◌ as str_eq}
use bumblebee.Common.{
  ◌≡◌, ◌∙◌, ap, inl, inr, Option-cases, String, true, false, Option, none, some, List, arith,
  if◌then◌else◌,
}
use bumblebee.Images.Oras.{Library, IsLawful, Descriptor}
use bumblebee.Images.{allowed_media_types, EbpfConfig, EbpfPackage, ok, World, try_from_local}
use bumblebee.Images
use bumblebee.Images.Holds.{Holds, kept, copy-Holds}
use bumblebee.Images.Laws.{push-Holds, try_from_local-remote}
use bumblebee.Loader.Types.{MapSpec, ParsedElf, Result}
use bumblebee.Loader.Parse.{parse}
use bumblebee.Loader.Watch.{Task}
use bumblebee.Loader.Watch.Dispatch.{AllServe}
use bumblebee.Loader.Attach.{System, ProgramSpec, Action, watched, load}
use bumblebee.Loader.Attach.Success.{IsLoaded, Attachable, load_serves}
use bumblebee.Tui.Filter.{Regexp, Filters, build_filter}
use bumblebee.Tui.Filter
use bumblebee.Cli.Build.{BuildOptions, Tools, build, packaged}
use bumblebee.Cli.Build.Paths.{output_path}
use bumblebee.Cli.Build.Laws.{build-push, package_of}
use bumblebee.Cli.Options.{GeneralOptions, to_registry_options}
use bumblebee.Cli.Registry.{push, copy_image}
use bumblebee.Cli.Run.{
  RunOptions, Machine, loaded, fetched, get_program, start_program, with_parsed, with_program, run,
}

module _ {L : Library EbpfConfig} (W : IsLawful L) where
  copy_image-copied :
      (ref : String) (w : World L) (opts : GeneralOptions) (from to after : L.Target)
      → copy_image L w opts ref from to ≡ (ok tt, some after)
      → (d : Descriptor) × (L.copy allowed_media_types from ref to ≡ (after, some d))
  unfolding copy_image
  copy_image-copied ref w opts from to after h =
      elim (Option-cases (L.copy allowed_media_types from ref to).1) [
        | inl failed ↦ absurd (ground (arith, failed, h))
        | inr (d, done) ↦ (d, ground (arith, done, h))
      ]

  -- `bee push` carries an image from the directory to the registry.
  pub push-Holds_remote :
      (ref : String) (w : World L) (opts : GeneralOptions) (local remote after : L.Target)
      (pkg : EbpfPackage L.Bytes)
      → w.new_oci opts.oci_storage_dir ≡ some local
      → w.new_registry (to_registry_options opts.auth_options) ≡ some remote
      → Holds L local ref pkg
      → push L w opts ref ≡ (ok tt, some after)
      → Holds L after ref (kept L remote pkg)
  unfolding push
  push-Holds_remote ref w opts local remote after pkg opened reached h pushed =
      let (d, c) = copy_image-copied ref w opts local remote after (ground (arith, pushed)) in
      copy-Holds W local remote after ref pkg d h c

  -- A program that was packaged under a name, pushed, and is no file of the other machine, is what
  -- `bee run` fetches there.
  pub get_program-published :
      (ref : String) (author user : World L) (M : Machine L.Bytes) (sent taken : GeneralOptions)
      (store built remote published local after m : L.Target) (pkg : EbpfPackage L.Bytes)
      (d e : Descriptor)
      → Images.push L ref store pkg ≡ (built, ok tt)
      → author.new_oci sent.oci_storage_dir ≡ some built
      → author.new_registry (to_registry_options sent.auth_options) ≡ some remote
      → push L author sent ref ≡ (ok tt, some published)
      → M.stat ref ≡ false
      → user.new_oci
          (if str_eq taken.oci_storage_dir "" then user.ebpf_image_dir else taken.oci_storage_dir)
        ≡ some local
      → L.resolve local ref ≡ none
      → user.new_registry (to_registry_options taken.auth_options) ≡ some published
      → L.copy allowed_media_types published ref local ≡ (after, some d)
      → L.copy allowed_media_types after ref L.new_memory ≡ (m, some e)
      → get_program L user M taken ref ≡ fetched pkg.program_file_bytes
  unfolding get_program kept
  get_program-published ref author user M sent taken store built remote published local after m pkg
        d e stored opens_a reaches_a pushed no_file opens_u absent reaches_u c c' =
      let there =
        push-Holds_remote ref author sent built remote published (kept L store pkg) opens_a
          reaches_a (push-Holds W ref store built pkg stored) pushed in
      ground (
        arith,
        no_file,
        try_from_local-remote W user ref taken.oci_storage_dir
            (to_registry_options taken.auth_options) local after published m
            (kept L remote (kept L store pkg)) d e opens_u absent reaches_u there c c',
      )

  -- A program whose image is fetched is loaded as it was built, and each of its maps is watched.
  module _ (user : World L) (M : Machine L.Bytes) (K : System) (E : Regexp) where
    run-fetched :
        (ref : String) (opts : RunOptions) (bytes : L.Bytes) (specs : List MapSpec)
        (programs : List ProgramSpec) (elf : ParsedElf) (filters : Option (Filters E))
        (files : K.Files)
        → get_program L user M opts.general ref ≡ fetched bytes
        → M.can_log ≡ true
        → M.remove_memlock ≡ true
        → M.context_done ≡ false
        → opts.notty ≡ true
        → M.load_collection_spec bytes ≡ some (specs, programs)
        → parse specs ≡ Result.ok elf
        → build_filter E opts.filter elf.watched_maps ≡ Filter.Result.ok filters
        → run L user M K E files ref opts
          ≡ loaded (load K elf programs opts.pin_maps opts.pin_progs files)
    unfolding run with_program with_parsed start_program
    run-fetched ref opts bytes specs programs elf filters files got logs locks goes plain reads
          parsed built =
        ground arith

  -- What bee build made of a file and bee push carried to the registry, bee run of another machine
  -- serves: Load comes to watch the maps of the object file that the compiler left, with a goroutine
  -- for each. The other machine has neither a file nor an image of that name, all calls of the
  -- libraries and the machine succeed, the object file parses, the filters are good, the screen is
  -- off, the context is not done, and the kernel takes its maps and programs.
  pub run-build :
      (input ref : String) (maker author user : World L) (T : Tools L.Bytes) (M : Machine L.Bytes)
      (K : System) (E : Regexp) (making : BuildOptions) (sent : GeneralOptions) (opts : RunOptions)
      (sources left : T.Files) (built remote published local after m : L.Target) (elf : L.Bytes)
      (d e : Descriptor) (specs : List MapSpec) (programs : List ProgramSpec) (maps : ParsedElf)
      (filters : Option (Filters E)) (files last : K.Files)
      → build L maker T input (some ref) making sources ≡ (left, some built, packaged)
      → T.read_file left (output_path making.output_file input) ≡ some elf
      → author.new_oci sent.oci_storage_dir ≡ some built
      → author.new_registry (to_registry_options sent.auth_options) ≡ some remote
      → push L author sent ref ≡ (ok tt, some published)
      → M.stat ref ≡ false
      → user.new_oci (
          if str_eq opts.general.oci_storage_dir ""
          then user.ebpf_image_dir
          else opts.general.oci_storage_dir)
        ≡ some local
      → L.resolve local ref ≡ none
      → user.new_registry (to_registry_options opts.general.auth_options) ≡ some published
      → L.copy allowed_media_types published ref local ≡ (after, some d)
      → L.copy allowed_media_types after ref L.new_memory ≡ (m, some e)
      → M.can_log ≡ true
      → M.remove_memlock ≡ true
      → M.context_done ≡ false
      → opts.notty ≡ true
      → M.load_collection_spec elf ≡ some (specs, programs)
      → parse specs ≡ Result.ok maps
      → build_filter E opts.filter maps.watched_maps ≡ Filter.Result.ok filters
      → IsLoaded K maps opts.pin_maps
      → Attachable K opts.pin_progs 1 programs files last
      → (acts : List Action) × (ts : List Task) × (run L user M K E files ref opts
          ≡ loaded (acts, watched (Result.ok ts)))
        × AllServe maps.watched_maps ts
  run-build input ref maker author user T M K E making sent opts sources left built remote published
        local after m elf d e specs programs maps filters files last makes object h2 h3 h4 h5 h6 h7
        h8 h9 h10 logs locks goes plain reads parsed filtered is_loaded attachable =
      let (elf', reg, object', opens, h1) =
        build-push L maker T input ref making sources left built makes in
      let same : elf' ≡ elf = cc (object, object') in
      let got =
        get_program-published ref author user M sent opts.general reg built remote published local
          after m (package_of elf' T.uname) d e h1 h2 h3 h4 h5 h6 h7 h8 h9 h10 in
      let (ts, ends, serve) =
        load_serves K specs maps programs opts.pin_maps opts.pin_progs files last parsed is_loaded
          attachable in
      let runs =
        run-fetched user M K E ref opts elf specs programs maps filters files
          (got ∙ ap fetched same) logs locks goes plain reads parsed filtered in
      (
        (load K maps programs opts.pin_maps opts.pin_progs files).0,
        ts,
        ground (arith, runs, ends),
        serve,
      )
