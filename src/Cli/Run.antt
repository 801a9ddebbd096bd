-- ===== src/Cli/Run.antt =====
-- pkg/cli/internal/commands/run/run.go: from the place of a program to `Load`, or to the screen. What
-- is logged and printed is left out, and so is the handler of signals.
use bumblebee.Common.{String, Bool, Option, none, some, List, if◌then◌else◌, not, ◌&&◌}
use bumblebee.Images.Oras.{Library}
use bumblebee.Images.{EbpfConfig, EbpfPackage, World, try_from_local, ImageError}
use bumblebee.Images
use bumblebee.Cli.Options.{GeneralOptions, to_registry_options}
use bumblebee.Loader.Types.{MapSpec, ParsedElf, LoadError, Result, ok, err, panic}
use bumblebee.Loader.Parse.{parse}
use bumblebee.Loader.Attach.{System, ProgramSpec, Action, Ended, load}
use bumblebee.Tui.Filter.{Regexp, FilterError, Filters, build_filter}
use bumblebee.Tui.Filter

pub record RunOptions : Type 0 where
  pub general : GeneralOptions
  pub debug : Bool
  pub filter : List String
  pub notty : Bool
  pub pin_maps : String
  pub pin_progs : String

-- What `run` asks of the machine: a log file, `os.Stat`, `os.Open`, the memory limit, the library
-- cilium/ebpf that reads an ELF file, and whether the context is done before the screen starts.
pub record Machine (Bytes : Type 0) : Type 0 where
  pub can_log : Bool
  pub stat : String → Bool
  pub open_file : String → Option Bytes
  pub remove_memlock : Bool
  pub load_collection_spec : Bytes → Option (List MapSpec × List ProgramSpec)
  pub context_done : Bool

pub data RunError : Type 0 where
  logger_error file_error memlock_error elf_error context_done : RunError
  image_error : ImageError → RunError
  parse_error : LoadError → RunError
  filter_error : FilterError → RunError

-- How `run` ends: with an error, a panic, as `Load` does, or on the screen, whose `Run` is given the
-- maps and the filters.
pub data RunEnd (F : Type 0) : Type 0 where
  stopped : RunError → RunEnd F
  panicked : RunEnd F
  loaded : List Action × Ended → RunEnd F
  on_screen : ParsedElf → List ProgramSpec → Option F → RunEnd F

pub data Fetched (Bytes : Type 0) : Type 0 where
  fetched : Bytes → Fetched Bytes
  not_fetched : RunError → Fetched Bytes

abbrev pub bytes_of : {Bytes : Type 0} → Images.Result (EbpfPackage Bytes) → Fetched Bytes
bytes_of (Images.Result.ok prog) = fetched prog.program_file_bytes
bytes_of (Images.Result.err e) = not_fetched (image_error e)

abbrev pub opened_file : {Bytes : Type 0} → Option Bytes → Fetched Bytes
opened_file none = not_fetched file_error
opened_file (some b) = fetched b

module _ (L : Library EbpfConfig) (w : World L) (M : Machine L.Bytes) where
  -- A path that is no file is the name of an image.
  unfoldable pub get_program : GeneralOptions → String → Fetched L.Bytes
  get_program opts prog_location =
      if M.stat prog_location
      then opened_file (M.open_file prog_location)
      else bytes_of
          (try_from_local L w prog_location opts.oci_storage_dir
            (to_registry_options opts.auth_options)).0

  module _ (K : System) (E : Regexp) (files : K.Files) where
    -- Behind `buildTuiApp`.
    unfoldable pub start_program :
        RunOptions
        → ParsedElf
        → List ProgramSpec
        → Filter.Result (Option (Filters E))
        → RunEnd (Filters E)
    start_program opts elf programs (Filter.Result.err e) = stopped (filter_error e)
    start_program opts elf programs Filter.Result.panic = panicked
    start_program opts elf programs (Filter.Result.ok filters) =
        if M.context_done
        then stopped context_done
        else if opts.notty
        then loaded (load K elf programs opts.pin_maps opts.pin_progs files)
        else on_screen elf programs filters

    unfoldable pub with_parsed :
        RunOptions → List ProgramSpec → Result ParsedElf → RunEnd (Filters E)
    unfolding start_program
    with_parsed opts programs (err e) = stopped (parse_error e)
    with_parsed opts programs panic = panicked
    with_parsed opts programs (ok elf) =
        start_program opts elf programs (build_filter E opts.filter elf.watched_maps)

    unfoldable pub with_program : RunOptions → Fetched L.Bytes → RunEnd (Filters E)
    unfolding with_parsed
    with_program opts (not_fetched e) = stopped e
    with_program opts (fetched bytes) =
        if M.remove_memlock
        then elim (M.load_collection_spec bytes) [
          | none ↦ stopped elf_error
          | some (maps, programs) ↦ with_parsed opts programs (parse maps)
        ]
        else stopped memlock_error

    unfoldable pub run : String → RunOptions → RunEnd (Filters E)
    unfolding get_program with_program
    run prog_location opts =
        if opts.debug && not M.can_log
        then stopped logger_error
        else with_program opts (get_program opts.general prog_location)
