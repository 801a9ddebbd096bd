-- ===== src/Loader/Attach.antt =====
-- pkg/loader/loader.go: `Load` and `createDir`. The kernel, the files and the context are a parameter.
-- What a `defer` releases is a stack, and all that `Load` does is a list of actions.
pub mod Releases
pub mod Success
mod Tests
use Prim.Native.Char.{Char}
use text.Mathlib.Text.{◌==◌ as str_eq, starts_with}
use bumblebee.Common.{
  ℕ, ◌+◌, String, Bool, true, false, Option, none, some, List, [], ◌∷◌, ◌++◌, map, if◌then◌else◌,
}
use bumblebee.Loader.Types.{MapSpec, ParsedElf, Result}
use bumblebee.Loader.Watch.{Task, watch_maps}

-- `ebpf.ProgramType`, with what the switch tells apart, and `ebpf.ProgramSpec`.
pub data ProgramType : Type 0 where
  kprobe trace_point other_program : ProgramType

pub record ProgramSpec : Type 0 where
  pub name : String
  pub section_name : String
  pub attach_to : String
  pub typ : ProgramType

-- The calls of package link: the place, and the program's name.
pub data Link : Type 0 where
  kretprobe_link kprobe_link : String → String → Link
  tracepoint_link : (group place program : String) → Link

-- `os.Stat`.
pub data Stat : Type 0 where
  not_exist stat_error directory no_directory : Stat

-- What is not in the repository. `context_done` says whether the context is done at the entry, at 0,
-- and before each program. Each call tells whether it succeeds.
pub record System : Type 1 where
  pub Files : Type 0
  pub context_done : ℕ → Bool
  pub new_collection : List MapSpec → String → Bool
  pub attach : Link → Bool
  pub stat : Files → String → Stat
  pub mkdir : Files → String → Option Files
  pub join : String → String → String
  pub pin : Files → String → Option Files

-- What is closed in the end: the watcher, the collection, and the links.
pub data Resource : Type 0 where
  watcher collection : Resource
  link : Link → Resource

pub data Action : Type 0 where
  acquire release : Resource → Action
  make_dir pin_file : String → Action
  watching : Action

pub data Failure : Type 0 where
  context_error collection_error only_kprobe dir_error : Failure
  attach_error bad_section pin_error : String → Failure

-- How `Load` ends: with an error, a panic, or as `WatchMaps` ends.
pub data Ended : Type 0 where
  failed : Failure → Ended
  panicked : Ended
  watched : Result (List Task) → Ended

-- `strings.HasSuffix`, and `strings.Split` at "/".
unfoldable pub ends_with : String → String → Bool
ends_with String.[] t = str_eq "" t
ends_with (String.◌∷◌ c s) t =
    let rest = ends_with s t in if str_eq (String.◌∷◌ c s) t then true else rest

onto_first : Char → List String → List String
onto_first c [] = String.◌∷◌ c String.[] ∷ []
onto_first c (t ∷ ts) = String.◌∷◌ c t ∷ ts

unfoldable pub split : String → List String
unfolding onto_first
split String.[] = "" ∷ []
split (String.◌∷◌ c s) =
    let rest = split s in if starts_with (String.◌∷◌ c s) "/" then "" ∷ rest else onto_first c rest

-- Which link the switch asks for. A tracepoint in another section gets none, and `tp` stays nil.
pub data Plan : Type 0 where
  attach_link : Link → Plan
  wrong_section nil_link unsupported : Plan

tracepoint_plan : String → List String → Plan
tracepoint_plan program (group ∷ place ∷ []) = attach_link (tracepoint_link group place program)
tracepoint_plan program _ = wrong_section

plan_by : ProgramType → ProgramSpec → Plan
unfolding split tracepoint_plan
plan_by kprobe p =
    if starts_with p.section_name "kretprobe/"
    then attach_link (kretprobe_link p.attach_to p.name)
    else attach_link (kprobe_link p.attach_to p.name)
plan_by trace_point p =
    if starts_with p.section_name "tracepoint/"
    then tracepoint_plan p.name (split p.attach_to)
    else nil_link
plan_by other_program p = unsupported

unfoldable pub plan_of : ProgramSpec → Plan
unfolding split plan_by
plan_of p = plan_by p.typ p

-- The maps that are to be pinned, where a path is given.
pin_each : List MapSpec → List MapSpec
unfolding ends_with
pin_each [] = []
pin_each (m ∷ ms) =
    (if ends_with m.name ".rodata" then m else record m { pinned = true }) ∷ pin_each ms

unfoldable pub pin_maps : String → List MapSpec → List MapSpec
unfolding pin_each
pin_maps path ms = if str_eq path "" then ms else pin_each ms

-- The calls that were deferred, the last one first.
abbrev pub unwind : List Resource → List Action
unwind = map release

module _ (K : System) where
  -- What a step that can fail did, and its error, or the files after it.
  pub data Made : Type 0 where
    made : List Action → K.Files → Made
    not_made : List Action → Failure → Made

  made_dir : String → Option K.Files → Made
  made_dir path none = not_made [] dir_error
  made_dir path (some files) = made (make_dir path ∷ []) files

  unfoldable pub create_dir : String → K.Files → Made
  unfolding made_dir
  create_dir path files = elim (K.stat files path) [
    | not_exist ↦ made_dir path (K.mkdir files path)
    | stat_error ↦ not_made [] dir_error
    | no_directory ↦ not_made [] dir_error
    | directory ↦ made [] files
  ]

  pinned_file : String → String → List Action → Option K.Files → Made
  pinned_file program file acts none = not_made acts (pin_error program)
  pinned_file program file acts (some files) = made (acts ++ (pin_file file ∷ [])) files

  unfoldable pub pin_program : String → String → K.Files → Made
  unfolding create_dir pinned_file
  pin_program path program files =
      if str_eq path "" then made [] files else elim (create_dir path files) [
        | not_made acts e ↦ not_made acts e
        | made acts more ↦
            pinned_file program (K.join path program) acts (K.pin more (K.join path program))
      ]

  -- What comes of one program: an end with nothing attached, or a link and what became of pinning.
  pub data Turn : Type 0 where
    stops : Ended → Turn
    attached : Link → Made → Turn

  -- The switch and the pinning.
  unfoldable pub turn : String → ProgramSpec → K.Files → Turn
  unfolding plan_of pin_program
  turn path p files = elim (plan_of p) [
    | unsupported ↦ stops (failed only_kprobe)
    | wrong_section ↦ stops (failed (bad_section p.attach_to))
    | nil_link ↦ stops panicked
    | attach_link l ↦
        if K.attach l
        then attached l (pin_program path p.name files)
        else stops (failed (attach_error p.name))
  ]

  -- The loop over the programs, from the n-th on, and what follows it.
  unfoldable pub load_programs :
      ParsedElf → String → ℕ → List ProgramSpec → List Resource → K.Files → List Action × Ended
  unfolding turn
  load_programs elf path n [] defers files =
      (watching ∷ unwind defers, watched (watch_maps elf.watched_maps))
  load_programs elf path n (p ∷ ps) defers files =
      if K.context_done n then (unwind defers, failed context_error) else elim (turn path p files) [
        | stops e ↦ (unwind defers, e)
        | attached l pinned ↦ elim pinned [
          | not_made acts e ↦ (acquire (link l) ∷ acts ++ unwind (link l ∷ defers), failed e)
          | made acts more ↦
              let later = load_programs elf path (n + 1) ps (link l ∷ defers) more in
              (acquire (link l) ∷ acts ++ later.0, later.1)
        ]
      ]

  unfoldable pub load :
      ParsedElf
      → List ProgramSpec
      → (pin_maps_path pin_progs_path : String) → K.Files
      → List Action × Ended
  unfolding pin_maps load_programs
  load elf programs maps_path progs_path files =
      if K.context_done 0
      then (unwind (watcher ∷ []), failed context_error)
      else if K.new_collection (pin_maps maps_path elf.maps) maps_path
      then (let rest = load_programs elf progs_path 1 programs (collection ∷ watcher ∷ []) files in
          (acquire collection ∷ rest.0, rest.1))
      else (unwind (watcher ∷ []), failed collection_error)
