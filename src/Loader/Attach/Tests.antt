-- ===== src/Loader/Attach/Tests.antt =====
-- Runs of `Load`, and its theorems at concrete data. The file system is the directories that there are.
use text.Mathlib.Text.{◌==◌ as str_eq}
use bumblebee.Common.{
  ◌≡◌, refl, String, Bool, true, false, some, List, [], ◌∷◌, ◌++◌, if◌then◌else◌,
}
use bumblebee.Loader.Types.{
  ok, contains, is_print_map, is_gauge_map, is_counter_map, is_tracked_map,
}
use bumblebee.Loader.Parse.{
  get_labels_for_btf_struct, get_labels_for_hash_map_key, clear_btf, watch_map, parse,
}
use bumblebee.Loader.Attach.{
  kprobe, trace_point, other_program, ProgramSpec, kprobe_link, tracepoint_link, not_exist,
  directory, System, watcher, collection, link, acquire, release, make_dir, pin_file, watching,
  failed, panicked, bad_section, only_kprobe, ends_with, split, plan_of, pin_maps, create_dir,
  pin_program, turn, load_programs, load,
}
use bumblebee.Loader.Attach.Releases.{Closes, load-Closes}
use bumblebee.Loader.Attach.Success.{Attachable, no_programs, one_more}
use bumblebee.Loader.Samples.{specs, parsed_elf}

abbrev is_dir : String → List String → Bool
is_dir path [] = false
is_dir path (d ∷ ds) = if str_eq path d then true else is_dir path ds

-- A kernel that takes everything.
abbrev accepting : System
accepting = record {
  Files = List String;
  context_done = λ n. false;
  new_collection = λ maps path. true;
  attach = λ l. true;
  stat = λ files path. if is_dir path files then directory else not_exist;
  mkdir = λ files path. some (path ∷ files);
  join = λ path name. path;
  pin = λ files path. some files;
}

abbrev connect : ProgramSpec
connect = record {
  name = "connect";
  section_name = "kprobe/tcp_v4_connect";
  attach_to = "tcp_v4_connect";
  typ = kprobe;
}

abbrev connect_ret : ProgramSpec
connect_ret = record {
  name = "connect_ret";
  section_name = "kretprobe/tcp_v4_connect";
  attach_to = "tcp_v4_connect";
  typ = kprobe;
}

abbrev exit : ProgramSpec
exit = record {
  name = "exit";
  section_name = "tracepoint/sched/sched_process_exit";
  attach_to = "sched/sched_process_exit";
  typ = trace_point;
}

abbrev other_section : ProgramSpec
other_section = record {
  name = "raw";
  section_name = "tp/sched/sched_process_exit";
  attach_to = "sched/sched_process_exit";
  typ = trace_point;
}

all_actions :
    (load accepting parsed_elf (connect ∷ exit ∷ []) "" "/pins" []).0
    ≡ acquire collection
      ∷ acquire (link (kprobe_link "tcp_v4_connect" "connect"))
      ∷ make_dir "/pins"
      ∷ pin_file "/pins"
      ∷ acquire (link (tracepoint_link "sched" "sched_process_exit" "exit"))
      ∷ pin_file "/pins"
      ∷ watching
      ∷ release (link (tracepoint_link "sched" "sched_process_exit" "exit"))
      ∷ release (link (kprobe_link "tcp_v4_connect" "connect"))
      ∷ release collection
      ∷ release watcher
      ∷ []
unfolding ends_with split plan_of pin_maps create_dir pin_program turn load_programs load
all_actions = refl

no_tracepoint :
    (load accepting parsed_elf (record exit { attach_to = "sched" } ∷ []) "" "" []).1
    ≡ failed (bad_section "sched")
unfolding ends_with split plan_of pin_maps create_dir pin_program turn load_programs load
no_tracepoint = refl

other_kind :
    (load accepting parsed_elf (connect_ret ∷ record exit { typ = other_program } ∷ []) "" "" []).1
    ≡ failed only_kprobe
unfolding ends_with split plan_of pin_maps create_dir pin_program turn load_programs load
other_kind = refl

read_only : ends_with "connect.rodata" ".rodata" ≡ true
unfolding ends_with
read_only = refl

load-Closes_example :
    Closes (load accepting parsed_elf (connect ∷ other_section ∷ []) "" "/pins" []).0 (watcher ∷ [])
load-Closes_example = load-Closes accepting parsed_elf (connect ∷ other_section ∷ []) "" "/pins" []

parsed : parse specs ≡ ok parsed_elf
unfolding contains is_print_map is_gauge_map is_counter_map is_tracked_map get_labels_for_btf_struct
    get_labels_for_hash_map_key clear_btf watch_map parse
parsed = refl

connect-Attachable : Attachable accepting "/pins" 1 (connect ∷ []) [] ("/pins" ∷ [])
unfolding plan_of create_dir pin_program
connect-Attachable =
    one_more 1 connect [] (kprobe_link "tcp_v4_connect" "connect")
      (make_dir "/pins" ∷ pin_file "/pins" ∷ []) [] ("/pins" ∷ []) ("/pins" ∷ []) refl refl refl
      refl (no_programs 2 ("/pins" ∷ []))

-- The link of a tracepoint in another section is nil, and closing it panics.
nil_link_panics :
    (load accepting parsed_elf ((connect ∷ []) ++ (other_section ∷ exit ∷ [])) "" "/pins" []).1
    ≡ panicked
unfolding ends_with split plan_of pin_maps create_dir pin_program turn load_programs load
nil_link_panics = refl
