-- ===== src/Tui/Filter/Tests.antt =====
-- Runs of `BuildFilter`, and its theorems at concrete data. A regular expression is a text that has to
-- be the whole value here, and `*` is none.
use text.Mathlib.Text.{◌==◌ as str_eq}
use bumblebee.Common.{
  ◌≡◌, refl, String, Bool, true, false, Option, none, some, List, [], ◌∷◌, if◌then◌else◌,
}
use bumblebee.Loader.Types.{MapEntry}
use bumblebee.Loader.Samples.{parsed_elf, events_watched}
use bumblebee.Common.Dict.{lookup, insert}
use bumblebee.Tui.Filter.{
  Regexp, syntax, no_map, no_key, ok, err, panic, find_map, found_key_name, Filters, any_match,
  filter_match, add_filter, build_filter,
}
use bumblebee.Tui.Filter.Laws.{last_word, build_filter-GoodArgs}

abbrev whole : Regexp
whole = record {
  Regex = String;
  must_compile = λ pattern. if str_eq pattern "*" then none else some pattern;
  match_string = λ regex text. str_eq regex text;
}

abbrev of_pid : String → String → MapEntry
of_pid name pid = record {
  name = name;
  entry = record { key = ("pid", pid) ∷ ("ret", "2") ∷ []; value = ""; hash = 0 };
}

-- Whether an entry passes the filters that arguments give, if they give any.
abbrev passes : List String → MapEntry → Option Bool
passes args e = elim (build_filter whole args parsed_elf.watched_maps) [
  | ok filters ↦ some (filter_match whole filters e)
  | err problem ↦ none
  | panic ↦ none
]

-- The last filter of a map replaces the one before it; the other maps are not filtered.
last_filter_counts :
    passes ("events" ∷ "pid" ∷ "7" ∷ "events" ∷ "pid" ∷ "8" ∷ []) (of_pid "events" "7") ≡ some false
unfolding lookup insert find_map found_key_name any_match filter_match add_filter build_filter
last_filter_counts = refl

other_map_passes : passes ("events" ∷ "pid" ∷ "7" ∷ []) (of_pid "open" "8") ≡ some true
unfolding lookup insert find_map found_key_name any_match filter_match add_filter build_filter
other_map_passes = refl

two_arguments : build_filter whole ("events" ∷ "pid" ∷ []) parsed_elf.watched_maps ≡ err (syntax 2)
unfolding build_filter
two_arguments = refl

no_such_map : build_filter whole ("x" ∷ "pid" ∷ "7" ∷ []) parsed_elf.watched_maps ≡ err (no_map "x")
unfolding lookup insert find_map found_key_name add_filter build_filter
no_such_map = refl

no_such_label :
    build_filter whole ("open" ∷ "x" ∷ "7" ∷ []) parsed_elf.watched_maps ≡ err (no_key "x")
unfolding lookup insert find_map found_key_name add_filter build_filter
no_such_label = refl

build_filter-GoodArgs_example :
    (filters : Option (Filters whole)) × (build_filter whole
        ("events" ∷ "pid" ∷ "7" ∷ [])
        parsed_elf.watched_maps
      ≡ ok filters)
    × ((e : MapEntry)
        → filter_match whole filters e ≡ last_word whole ("events" ∷ "pid" ∷ "7" ∷ []) e true)
unfolding find_map found_key_name
build_filter-GoodArgs_example =
    build_filter-GoodArgs whole parsed_elf.watched_maps ("events" ∷ "pid" ∷ "7" ∷ [])
      ((events_watched, refl, refl), ("7", refl), tt)
