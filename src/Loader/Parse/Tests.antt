-- ===== src/Loader/Parse/Tests.antt =====
-- Runs of `Parse`, and its theorem at concrete data.
use bumblebee.Common.{◌≡◌, refl, ◌↔◌, some, none, [], ◌∷◌}
use bumblebee.Loader.Types.{
  array, contains, ok, err, panic, is_print_map, is_gauge_map, is_counter_map, is_tracked_map,
  value_no_struct, key_no_struct, unsupported_map,
}
use bumblebee.Loader.Parse.{
  get_labels_for_btf_struct, get_labels_for_hash_map_key, clear_btf, watch_map, parse,
}
use bumblebee.Loader.Parse.Laws.{Parses, parse-Parses}
use bumblebee.Loader.Samples.{
  table_types, event_types, events_spec, table_spec, specs, start_spec, parsed_elf,
}

parsed : parse specs ≡ ok parsed_elf
unfolding contains is_print_map is_gauge_map is_counter_map is_tracked_map get_labels_for_btf_struct
    get_labels_for_hash_map_key clear_btf watch_map parse
parsed = refl

-- A ring buffer of numbers, a table by numbers, an array, and a ring buffer without types.
numbers :
    parse
      (start_spec ∷ record events_spec { btf = some (record event_types { value = none }) } ∷ [])
    ≡ err (value_no_struct "events")
unfolding contains is_print_map is_gauge_map is_counter_map is_tracked_map get_labels_for_btf_struct
    get_labels_for_hash_map_key clear_btf watch_map parse
numbers = refl

by_numbers :
    parse
      (record table_spec { btf = some (record table_types { key = table_types.value }) } ∷ specs)
    ≡ err key_no_struct
unfolding contains is_print_map is_gauge_map is_counter_map is_tracked_map get_labels_for_btf_struct
    get_labels_for_hash_map_key clear_btf watch_map parse
by_numbers = refl

of_array : parse (record table_spec { typ = array } ∷ specs) ≡ err unsupported_map
unfolding contains is_print_map is_gauge_map is_counter_map is_tracked_map get_labels_for_btf_struct
    get_labels_for_hash_map_key clear_btf watch_map parse
of_array = refl

no_types : parse (record events_spec { btf = none } ∷ []) ≡ panic
unfolding contains is_print_map is_gauge_map is_counter_map is_tracked_map get_labels_for_btf_struct
    get_labels_for_hash_map_key clear_btf watch_map parse
no_types = refl

parse-Parses_example :
    (parse specs ≡ ok parsed_elf) ↔ Parses specs parsed_elf.maps parsed_elf.watched_maps
parse-Parses_example = parse-Parses specs parsed_elf
