-- ===== src/Loader/Parse.antt =====
-- pkg/loader/loader.go: `Parse`, on the maps of the specification that cilium/ebpf reads from the file.
-- The programs of the specification are only logged there. The maps stand in the order of the loop.
pub mod Laws
mod Tests
use bumblebee.Common.{
  String, Bool, true, false, Option, none, some, List, [], ◌∷◌, not, if◌then◌else◌,
}
use bumblebee.Decoder.Types.{BtfType, struct, BtfMembers, end, field}
use bumblebee.Loader.Types.{
  MapType, hash, array, ring_buf, perf_event_array, BtfMap, MapSpec, WatchedMap, ParsedElf,
  LoadError, value_no_struct, key_no_struct, unsupported_map, Result, ok, err, panic, ◌>>=◌,
  is_tracked_map,
}

-- The type assertion `.(*btf.Struct)`.
abbrev pub as_struct : Option BtfType → Option BtfMembers
as_struct (some (struct ms)) = some ms
as_struct _ = none

unfoldable pub get_labels_for_btf_struct : BtfMembers → List String
get_labels_for_btf_struct end = []
get_labels_for_btf_struct (field name t at ms) = name ∷ get_labels_for_btf_struct ms

-- The error's text reads `BTF.Value`.
unfoldable pub get_labels_for_hash_map_key : MapSpec → Result (List String)
unfolding get_labels_for_btf_struct
get_labels_for_hash_map_key spec = elim spec.btf [
  | none ↦ panic
  | some btf ↦ elim (as_struct btf.key) [
    | some ms ↦ ok (get_labels_for_btf_struct ms)
    | none ↦ elim btf.value [ none ↦ panic | some t ↦ err key_no_struct ]
  ]
]

abbrev is_event_map : MapType → Bool
is_event_map ring_buf = true
is_event_map perf_event_array = true
is_event_map _ = false

-- The check and the hack for maps of events: the specification that goes on to the kernel has no BTF.
unfoldable pub clear_btf : MapSpec → Result MapSpec
clear_btf spec =
    if is_event_map spec.typ
    then elim spec.btf [
      | none ↦ panic
      | some btf ↦ elim (as_struct btf.value) [
        | none ↦ err (value_no_struct spec.name)
        | some ms ↦ ok (record spec { btf = none; value_size = 0 })
      ]
    ]
    else ok spec

-- The switch over the type. `before` is the pointer that the watched map keeps.
labels_of : MapType → Option BtfMap → MapSpec → Result (List String × Option BtfMembers)
labels_of ring_buf before spec = elim before [
  | none ↦ panic
  | some btf ↦ elim (as_struct btf.value) [
    | none ↦ panic
    | some ms ↦ ok (get_labels_for_btf_struct ms, some ms)
  ]
]
labels_of hash before spec = do labels ← get_labels_for_hash_map_key spec; ok (labels, none)
labels_of _ before spec = err unsupported_map

-- The body of the loop for a tracked map.
unfoldable pub watch_map : MapSpec → Result (MapSpec × WatchedMap)
unfolding get_labels_for_btf_struct get_labels_for_hash_map_key clear_btf labels_of
watch_map spec = do
  cleared ← clear_btf spec
  (labels, value_struct) ← labels_of cleared.typ spec.btf cleared
  ok (
    cleared,
    record {
      name = spec.name;
      labels = labels;
      btf = spec.btf;
      map_type = spec.typ;
      map_spec = cleared;
      value_struct = value_struct;
    },
  )

unfoldable pub parse : List MapSpec → Result ParsedElf
parse [] = ok (record { maps = []; watched_maps = [] })
parse (spec ∷ specs) =
    let rest = parse specs in
    if not (is_tracked_map spec)
    then (do parsed ← rest; ok (record parsed { maps = spec ∷ parsed.maps }))
    else do
      (cleared, watched) ← watch_map spec
      parsed ← rest
      ok (record { maps = cleared ∷ parsed.maps; watched_maps = watched ∷ parsed.watched_maps })
