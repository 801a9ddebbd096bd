-- ===== src/Loader/Watch/Dispatch.antt =====
-- `WatchMaps` after `Parse`: every watched map has a goroutine.
use bumblebee.Common.{◌≡◌, refl, ◌↔◌, false, some, List, [], ◌∷◌, arith}
use bumblebee.Decoder.Types.{BtfMembers, struct}
use bumblebee.Loader.Types.{
  BtfMap, MapSpec, WatchedMap, ParsedElf, ok, is_counter_map, is_print_map,
}
use bumblebee.Loader.Parse.{parse}
use bumblebee.Loader.Parse.Laws.{Watches, events, table, Parses, untracked, tracked, parse-Parses}
use bumblebee.Loader.Watch.{
  nil_instrument, Task, ring_task, hash_task, ring_instrument, hash_instrument, task_of, watch_maps,
}

-- A goroutine has the name and the labels of its map. One of a ring buffer has the structure to decode
-- samples by, and no instrument exactly if the section says neither counter nor print. One of a hash
-- map has a structure to decode keys by, and the instrument that its section asks for.
abbrev pub Serves : WatchedMap → Task → Type 0
Serves w (ring_task name labels value_struct instr) =
    (name ≡ w.name)
    × (labels ≡ w.labels)
    × ((ms : BtfMembers) × (value_struct ≡ some ms))
    × ((instr ≡ nil_instrument)
        ↔ ((is_counter_map w.map_spec ≡ false) × (is_print_map w.map_spec ≡ false)))
Serves w (hash_task name labels spec instr) =
    (name ≡ w.name)
    × (labels ≡ w.labels)
    × ((b : BtfMap) × (ms : BtfMembers) × (spec.btf ≡ some b) × (b.key ≡ some (struct ms)))
    × (instr ≡ hash_instrument w.map_spec)

abbrev pub AllServe : List WatchedMap → List Task → Type 0
AllServe [] [] = Unit
AllServe (w ∷ ws) (t ∷ ts) = Serves w t × AllServe ws ts
AllServe _ _ = ⊥

ring_instrument-nil :
    (spec : MapSpec)
    → (ring_instrument spec ≡ nil_instrument)
      ↔ ((is_counter_map spec ≡ false) × (is_print_map spec ≡ false))
unfolding ring_instrument
ring_instrument-nil spec = ground arith

task_of-Watches :
    (spec cleared : MapSpec) (w : WatchedMap)
    → Watches spec w cleared
    → (t : Task) × (task_of w w.map_type ≡ ok t) × Serves w t
unfolding task_of
task_of-Watches spec cleared w (events b ms e f g c is) = (
  ring_task w.name w.labels w.value_struct (ring_instrument w.map_spec),
  ground arith,
  (refl, refl, (ms, ground arith), ring_instrument-nil w.map_spec),
)
task_of-Watches spec cleared w (table b ms e f g c is) = (
  hash_task w.name w.labels w.map_spec (hash_instrument w.map_spec),
  ground arith,
  (refl, refl, (b, ms, ground arith, g), refl),
)

watch_maps-Parses :
    {specs maps : List MapSpec} {ws : List WatchedMap}
    → Parses specs maps ws
    → (ts : List Task) × (watch_maps ws ≡ ok ts) × AllServe ws ts
unfolding watch_maps
watch_maps-Parses Parses.done = ([], refl, tt)
watch_maps-Parses (untracked no_track r) = watch_maps-Parses r
watch_maps-Parses (tracked {spec = spec} {cleared} {w} track is r) =
    let (t, started, serves) = task_of-Watches spec cleared w is in
    let (ts, others, serve) = watch_maps-Parses r in
    (t ∷ ts, ground (arith, started, others), (serves, serve))

-- After `Parse` every watched map gets its goroutine, in order: no map is of an unsupported type.
-- Each has what its loop reads, but a ring buffer whose section says neither counter nor print, which
-- is one that says gauge only, has a nil instrument.
pub watch_maps-parse :
    (specs : List MapSpec) (p : ParsedElf)
    → parse specs ≡ ok p
    → (ts : List Task) × (watch_maps p.watched_maps ≡ ok ts) × AllServe p.watched_maps ts
watch_maps-parse specs p h = watch_maps-Parses ((parse-Parses specs p).0 h)
