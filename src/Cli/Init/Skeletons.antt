-- ===== src/Cli/Init/Skeletons.antt =====
-- The skeletons that `bee init` can write, and what the loader makes of the maps of the programs that
-- are compiled from them.
use Prim.Native.String.{◌++◌ as ◌<>◌}
use bumblebee.Common.{◌≡◌, refl, String, Bool, true, ◌&&◌}
use bumblebee.Cli.Init.Kinds.{
  TemplateData, ringbuf_template, hash_map_template, open_at_template,
  map_output_type_to_template_data,
}
use bumblebee.Cli.Init.Templates.{
  lines, file_template, open_at_map, ringbuf_map_tmpl, hash_map_tmpl, open_at_struct, open_at_body,
  ringbuf_struct, ringbuf_body, hash_key_struct, hash_map_body,
}
use bumblebee.Cli.Init.{render_map, execute}
use bumblebee.Loader.Types.{
  MapType, hash, ring_buf, WatchedMap, ok, contains, is_tracked_map, is_counter_map, is_gauge_map,
  is_print_map,
}
use bumblebee.Loader.Watch.{
  IncrementInstrument, increment_counter, nil_instrument, SetInstrument, set_counter, Task,
  ring_task, hash_task, task_of, ring_instrument, hash_instrument,
}

pub data Output : Type 0 where
  print counter gauge : Output

pub data Skeleton : Type 0 where
  open_at : Skeleton
  ring_of hash_of : Output → Skeleton

unfoldable pub output_name : Output → String
output_name print = "print"
output_name counter = "counter"
output_name gauge = "gauge"

unfoldable pub data_of : Skeleton → TemplateData
unfolding output_name
data_of open_at = open_at_template
data_of (ring_of o) = render_map (output_name o) ringbuf_template
data_of (hash_of o) = render_map (output_name o) hash_map_template

unfoldable pub text_of : Skeleton → String
unfolding data_of
text_of s = execute (data_of s)

-- The section of the map.
unfoldable pub section : Skeleton → String
unfolding output_name
section open_at = ".maps.print"
section (ring_of o) = ".maps." <> output_name o
section (hash_of o) = ".maps." <> output_name o

unfoldable pub kind : Skeleton → MapType
kind open_at = ring_buf
kind (ring_of o) = ring_buf
kind (hash_of o) = hash

-- The goroutine for the map of a skeleton: the instrument is that of the output type, but for a ring
-- buffer whose output is a gauge.
ring_expected : Output → IncrementInstrument
ring_expected print = IncrementInstrument.noop
ring_expected counter = increment_counter
ring_expected gauge = nil_instrument

hash_expected : Output → SetInstrument
hash_expected print = SetInstrument.noop
hash_expected counter = set_counter
hash_expected gauge = SetInstrument.gauge

unfoldable pub task_for : Skeleton → WatchedMap → Task
unfolding ring_expected hash_expected
task_for open_at m = ring_task m.name m.labels m.value_struct IncrementInstrument.noop
task_for (ring_of o) m = ring_task m.name m.labels m.value_struct (ring_expected o)
task_for (hash_of o) m = hash_task m.name m.labels m.map_spec (hash_expected o)

-- The declaration of the map ends with its section.
unfoldable pub declared : Skeleton → Bool
unfolding text_of section
declared s = contains (text_of s) ("SEC(\"" <> (section s <> "\");\n"))

declares : (s : Skeleton) → declared s ≡ true
unfolding declared contains text_of data_of render_map execute section output_name lines
    file_template open_at_map ringbuf_map_tmpl hash_map_tmpl open_at_struct open_at_body
    map_output_type_to_template_data ringbuf_template hash_map_template open_at_template
    ringbuf_struct ringbuf_body hash_key_struct hash_map_body
declares open_at = refl
declares (ring_of print) = refl
declares (ring_of counter) = refl
declares (ring_of gauge) = refl
declares (hash_of print) = refl
declares (hash_of counter) = refl
declares (hash_of gauge) = refl

struct_of : Skeleton → String
struct_of open_at = open_at_struct
struct_of (ring_of o) = ringbuf_struct
struct_of (hash_of o) = hash_key_struct

body_of : Skeleton → String
body_of open_at = open_at_body
body_of (ring_of o) = ringbuf_body
body_of (hash_of o) = hash_map_body

-- The text has the structure, the declaration of the map, and the probe.
unfoldable pub complete : Skeleton → Bool
unfolding declared struct_of body_of
complete s = declared s && (contains (text_of s) (struct_of s) && contains (text_of s) (body_of s))

pub completes : (s : Skeleton) → complete s ≡ true
unfolding complete struct_of body_of declared contains text_of data_of render_map execute section
    output_name lines file_template open_at_map ringbuf_map_tmpl hash_map_tmpl open_at_struct
    open_at_body map_output_type_to_template_data ringbuf_template hash_map_template
    open_at_template ringbuf_struct ringbuf_body hash_key_struct hash_map_body
completes open_at = refl
completes (ring_of print) = refl
completes (ring_of counter) = refl
completes (ring_of gauge) = refl
completes (hash_of print) = refl
completes (hash_of counter) = refl
completes (hash_of gauge) = refl

watches :
    (s : Skeleton) (m : WatchedMap)
    → m.map_spec.section_name ≡ section s
    → (is_tracked_map m.map_spec ≡ true) × (task_of m (kind s) ≡ ok (task_for s m))
unfolding kind task_for task_of section output_name ring_expected hash_expected ring_instrument
    hash_instrument is_tracked_map is_counter_map is_print_map is_gauge_map contains
watches open_at m h = (rw h, rw h)
watches (ring_of print) m h = (rw h, rw h)
watches (ring_of counter) m h = (rw h, rw h)
watches (ring_of gauge) m h = (rw h, rw h)
watches (hash_of print) m h = (rw h, rw h)
watches (hash_of counter) m h = (rw h, rw h)
watches (hash_of gauge) m h = (rw h, rw h)

-- The text of a skeleton declares its map in the section of its output type. A map in that section is
-- tracked by the loader, and its goroutine has the instrument of the output type; but a ring buffer
-- whose output is a gauge gets a nil instrument.
pub skeleton_watched :
    (s : Skeleton) (m : WatchedMap)
    → m.map_spec.section_name ≡ section s
    → (declared s ≡ true)
      × (is_tracked_map m.map_spec ≡ true)
      × (task_of m (kind s) ≡ ok (task_for s m))
skeleton_watched s m h = let (tracked, task) = watches s m h in (declares s, tracked, task)
