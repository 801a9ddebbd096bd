-- ===== src/Tui/Pipe/Displays.antt =====
-- From the bytes that a loop of pkg/loader reads to what the screen of pkg/tui shows in the end, with
-- all goroutines of `Run`.
use bumblebee.Common.{ℕ, ◌≡◌, ◌∙◌, ◌≢◌, String, true, Option, some, List, ◌++◌}
use bumblebee.Decoder.Types.{Endian, BtfType, BtfMembers, struct, Value}
use bumblebee.Decoder.Decode.{Fields}
use bumblebee.Loader.Types.{ring_buf, BtfMap, Labels, MapEntry}
use bumblebee.Loader.Watch.{
  IncrementInstrument, nil_instrument, SetInstrument, Status, returned, Read, Event, start_ring_buf,
  start_hash_map,
}
use bumblebee.Loader.Watch.Streams.{Stream}
use bumblebee.Loader.Watch.Ticks.{Entry, Ticks}
use bumblebee.Common.Dict.{lookup}
use bumblebee.Tui.Filter.{Regexp, Filters}
use bumblebee.Tui.Table.{MapValue, Tui, ring_rows}
use bumblebee.Tui.Table.Rows.{Shows}
use bumblebee.Tui.Table.Hashes.{shown}
use bumblebee.Tui.Table.Latest.{IsHashTable, last_sent}
use bumblebee.Tui.Display.{
  sent, send_entries, sample_entry, map_entry, passing, ring_buf_displayed, hash_map_displayed,
}
use bumblebee.Tui.Pipe.{Announcement, Key, NotAmong, open_pipe, Pipe, Run}
use bumblebee.Tui.Pipe.Orders.{SendOwn}
use bumblebee.Tui.Pipe.Delivers.{delivered}

module _ (E : Regexp) (filters : Option (Filters E)) (order : Endian) (sprint : Value → String)
    (name : String) (hash_of : Labels → ℕ) where
  -- When `watch` has returned, the table of a ring buffer shows, behind the rows that it had, one for
  -- each sample of the buffer that passes the filters, in order, up to where its loop returned,
  -- whatever other loops, new maps and keys did in between. The samples hold the bytes of a structure;
  -- the loop has an instrument and returns, every loop sends under the name of its map, and the map
  -- has a table from the start, which shows its entries, and is not announced again.
  pub samples_displayed :
      (ms : BtfMembers) (instr : IncrementInstrument) (reads : List Read) (values : List Fields)
      (senders : List (String × List MapEntry)) (loops : List Announcement) (keys : List Key)
      (screen : Tui) (mv : MapValue) (q : Pipe) (n : ℕ) (taken : List MapEntry)
      → instr ≢ nil_instrument
      → Stream order ms reads values returned
      → lookup name senders
        ≡ some (
            send_entries E filters
              (sent (start_ring_buf order sprint (some ms) instr name reads).0))
      → SendOwn senders
      → NotAmong name loops
      → lookup name screen.map_of_maps ≡ some mv
      → mv.typ ≡ ring_buf
      → Shows ring_rows mv
      → Run hash_of (open_pipe senders loops keys screen) n taken q
      → q.ended ≡ true
      → (after : MapValue) × (lookup name q.screen.map_of_maps ≡ some after)
        × (after.entries
            ≡ mv.entries
              ++ passing E filters order sprint name
                  (sample_entry E filters order sprint name)
                  values)
        × Shows ring_rows after
  samples_displayed ms instr reads values senders loops keys screen mv q n taken has_instrument
        stream sends names fresh found ring shows run over =
      let (interleaved, rendered) =
        delivered hash_of name senders screen loops keys q n taken _ names fresh sends run over in
      let (after, later, entries, shows_after) =
        ring_buf_displayed E filters order sprint name hash_of ms instr reads values returned screen
          mv taken has_instrument stream interleaved found ring shows in
      (after, rendered ∙ later, entries, shows_after)

  -- When `watch` has returned, the table of a hash map shows for each hash of labels the last value
  -- that any tick had for it, of the entries that pass the filters, once, whatever other loops, new
  -- maps and keys did in between. The keys of the map hold the bytes of a structure and the values
  -- those of a uint64; every loop sends under the name of its map, and the map has a table from the
  -- start, which shows its entries, each with the hash of its labels and no two with the same, and is
  -- not announced again.
  pub values_displayed :
      (btf : BtfMap) (ms : BtfMembers) (t : BtfType) (instr : SetInstrument) (events : List Event)
      (all : List Entry) (end : Status) (senders : List (String × List MapEntry))
      (loops : List Announcement) (keys : List Key) (screen : Tui) (mv : MapValue) (q : Pipe)
      (n : ℕ) (taken : List MapEntry)
      → btf.key ≡ some (struct ms)
      → btf.value ≡ some t
      → Ticks order ms t events all end
      → lookup name senders
        ≡ some (
            send_entries E filters
              (sent (start_hash_map order sprint (some btf) instr name events).0))
      → SendOwn senders
      → NotAmong name loops
      → lookup name screen.map_of_maps ≡ some mv
      → IsHashTable hash_of mv
      → Run hash_of (open_pipe senders loops keys screen) n taken q
      → q.ended ≡ true
      → (after : MapValue) × (lookup name q.screen.map_of_maps ≡ some after)
        × IsHashTable hash_of after
        × ((h : ℕ)
            → shown h after.entries
              ≡ last_sent hash_of h
                  (passing E filters order sprint name (map_entry E filters order sprint name) all)
                  (shown h mv.entries))
  values_displayed btf ms t instr events all end senders loops keys screen mv q n taken key value
        looped sends names fresh found ok run over =
      let (interleaved, rendered) =
        delivered hash_of name senders screen loops keys q n taken _ names fresh sends run over in
      let (after, later, is_table, latest) =
        hash_map_displayed E filters order sprint name hash_of btf ms t instr events all end screen
          mv taken key value looped interleaved found ok in
      (after, rendered ∙ later, is_table, latest)
