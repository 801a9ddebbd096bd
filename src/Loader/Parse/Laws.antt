-- ===== src/Loader/Parse/Laws.antt =====
-- What `Parse` of pkg/loader/loader.go accepts, and what it makes of it.
use bumblebee.Common.{
  ◌≡◌, refl, ◌≢◌, ◌⊎◌, ◌↔◌, inl, inr, true, false, Option, none, some, List, [], ◌∷◌, arith, not,
  Bool-cases,
}
use bumblebee.Decoder.Types.{BtfType, int, typedef, float, other, struct, BtfMembers}
use bumblebee.Loader.Types.{
  MapType, unspecified, other_map, hash, array, ring_buf, perf_event_array, BtfMap, MapSpec,
  WatchedMap, ParsedElf, LoadError, Result, ok, err, panic, is_tracked_map,
}
use bumblebee.Loader.Parse.{as_struct, get_labels_for_btf_struct, watch_map, parse}

-- What the loader can watch, and what it keeps of it: ring buffers of a structure, and hash maps with
-- a structure as the key. The labels are the members' names.
pub data Watches (spec : MapSpec) (w : WatchedMap) (cleared : MapSpec) : Type 0 where
  events :
      (b : BtfMap) (ms : BtfMembers)
      → spec.typ ≡ ring_buf
      → spec.btf ≡ some b
      → b.value ≡ some (struct ms)
      → cleared ≡ record spec { btf = none; value_size = 0 }
      → w ≡ record {
        name = spec.name;
        labels = get_labels_for_btf_struct ms;
        btf = some b;
        map_type = ring_buf;
        map_spec = cleared;
        value_struct = some ms;
      }
      → Watches spec w cleared
  table :
      (b : BtfMap) (ms : BtfMembers)
      → spec.typ ≡ hash
      → spec.btf ≡ some b
      → b.key ≡ some (struct ms)
      → cleared ≡ spec
      → w ≡ record {
        name = spec.name;
        labels = get_labels_for_btf_struct ms;
        btf = some b;
        map_type = hash;
        map_spec = spec;
        value_struct = none;
      }
      → Watches spec w cleared

-- `watch_map` accepts exactly those.
watch_map-Watches :
    (spec cleared : MapSpec) (w : WatchedMap)
    → Watches spec w cleared
    → watch_map spec ≡ ok (cleared, w)
unfolding watch_map
watch_map-Watches spec cleared w (events b ms e f g c is) = ground arith
watch_map-Watches spec cleared w (table b ms e f g c is) = ground arith

as_struct-cases :
    (o : Option BtfType) → ((ms : BtfMembers) × (o ≡ some (struct ms))) ⊎ (as_struct o ≡ none)
as_struct-cases none = inr refl
as_struct-cases (some (struct ms)) = inl (ms, refl)
as_struct-cases (some other) = inr refl
as_struct-cases (some (int name size bits e)) = inr refl
as_struct-cases (some (typedef name t)) = inr refl
as_struct-cases (some (float n)) = inr refl
as_struct-cases (some (BtfType.array t n)) = inr refl

abbrev CanWatch : MapSpec → Type 0
CanWatch spec = (cleared : MapSpec) × (w : WatchedMap) × Watches spec w cleared

abbrev Refused : MapSpec → Type 0
Refused spec = (r : MapSpec × WatchedMap) → watch_map spec ≢ ok r

watch_map-outcome :
    (spec : MapSpec) (t : MapType) (o : Option BtfMap)
    → spec.typ ≡ t
    → spec.btf ≡ o
    → CanWatch spec ⊎ Refused spec
unfolding watch_map
watch_map-outcome spec ring_buf none e f = inr (λ r h. ground arith)
watch_map-outcome spec hash none e f = inr (λ r h. ground arith)
watch_map-outcome spec ring_buf (some b) e f = elim (as_struct-cases b.value) [
  | inl (ms, g) ↦ inl (_, _, events b ms e f g refl refl)
  | inr g ↦ inr (λ r h. ground arith)
]
watch_map-outcome spec hash (some b) e f = elim (as_struct-cases b.key) [
  | inl (ms, g) ↦ inl (_, _, table b ms e f g refl refl)
  | inr g ↦ inr (λ r h. ground arith)
]
watch_map-outcome spec unspecified o e f = inr (λ r h. ground arith)
watch_map-outcome spec array o e f = inr (λ r h. ground arith)
watch_map-outcome spec other_map o e f = inr (λ r h. ground arith)
watch_map-outcome spec perf_event_array o e f = inr (λ r h. ground arith)

Watches-watch_map :
    (spec cleared : MapSpec) (w : WatchedMap)
    → watch_map spec ≡ ok (cleared, w)
    → Watches spec w cleared
Watches-watch_map spec cleared w h = elim (watch_map-outcome spec spec.typ spec.btf refl refl) [
  | inl (c, v, is) ↦
      let same : c ≡ cleared = cc (watch_map-Watches spec c v is) in
      let same_map : v ≡ w = cc (watch_map-Watches spec c v is) in rw (← same, ← same_map) is
  | inr not ↦ absurd (not (cleared, w) h)
]

-- A list of maps, the maps that go on to the kernel, and those that are watched: maps of no tracked
-- section are left as they are, and all others are watched.
pub data Parses : List MapSpec → List MapSpec → List WatchedMap → Type 0 where
  done : Parses [] [] []
  untracked :
      {spec : MapSpec} {specs maps : List MapSpec} {watched : List WatchedMap}
      → is_tracked_map spec ≡ false
      → Parses specs maps watched
      → Parses (spec ∷ specs) (spec ∷ maps) watched
  tracked :
      {spec cleared : MapSpec} {w : WatchedMap} {specs maps : List MapSpec}
      {watched : List WatchedMap}
      → is_tracked_map spec ≡ true
      → Watches spec w cleared
      → Parses specs maps watched
      → Parses (spec ∷ specs) (cleared ∷ maps) (w ∷ watched)

parse_complete :
    {specs maps : List MapSpec} {watched : List WatchedMap}
    → Parses specs maps watched
    → parse specs ≡ ok (record { maps = maps; watched_maps = watched })
unfolding parse
parse_complete done = refl
parse_complete (untracked no_track r) = ground (arith, parse_complete r)
parse_complete (tracked {spec = spec} {cleared} {w} track is r) =
    ground (arith, parse_complete r, watch_map-Watches spec cleared w is)

-- Splits on a result; the failures stay together.
abbrev Failure : {A : Type 0} → Result A → Type 0
Failure r = ((e : LoadError) × (r ≡ err e)) ⊎ (r ≡ panic)

Result-cases : {A : Type 0} (r : Result A) → ((a : A) × (r ≡ ok a)) ⊎ Failure r
Result-cases (ok a) = inl (a, refl)
Result-cases (err e) = inr (inl (e, refl))
Result-cases panic = inr (inr refl)

parse_sound :
    (specs : List MapSpec) (p : ParsedElf) → parse specs ≡ ok p → Parses specs p.maps p.watched_maps
unfolding parse
parse_sound [] p h =
    let same : record { maps = []; watched_maps = [] } ≡ p = cc h in rw (← same) done
parse_sound (spec ∷ specs) p h = elim (Result-cases (parse specs)) [
  | inr fails ↦ absurd (ground (arith, fails))
  | inl (q, parsed) ↦ elim (Bool-cases (is_tracked_map spec)) [
    | inr no_track ↦
        let same : record { maps = spec ∷ q.maps; watched_maps = q.watched_maps } ≡ p =
          ground arith in
        rw (← same) (untracked no_track (parse_sound specs q parsed))
    | inl track ↦ elim (Result-cases (watch_map spec)) [
      | inr fails ↦ absurd (ground (arith, fails))
      | inl ((cleared, w), watched) ↦
          let same : record { maps = cleared ∷ q.maps; watched_maps = w ∷ q.watched_maps } ≡ p =
            ground arith in
          rw (← same)
            (tracked track (Watches-watch_map spec cleared w watched) (parse_sound specs q parsed))
    ]
  ]
]

-- `Parse` accepts a list of maps exactly if each map of a tracked section is a ring buffer of a
-- structure or a hash map with a structure as the key. It watches those, in order, with the members'
-- names as labels, and clears the types of the ring buffers only.
pub parse-Parses :
    (specs : List MapSpec) (p : ParsedElf)
    → (parse specs ≡ ok p) ↔ Parses specs p.maps p.watched_maps
parse-Parses specs p = (parse_sound specs p, parse_complete)
