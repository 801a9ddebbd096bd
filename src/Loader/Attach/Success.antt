-- ===== src/Loader/Attach/Success.antt =====
-- When `Load` of pkg/loader/loader.go comes to watch the maps, and where it panics.
use mathlib.Core.List.{append-nil}
use bumblebee.Common.{
  ℕ, ◌+◌, ◌≡◌, sym, ap, ◌∙◌, String, true, false, List, [], ◌∷◌, ◌++◌, length, arith,
}
use bumblebee.Loader.Types.{MapSpec, ParsedElf, ok}
use bumblebee.Loader.Parse.{parse}
use bumblebee.Loader.Watch.{watch_maps, Task}
use bumblebee.Loader.Watch.Dispatch.{AllServe, watch_maps-parse}
use bumblebee.Loader.Attach.{
  ProgramSpec, System, Resource, watcher, collection, link, Action, watched, Link, attach_link,
  plan_of, pin_maps, made, attached, turn, pin_program, load_programs, load,
}

module _ (K : System) where
  -- Programs, from the n-th on, that all get a link, and are pinned if a path is given, before the
  -- context is done, with the files after them.
  pub data Attachable (path : String) : ℕ → List ProgramSpec → K.Files → K.Files → Type 0 where
    no_programs : (n : ℕ) (files : K.Files) → Attachable path n [] files files
    one_more :
        (n : ℕ) (p : ProgramSpec) (ps : List ProgramSpec) (l : Link) (acts : List Action)
        (files more last : K.Files)
        → K.context_done n ≡ false
        → plan_of p ≡ attach_link l
        → K.attach l ≡ true
        → pin_program K path p.name files ≡ made acts more
        → Attachable path (n + 1) ps more last
        → Attachable path n (p ∷ ps) files last

  turn-attached :
      (path : String) (p : ProgramSpec) (l : Link) (acts : List Action) (files more : K.Files)
      → plan_of p ≡ attach_link l
      → K.attach l ≡ true
      → pin_program K path p.name files ≡ made acts more
      → turn K path p files ≡ attached l (made acts more)
  unfolding turn
  turn-attached path p l acts files more planned attaches pinned =
      ground (arith, planned, attaches, pinned)

  module _ (elf : ParsedElf) (path : String) where
    -- Behind attachable programs the loop ends as it ends from the next one on.
    load_programs-Attachable :
        (n : ℕ) (ps rest : List ProgramSpec) (defers : List Resource) (files last : K.Files)
        → Attachable path n ps files last
        → (held : List Resource) × ((load_programs K elf path n (ps ++ rest) defers files).1
            ≡ (load_programs K elf path (n + length ps) rest held last).1)
    unfolding load_programs
    load_programs-Attachable n [] rest defers files last (no_programs _ _) =
        (defers, ap (λ k. (load_programs K elf path k rest defers files).1) (omega arith))
    load_programs-Attachable n (p ∷ ps) rest defers files last
          (one_more _ _ _ l acts _ more _ goes planned attaches pinned r) =
        let (held, later) =
          load_programs-Attachable (n + 1) ps rest (link l ∷ defers) more last r in
        (
          held,
          rw (goes, turn-attached path p l acts files more planned attaches pinned)
              (later ∙ ap (λ k. (load_programs K elf path k rest held last).1) (omega arith)),
        )

  -- The context is not done at the entry, and the kernel takes the collection.
  abbrev pub IsLoaded : ParsedElf → String → Type 0
  IsLoaded elf maps_path =
      (K.context_done 0 ≡ false) × (K.new_collection (pin_maps maps_path elf.maps) maps_path ≡ true)

  pub load-loaded :
      (elf : ParsedElf) (programs : List ProgramSpec) (maps_path progs_path : String)
      (files : K.Files)
      → IsLoaded elf maps_path
      → (load K elf programs maps_path progs_path files).1
        ≡ (load_programs K elf progs_path 1 programs (collection ∷ watcher ∷ []) files).1
  unfolding load
  load-loaded elf programs maps_path progs_path files (goes, loaded) = ground (arith, goes, loaded)

  pub load_watches :
      (elf : ParsedElf) (programs : List ProgramSpec) (maps_path progs_path : String)
      (files last : K.Files)
      → IsLoaded elf maps_path
      → Attachable progs_path 1 programs files last
      → (load K elf programs maps_path progs_path files).1 ≡ watched (watch_maps elf.watched_maps)
  unfolding load_programs
  load_watches elf programs maps_path progs_path files last loaded attachable =
      let (held, same) =
        load_programs-Attachable elf progs_path 1 programs [] (collection ∷ watcher ∷ []) files last
          attachable in
      load-loaded elf programs maps_path progs_path files loaded
      ∙ ap (λ ps. (load_programs K elf progs_path 1 ps (collection ∷ watcher ∷ []) files).1)
          (sym (append-nil programs))
      ∙ same

  -- After `Parse`, `Load` comes to watch the maps, with a goroutine for each, if the collection is
  -- loaded and all programs are attached, and pinned where a path is given, before the context is done.
  pub load_serves :
      (specs : List MapSpec) (elf : ParsedElf) (programs : List ProgramSpec)
      (maps_path progs_path : String) (files last : K.Files)
      → parse specs ≡ ok elf
      → IsLoaded elf maps_path
      → Attachable progs_path 1 programs files last
      → (ts : List Task) × ((load K elf programs maps_path progs_path files).1 ≡ watched (ok ts))
        × AllServe elf.watched_maps ts
  load_serves specs elf programs maps_path progs_path files last parsed loaded attachable =
      let (ts, watches, serve) = watch_maps-parse specs elf parsed in
      (
        ts,
        load_watches elf programs maps_path progs_path files last loaded attachable
            ∙ ap watched watches,
        serve,
      )
