-- ===== src/Loader/Attach/Releases.antt =====
-- What `Load` of pkg/loader/loader.go leaves behind: nothing, on any path.
use text.Mathlib.Text.{◌==◌ as str_eq}
use bumblebee.Common.{
  ℕ, ◌+◌, inl, inr, String, Bool, true, false, Option, none, some, List, [], ◌∷◌, ◌++◌,
  if◌then◌else◌, Bool-cases,
}
use bumblebee.Loader.Types.{ParsedElf}
use bumblebee.Loader.Attach.{
  Link, Ended, failed, panicked, only_kprobe, bad_section, attach_error, Turn, stops, attached,
  turn, ProgramSpec, Stat, not_exist, stat_error, directory, no_directory, System, Resource,
  watcher, collection, link, Action, acquire, release, make_dir, pin_file, watching, Plan,
  attach_link, wrong_section, nil_link, unsupported, plan_of, pin_maps, unwind, dir_error, Made,
  made, not_made, made_dir, create_dir, pinned_file, pin_program, load_programs, load,
}

-- Actions that release all that is held, the last acquired first, and all that they acquire.
pub data Closes : List Action → List Resource → Type 0 where
  nothing_left : Closes [] []
  acquires :
      (r : Resource) (acts : List Action) (rs : List Resource)
      → Closes acts (r ∷ rs)
      → Closes (acquire r ∷ acts) rs
  releases :
      (r : Resource) (acts : List Action) (rs : List Resource)
      → Closes acts rs
      → Closes (release r ∷ acts) (r ∷ rs)
  makes_dir :
      (path : String) (acts : List Action) (rs : List Resource)
      → Closes acts rs
      → Closes (make_dir path ∷ acts) rs
  pins_file :
      (path : String) (acts : List Action) (rs : List Resource)
      → Closes acts rs
      → Closes (pin_file path ∷ acts) rs
  watches : (acts : List Action) (rs : List Resource) → Closes acts rs → Closes (watching ∷ acts) rs

pub Closes-unwind : (rs : List Resource) → Closes (unwind rs) rs
Closes-unwind [] = nothing_left
Closes-unwind (r ∷ rs) = releases r (unwind rs) rs (Closes-unwind rs)

-- Actions on files only.
abbrev OnFiles : List Action → Type 0
OnFiles [] = Unit
OnFiles (make_dir path ∷ acts) = OnFiles acts
OnFiles (pin_file path ∷ acts) = OnFiles acts
OnFiles _ = ⊥

OnFiles-append : (xs ys : List Action) → OnFiles xs → OnFiles ys → OnFiles (xs ++ ys)
OnFiles-append [] ys h k = k
OnFiles-append (make_dir path ∷ xs) ys h k = OnFiles-append xs ys h k
OnFiles-append (pin_file path ∷ xs) ys h k = OnFiles-append xs ys h k
OnFiles-append (acquire r ∷ xs) ys h k = absurd h
OnFiles-append (release r ∷ xs) ys h k = absurd h
OnFiles-append (watching ∷ xs) ys h k = absurd h

Closes-OnFiles :
    (xs ys : List Action) (rs : List Resource) → OnFiles xs → Closes ys rs → Closes (xs ++ ys) rs
Closes-OnFiles [] ys rs h c = c
Closes-OnFiles (make_dir path ∷ xs) ys rs h c =
    makes_dir path (xs ++ ys) rs (Closes-OnFiles xs ys rs h c)
Closes-OnFiles (pin_file path ∷ xs) ys rs h c =
    pins_file path (xs ++ ys) rs (Closes-OnFiles xs ys rs h c)
Closes-OnFiles (acquire r ∷ xs) ys rs h c = absurd h
Closes-OnFiles (release r ∷ xs) ys rs h c = absurd h
Closes-OnFiles (watching ∷ xs) ys rs h c = absurd h

module _ (K : System) where
  abbrev MadeOnFiles : Made K → Type 0
  MadeOnFiles (made acts files) = OnFiles acts
  MadeOnFiles (not_made acts e) = OnFiles acts

  create_dir-MadeOnFiles : (path : String) (files : K.Files) → MadeOnFiles (create_dir K path files)
  unfolding create_dir made_dir
  create_dir-MadeOnFiles path files = by_stat (K.stat files path)
    where
      by_mkdir : (o : Option K.Files) → MadeOnFiles (made_dir K path o)
      by_mkdir none = tt
      by_mkdir (some more) = tt

      by_stat :
          (found : Stat)
          → MadeOnFiles (elim found [
            | not_exist ↦ made_dir K path (K.mkdir files path)
            | stat_error ↦ not_made [] dir_error
            | no_directory ↦ not_made [] dir_error
            | directory ↦ made [] files
          ])
      by_stat not_exist = by_mkdir (K.mkdir files path)
      by_stat stat_error = tt
      by_stat no_directory = tt
      by_stat directory = tt

  pin_program-MadeOnFiles :
      (path program : String) (files : K.Files) → MadeOnFiles (pin_program K path program files)
  unfolding pin_program pinned_file
  pin_program-MadeOnFiles path program files = elim (Bool-cases (str_eq path "")) [
    | inl no_path ↦ rw no_path tt
    | inr some_path ↦
        rw some_path (by_dir (create_dir K path files) (create_dir-MadeOnFiles path files))
  ]
    where
      by_pin :
          (acts : List Action) (o : Option K.Files)
          → OnFiles acts
          → MadeOnFiles (pinned_file K program (K.join path program) acts o)
      by_pin acts none h = h
      by_pin acts (some more) h = OnFiles-append acts (pin_file (K.join path program) ∷ []) h tt

      by_dir :
          (m : Made K)
          → MadeOnFiles m
          → MadeOnFiles (elim m [
            | not_made acts e ↦ not_made acts e
            | made acts more ↦
                pinned_file K program (K.join path program) acts (K.pin more (K.join path program))
          ])
      by_dir (not_made acts e) h = h
      by_dir (made acts more) h = by_pin acts (K.pin more (K.join path program)) h

  abbrev TurnOnFiles : Turn K → Type 0
  TurnOnFiles (stops e) = Unit
  TurnOnFiles (attached l pinned) = MadeOnFiles pinned

  turn-OnFiles :
      (path : String) (p : ProgramSpec) (files : K.Files) → TurnOnFiles (turn K path p files)
  unfolding turn
  turn-OnFiles path p files = by_plan (plan_of p)
    where
      by_attach :
          (l : Link) (b : Bool)
          → TurnOnFiles (
              if b
              then attached l (pin_program K path p.name files)
              else stops (failed (attach_error p.name)))
      by_attach l true = pin_program-MadeOnFiles path p.name files
      by_attach l false = tt

      by_plan :
          (q : Plan)
          → TurnOnFiles (elim q [
            | unsupported ↦ stops (failed only_kprobe)
            | wrong_section ↦ stops (failed (bad_section p.attach_to))
            | nil_link ↦ stops panicked
            | attach_link l ↦
                if K.attach l
                then attached l (pin_program K path p.name files)
                else stops (failed (attach_error p.name))
          ])
      by_plan unsupported = tt
      by_plan wrong_section = tt
      by_plan nil_link = tt
      by_plan (attach_link l) = by_attach l (K.attach l)

  load_programs-Closes :
      (elf : ParsedElf) (path : String) (n : ℕ) (ps : List ProgramSpec) (defers : List Resource)
      (files : K.Files)
      → Closes (load_programs K elf path n ps defers files).0 defers
  unfolding load_programs
  load_programs-Closes elf path n [] defers files =
      watches (unwind defers) defers (Closes-unwind defers)
  load_programs-Closes elf path n (p ∷ ps) defers files = elim (Bool-cases (K.context_done n)) [
    | inl over ↦ rw over (Closes-unwind defers)
    | inr goes ↦ rw goes (
        by_turn (turn K path p files) (turn-OnFiles path p files)
          (λ rs more. load_programs-Closes elf path (n + 1) ps rs more))
  ]
    where
      by_turn :
          (t : Turn K)
          → TurnOnFiles t
          → ((rs : List Resource) (more : K.Files)
              → Closes (load_programs K elf path (n + 1) ps rs more).0 rs)
          → Closes
              (elim t as (λ u. List Action × Ended) [
                | stops e ↦ (unwind defers, e)
                | attached l pinned ↦ elim pinned [
                  | not_made acts e ↦
                      (acquire (link l) ∷ acts ++ unwind (link l ∷ defers), failed e)
                  | made acts more ↦
                      let later = load_programs K elf path (n + 1) ps (link l ∷ defers) more in
                      (acquire (link l) ∷ acts ++ later.0, later.1)
                ]
              ]).0
              defers
      by_turn (stops e) h later = Closes-unwind defers
      by_turn (attached l (not_made acts e)) h later =
          acquires (link l) _ defers
            (Closes-OnFiles acts _ (link l ∷ defers) h (Closes-unwind (link l ∷ defers)))
      by_turn (attached l (made acts more)) h later =
          acquires (link l) _ defers
            (Closes-OnFiles acts _ (link l ∷ defers) h (later (link l ∷ defers) more))

  -- However `Load` ends, with an error, a panic, or as `WatchMaps` ends, it has released all that it
  -- acquired and the watcher: the links that were attached, the last one first, then the collection,
  -- and the watcher in the end. Nothing is released that is not held.
  pub load-Closes :
      (elf : ParsedElf) (programs : List ProgramSpec) (maps_path progs_path : String)
      (files : K.Files)
      → Closes (load K elf programs maps_path progs_path files).0 (watcher ∷ [])
  unfolding load
  load-Closes elf programs maps_path progs_path files = elim (Bool-cases (K.context_done 0)) [
    | inl over ↦ rw over (Closes-unwind (watcher ∷ []))
    | inr goes ↦ elim (Bool-cases (K.new_collection (pin_maps maps_path elf.maps) maps_path)) [
      | inl loaded ↦
          rw (goes, loaded)
            (acquires collection _ (watcher ∷ [])
              (load_programs-Closes elf progs_path 1 programs (collection ∷ watcher ∷ []) files))
      | inr refused ↦ rw (goes, refused) (Closes-unwind (watcher ∷ []))
    ]
  ]
