-- ===== src/Tui/Filter/Laws.antt =====
-- Which entries pass the filters that the arguments of the command line ask for.
use text.Mathlib.Text.{◌==◌ as str_eq}
use bumblebee.Common.{
  ◌%◌, ◌≡◌, refl, ap, ◌∙◌, ◌++◌, String, Bool, true, false, ◌&&◌, ◌||◌, Option, none, some, List,
  [], ◌∷◌, length, length-append, arith, if◌then◌else◌,
}
use bumblebee.Common.Dict.{lookup, insert, lookup-insert}
use bumblebee.Loader.Types.{WatchedMap, Labels, MapEntry}
use bumblebee.Tui.Filter.{
  Regexp, Filter, ok, panic, find_map, found_key_name, Filters, any_match, filter_match, add_filter,
  add_filters, build_filter,
}

module _ (E : Regexp) where
  -- Some label of the name has a value that matches.
  abbrev pub has_match : E.Regex → String → Labels → Bool
  has_match regex label_name [] = false
  has_match regex label_name ((k, v) ∷ labels) =
      (str_eq k label_name && E.match_string regex v) || has_match regex label_name labels

  -- What the last three arguments that name the entry's map say, or else what was said before.
  abbrev pub last_word : List String → MapEntry → Bool → Bool
  last_word (map_name ∷ label_name ∷ pattern ∷ args) e before = last_word args e (
      if str_eq map_name e.name
      then elim (E.must_compile pattern) [
        | none ↦ before
        | some regex ↦ has_match regex label_name e.entry.key
      ]
      else before)
  last_word _ e before = before

  -- Three by three, the arguments name a watched map, one of its labels, and a regular expression.
  abbrev pub GoodArgs : List WatchedMap → List String → Type 0
  GoodArgs watched [] = Unit
  GoodArgs watched (map_name ∷ label_name ∷ pattern ∷ args) =
      ((m : WatchedMap) × (find_map map_name watched ≡ some m)
        × (found_key_name label_name m.labels ≡ true))
      × ((regex : E.Regex) × (E.must_compile pattern ≡ some regex))
      × GoodArgs watched args
  GoodArgs watched _ = ⊥

  any_match-has_match :
      (f : Filter E.Regex) (labels : Labels)
      → any_match E f labels ≡ has_match f.regex f.key_field labels
  unfolding any_match
  any_match-has_match f [] = refl
  any_match-has_match f ((k, v) ∷ labels) = rw (any_match-has_match f labels)

  filter_match-insert :
      (filters : Filters E) (f : Filter E.Regex) (e : MapEntry)
      → filter_match E (some (insert f.map_name f filters)) e ≡ (
          if str_eq f.map_name e.name
          then has_match f.regex f.key_field e.entry.key
          else filter_match E (some filters) e)
  unfolding filter_match
  filter_match-insert filters f e =
      ground (arith, lookup-insert f.map_name e.name f filters, any_match-has_match f e.entry.key)

  filter_match-none : (e : MapEntry) → filter_match E none e ≡ true
  unfolding filter_match
  filter_match-none e = refl

  filter_match-nil : (e : MapEntry) → filter_match E (some []) e ≡ true
  unfolding filter_match lookup
  filter_match-nil e = refl

  add_filter-good :
      (watched : List WatchedMap) (map_name label_name pattern : String) (filters : Filters E)
      (m : WatchedMap) (regex : E.Regex)
      → find_map map_name watched ≡ some m
      → found_key_name label_name m.labels ≡ true
      → E.must_compile pattern ≡ some regex
      → add_filter E watched map_name label_name pattern filters
        ≡ ok (
            insert map_name
              (record { map_name = map_name; key_field = label_name; regex = regex })
              filters)
  unfolding add_filter
  add_filter-good watched map_name label_name pattern filters m regex found labelled compiled =
      ground (arith, found, labelled, compiled)

  add_filters-GoodArgs :
      (watched : List WatchedMap) (args : List String) (filters : Filters E)
      → GoodArgs watched args
      → (more : Filters E) × (add_filters E watched args filters ≡ ok more)
        × ((e : MapEntry)
            → filter_match E (some more) e ≡ last_word args e (filter_match E (some filters) e))
  unfolding add_filters
  add_filters-GoodArgs watched [] filters good = (filters, refl, λ e. refl)
  add_filters-GoodArgs watched (map_name ∷ label_name ∷ pattern ∷ args) filters
        ((m, found, labelled), (regex, compiled), good) =
      let f : Filter E.Regex = record {
        map_name = map_name;
        key_field = label_name;
        regex = regex;
      } in
      let (more, added, says) =
        add_filters-GoodArgs watched args (insert map_name f filters) good in
      let step : add_filter E watched map_name label_name pattern filters
          ≡ ok (insert map_name f filters) =
        add_filter-good watched map_name label_name pattern filters m regex found labelled
          compiled in
      (
        more,
        ground (arith, step, added),
        λ e. says e ∙ ap (last_word args e) (filter_match-insert filters f e ∙ rw compiled refl),
      )
  add_filters-GoodArgs watched (a ∷ []) filters good = absurd good
  add_filters-GoodArgs watched (a ∷ b ∷ []) filters good = absurd good

  length-GoodArgs :
      (watched : List WatchedMap) (args : List String) → GoodArgs watched args → length args % 3 ≡ 0
  length-GoodArgs watched [] good = refl
  length-GoodArgs watched (a ∷ []) good = absurd good
  length-GoodArgs watched (a ∷ b ∷ []) good = absurd good
  length-GoodArgs watched (a ∷ b ∷ c ∷ args) (m, r, good) =
      omega (arith, length-GoodArgs watched args good)

  -- Arguments that name, three by three, a watched map, one of its labels and a regular expression
  -- give filters. An entry passes them exactly if it matches the last three arguments that name its
  -- map, or if none name it.
  pub build_filter-GoodArgs :
      (watched : List WatchedMap) (args : List String)
      → GoodArgs watched args
      → (filters : Option (Filters E)) × (build_filter E args watched ≡ ok filters)
        × ((e : MapEntry) → filter_match E filters e ≡ last_word args e true)
  unfolding build_filter
  build_filter-GoodArgs watched [] good = (none, refl, filter_match-none)
  build_filter-GoodArgs watched (a ∷ args) good =
      let (filters, added, says) = add_filters-GoodArgs watched (a ∷ args) [] good in
      (
        some filters,
        ground (arith, added, length-GoodArgs watched (a ∷ args) good),
        λ e. says e ∙ ap (last_word (a ∷ args) e) (filter_match-nil e),
      )

  add_filters-append :
      (watched : List WatchedMap) (good args : List String) (filters : Filters E)
      → GoodArgs watched good
      → (more : Filters E) × (add_filters E watched (good ++ args) filters
          ≡ add_filters E watched args more)
  unfolding add_filters
  add_filters-append watched [] args filters is_good = (filters, refl)
  add_filters-append watched (a ∷ []) args filters is_good = absurd is_good
  add_filters-append watched (a ∷ b ∷ []) args filters is_good = absurd is_good
  add_filters-append watched (map_name ∷ label_name ∷ pattern ∷ good) args filters
        ((m, found, labelled), (regex, compiled), is_good) =
      let f : Filter E.Regex = record {
        map_name = map_name;
        key_field = label_name;
        regex = regex;
      } in
      let (more, same) = add_filters-append watched good args (insert map_name f filters) is_good in
      let step : add_filter E watched map_name label_name pattern filters
          ≡ ok (insert map_name f filters) =
        add_filter-good watched map_name label_name pattern filters m regex found labelled
          compiled in
      (more, ground (arith, step, same))

  add_filters-panic :
      (watched : List WatchedMap) (rest : List String) (map_name label_name pattern : String)
      (m : WatchedMap) (filters : Filters E)
      → find_map map_name watched ≡ some m
      → found_key_name label_name m.labels ≡ true
      → E.must_compile pattern ≡ none
      → add_filters E watched (map_name ∷ label_name ∷ pattern ∷ rest) filters ≡ panic
  unfolding add_filters add_filter
  add_filters-panic watched rest map_name label_name pattern m filters found labelled bad =
      ground (arith, found, labelled, bad)

  build_panics :
      (watched : List WatchedMap) (args : List String)
      → add_filters E watched args [] ≡ panic
      → length args % 3 ≡ 0
      → build_filter E args watched ≡ panic
  unfolding build_filter
  build_panics watched [] panics multiple = ground arith
  build_panics watched (a ∷ args) panics multiple = ground (arith, panics)

  -- A pattern that is no regular expression panics, behind any good arguments, for a map and a label
  -- that are known, if the number of the arguments is a multiple of three.
  pub bad_pattern_panics :
      (watched : List WatchedMap) (good rest : List String) (map_name label_name pattern : String)
      (m : WatchedMap)
      → GoodArgs watched good
      → find_map map_name watched ≡ some m
      → found_key_name label_name m.labels ≡ true
      → E.must_compile pattern ≡ none
      → length rest % 3 ≡ 0
      → build_filter E (good ++ (map_name ∷ label_name ∷ pattern ∷ rest)) watched ≡ panic
  bad_pattern_panics watched good rest map_name label_name pattern m is_good found labelled bad
        multiple =
      let args = map_name ∷ label_name ∷ pattern ∷ rest in
      let (more, same) = add_filters-append watched good args [] is_good in
      build_panics watched (good ++ args)
        (same
          ∙ add_filters-panic watched rest map_name label_name pattern m more found labelled bad)
        (omega (arith, length-append good args, length-GoodArgs watched good is_good))
