-- ===== src/Tui/Filter.antt =====
-- pkg/tui/filter.go. Regular expressions are those of Go's package regexp: a parameter.
pub mod Laws
mod Tests
use text.Mathlib.Text.{◌==◌ as str_eq}
use bumblebee.Common.{
  ℕ, ◌%◌, String, Bool, true, false, not, ◌&&◌, ◌||◌, Option, none, some, List, [], ◌∷◌, length,
  ◌==◌, if◌then◌else◌,
}
use bumblebee.Common.Dict.{lookup, insert}
use bumblebee.Loader.Types.{WatchedMap, Labels, MapEntry}

-- `regexp.MustCompile`, where none is a panic, and `MatchString`.
pub record Regexp : Type 1 where
  pub Regex : Type 0
  pub must_compile : String → Option Regex
  pub match_string : Regex → String → Bool

pub record Filter (R : Type 0) : Type 0 where
  pub map_name : String
  pub key_field : String
  pub regex : R

pub data FilterError : Type 0 where
  syntax : ℕ → FilterError
  no_map : String → FilterError
  no_key : String → FilterError

pub data Result (A : Type 0) : Type 0 where
  ok : A → Result A
  err : FilterError → Result A
  panic : Result A

-- `watchedMaps[name]`.
unfoldable pub find_map : String → List WatchedMap → Option WatchedMap
find_map name [] = none
find_map name (m ∷ ms) = let rest = find_map name ms in if str_eq m.name name then some m else rest

-- The loop over the labels.
unfoldable pub found_key_name : String → List String → Bool
found_key_name label_name [] = false
found_key_name label_name (v ∷ vs) = str_eq v label_name || found_key_name label_name vs

module _ (E : Regexp) where
  abbrev pub Filters : Type 0
  Filters = List (String × Filter E.Regex)

  -- The loop over the labels of an entry.
  unfoldable pub any_match : Filter E.Regex → Labels → Bool
  any_match f [] = false
  any_match f ((k, v) ∷ labels) =
      (str_eq k f.key_field && E.match_string f.regex v) || any_match f labels

  unfoldable pub filter_match : Option Filters → MapEntry → Bool
  unfolding any_match lookup
  filter_match none entry = true
  filter_match (some filters) entry = elim (lookup entry.name filters) [
    | none ↦ true
    | some f ↦ any_match f entry.entry.key
  ]

  -- One round of the loop: three arguments and the filters so far.
  unfoldable pub add_filter : List WatchedMap → String → String → String → Filters → Result Filters
  add_filter watched map_name label_name pattern filters = elim (find_map map_name watched) [
    | none ↦ err (no_map map_name)
    | some m ↦
        if found_key_name label_name m.labels
        then elim (E.must_compile pattern) [
          | none ↦ panic
          | some regex ↦ ok (
              insert map_name
                (record { map_name = map_name; key_field = label_name; regex = regex }) filters)
        ]
        else err (no_key label_name)
  ]

  -- The loop; the arguments are a multiple of three.
  add_filters : List WatchedMap → List String → Filters → Result Filters
  add_filters watched (map_name ∷ label_name ∷ pattern ∷ args) filters =
      elim (add_filter watched map_name label_name pattern filters) [
        | ok more ↦ add_filters watched args more
        | err e ↦ err e
        | panic ↦ panic
      ]
  add_filters watched args filters = ok filters

  unfoldable pub build_filter : List String → List WatchedMap → Result (Option Filters)
  unfolding add_filters
  build_filter [] watched = ok none
  build_filter (arg ∷ args) watched =
      if not (length (arg ∷ args) % 3 == 0)
      then err (syntax (length (arg ∷ args)))
      else elim (add_filters watched (arg ∷ args) []) [
        | ok filters ↦ ok (some filters)
        | err e ↦ err e
        | panic ↦ panic
      ]
