-- ===== src/Cli/Init.antt =====
-- pkg/cli/internal/commands/initialize/init.go: a skeleton of a program is written to a file, with what
-- the flags or the answers at the terminal say.
pub mod Templates
pub mod Kinds
pub mod Skeletons
pub mod Outcomes
pub mod Laws
mod Tests
use text.Mathlib.Text.{◌==◌ as str_eq}
use bumblebee.Common.{
  String, Bool, true, false, ◌&&◌, not, Option, none, some, List, [], ◌∷◌, if◌then◌else◌,
}
use Templates.{file_template}
use Kinds.{
  TemplateData, supported_languages, supported_program_types, supported_map_types,
  supported_output_types, map_type_to_template_data, map_output_type_to_template_data,
  open_at_template,
}

pub record InitOptions : Type 0 where
  pub language : String
  pub map_type : String
  pub file_path : String
  pub output_type : String
  pub program_type : String

-- What `initialize` asks of the machine: the library promptui's `Select` and `Prompt`, `os.Create`,
-- which gives an empty file, and the `Write` of that file, with whether it succeeds.
pub record Terminal : Type 1 where
  pub Files : Type 0
  pub select : String → List String → Option String
  pub prompt : Option String
  pub create : Files → String → Option Files
  pub write : Files → (path text : String) → Files × Bool

pub data InitError : Type 0 where
  prompt_error create_error write_error no_overrides : InitError
  bad_language bad_program_type bad_map_type bad_output_type : String → InitError

-- A panic is a nil pointer that is read.
pub data Result (A : Type 0) : Type 0 where
  ok : A → Result A
  err : InitError → Result A
  panic : Result A

infixl 5 ◌>>=◌
abbrev ◌>>=◌ : {A B : Type 0} → Result A → (A → Result B) → Result B
ok a >>= f = f a
err e >>= f = err e
panic >>= f = panic

unfoldable pub contains : String → List String → Bool
contains s [] = false
contains s (v ∷ slice) = let rest = contains s slice in if str_eq s v then true else rest

-- The output type is set, and the map is rendered.
unfoldable pub render_map : String → TemplateData → TemplateData
unfolding map_output_type_to_template_data
render_map output_type t =
    let suffix = map_output_type_to_template_data output_type in
    record t {
      map_data = record (t.map_data) { output_type = suffix };
      rendered_map = t.map_data.map_template suffix;
    }

unfoldable pub execute : TemplateData → String
execute t = file_template t.struct_data t.rendered_map t.function_body

-- The pointer to the template is read behind the output type.
unfoldable pub rendered : String → Option TemplateData → Result TemplateData
unfolding render_map
rendered output_type none = panic
rendered output_type (some t) = ok (render_map output_type t)

module _ (T : Terminal) where
  abbrev pub select_value : String → List String → Result String
  select_value question options = elim (T.select question options) [
    | none ↦ err prompt_error
    | some v ↦ ok v
  ]

  -- A value is validated where a flag gives it, and selected otherwise.
  unfoldable pub value_of :
      String → (question : String) → List String → (String → InitError) → Result String
  unfolding contains
  value_of given question options bad =
      if str_eq given ""
      then select_value question options
      else if contains given options
      then ok given
      else err (bad given)

  unfoldable pub map_type_of : InitOptions → Result String
  unfolding value_of
  map_type_of opts =
      value_of opts.map_type "What type of map should we initialize" supported_map_types
        bad_map_type

  unfoldable pub output_type_of : InitOptions → Result String
  unfolding value_of
  output_type_of opts =
      value_of opts.output_type "What type of output would you like from your map"
        supported_output_types bad_output_type

  unfoldable pub handle_network_program : InitOptions → Result TemplateData
  unfolding map_type_of output_type_of map_type_to_template_data rendered
  handle_network_program opts = do
    map_type ← map_type_of opts
    output_type ← output_type_of opts
    rendered output_type (map_type_to_template_data map_type)

  -- A language that the flag gives is validated and not kept.
  unfoldable pub language_type_of : InitOptions → Result String
  unfolding contains
  language_type_of opts =
      if str_eq opts.language ""
      then select_value "What language do you wish to use for the filter" supported_languages
      else if contains opts.language supported_languages
      then ok ""
      else err (bad_language opts.language)

  unfoldable pub program_type_of : InitOptions → Result String
  program_type_of opts =
      if str_eq opts.program_type ""
      then select_value "What type of program to initialize" supported_program_types
      else ok opts.program_type

  unfoldable pub map_template_of : String → InitOptions → Result TemplateData
  unfolding handle_network_program
  map_template_of program_type opts =
      if str_eq program_type "Network"
      then handle_network_program opts
      else if str_eq program_type "FileSystem"
      then (if str_eq opts.map_type "" && str_eq opts.output_type ""
          then ok open_at_template
          else err no_overrides)
      else err (bad_program_type program_type)

  -- The error of the prompt is looked at behind the default, which it does not change.
  unfoldable pub file_location_of : String → InitOptions → Result String
  file_location_of language_type opts =
      if str_eq opts.file_path ""
      then (elim T.prompt [
        | none ↦ err prompt_error
        | some answer ↦
            ok (if str_eq answer "" && str_eq language_type "C" then "bee.c" else answer)
      ])
      else ok opts.file_path

  unfoldable pub written : T.Files × Bool → T.Files × Result (Unit {0})
  written (after, done) = (after, if done then ok tt else err write_error)

  unfoldable pub save : T.Files → Result (String × String) → T.Files × Result (Unit {0})
  unfolding written
  save files panic = (files, panic)
  save files (err e) = (files, err e)
  save files (ok (path, text)) = elim (T.create files path) [
    | none ↦ (files, err create_error)
    | some made ↦ written (T.write made path text)
  ]

  -- Where the skeleton goes, and its text.
  unfoldable pub skeleton : InitOptions → Result (String × String)
  unfolding language_type_of program_type_of map_template_of file_location_of
  skeleton opts = do
    language_type ← language_type_of opts
    program_type ← program_type_of opts
    map_template ← map_template_of program_type opts
    file_location ← file_location_of language_type opts
    ok (file_location, execute map_template)

  unfoldable pub initialize : InitOptions → T.Files → T.Files × Result (Unit {0})
  unfolding save skeleton
  initialize opts files = save files (skeleton opts)
