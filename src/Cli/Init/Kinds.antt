-- ===== src/Cli/Init/Kinds.antt =====
-- pkg/cli/internal/commands/initialize/templates.go: what can be chosen, and the data of a skeleton. The
-- data of the branch for file systems stands in init.go.
use text.Mathlib.Text.{◌==◌ as str_eq}
use bumblebee.Common.{String, Option, none, some, List, [], ◌∷◌, if◌then◌else◌}
use bumblebee.Cli.Init.Templates.{
  open_at_struct, open_at_map, open_at_body, ringbuf_map_tmpl, ringbuf_struct, ringbuf_body,
  hash_map_tmpl, hash_key_struct, hash_map_body,
}

-- A template is the function from its parameter to the text.
pub record MapData : Type 0 where
  pub output_type : String
  pub map_template : String → String

pub record TemplateData : Type 0 where
  pub struct_data : String
  pub map_data : MapData
  pub function_body : String
  pub rendered_map : String

abbrev pub supported_languages : List String
supported_languages = "C" ∷ []

abbrev pub supported_program_types : List String
supported_program_types = "Network" ∷ "FileSystem" ∷ []

abbrev pub supported_map_types : List String
supported_map_types = "RingBuffer" ∷ "HashMap" ∷ []

abbrev pub supported_output_types : List String
supported_output_types = "print" ∷ "counter" ∷ "gauge" ∷ []

unfoldable pub ringbuf_template : TemplateData
ringbuf_template = record {
  struct_data = ringbuf_struct;
  map_data = record { output_type = ""; map_template = ringbuf_map_tmpl };
  function_body = ringbuf_body;
  rendered_map = "";
}

unfoldable pub hash_map_template : TemplateData
hash_map_template = record {
  struct_data = hash_key_struct;
  map_data = record { output_type = ""; map_template = hash_map_tmpl };
  function_body = hash_map_body;
  rendered_map = "";
}

-- A missing key is a nil pointer.
unfoldable pub map_type_to_template_data : String → Option TemplateData
map_type_to_template_data typ =
    if str_eq typ "RingBuffer"
    then some ringbuf_template
    else if str_eq typ "HashMap"
    then some hash_map_template
    else none

-- A missing key is the empty text.
unfoldable pub map_output_type_to_template_data : String → String
map_output_type_to_template_data typ =
    if str_eq typ "print"
    then ".print"
    else if str_eq typ "counter"
    then ".counter"
    else if str_eq typ "gauge"
    then ".gauge"
    else ""

unfoldable pub open_at_template : TemplateData
open_at_template = record {
  struct_data = open_at_struct;
  map_data = record { output_type = ""; map_template = λ output_type. "" };
  function_body = open_at_body;
  rendered_map = open_at_map;
}
