-- ===== src/Cli/Init/Laws.antt =====
-- What `bee init` does to the files.
use text.Mathlib.Text.{◌==◌ as str_eq}
use text.Mathlib.TextEquality.{eq_iff}
use bumblebee.Common.{◌≡◌, ap, ◌∙◌, ◌≢◌, false, String, none, some, arith}
use bumblebee.Cli.Init.Kinds.{TemplateData, supported_languages}
use bumblebee.Cli.Init.Skeletons.{
  print, counter, gauge, Skeleton, open_at, ring_of, hash_of, output_name, data_of, text_of,
}
use bumblebee.Cli.Init.{
  InitOptions, Terminal, create_error, ok, err, ◌>>=◌, contains, execute, handle_network_program,
  language_type_of, program_type_of, map_template_of, file_location_of, written, save, skeleton,
  initialize,
}

-- A place, with the text of a skeleton.
unfoldable pub IsSkeleton : String × String → Type 0
IsSkeleton r = (s : Skeleton) × (r.1 ≡ text_of s)

-- The flags that name a skeleton.
unfoldable pub flags : Skeleton → (path : String) → InitOptions
unfolding output_name
flags open_at path = record {
  language = "C";
  map_type = "";
  file_path = path;
  output_type = "";
  program_type = "FileSystem";
}
flags (ring_of o) path = record {
  language = "C";
  map_type = "RingBuffer";
  file_path = path;
  output_type = output_name o;
  program_type = "Network";
}
flags (hash_of o) path = record {
  language = "C";
  map_type = "HashMap";
  file_path = path;
  output_type = output_name o;
  program_type = "Network";
}

skeleton-flags :
    (T : Terminal) (s : Skeleton) (path : String)
    → str_eq path "" ≡ false
    → skeleton T (flags s path) ≡ ok (path, text_of s)
unfolding skeleton handle_network_program flags contains text_of data_of
skeleton-flags T open_at path h = rw h
skeleton-flags T (ring_of print) path h = rw h
skeleton-flags T (ring_of counter) path h = rw h
skeleton-flags T (ring_of gauge) path h = rw h
skeleton-flags T (hash_of print) path h = rw h
skeleton-flags T (hash_of counter) path h = rw h
skeleton-flags T (hash_of gauge) path h = rw h

-- Every skeleton can be had by flags: with those that name it and a file that has a name and can be
-- created, init asks nothing and writes the text of that skeleton to the file.
pub initialize-flags :
    (T : Terminal) (s : Skeleton) (path : String) (files made : T.Files)
    → path ≢ ""
    → T.create files path ≡ some made
    → initialize T (flags s path) files ≡ written T (T.write made path (text_of s))
unfolding initialize save
initialize-flags T s path files made named created =
    ground (arith, skeleton-flags T s path (ground (arith, named, eq_iff path "")), created)

asked-language :
    (T : Terminal) (opts : InitOptions)
    → T.select "What language do you wish to use for the filter" supported_languages ≡ some "C"
    → language_type_of T (record opts { language = "" }) ≡ ok "C"
unfolding language_type_of
asked-language T opts selected = ground (arith, selected)

-- A language that the flag gives takes away the default of the place: with an empty answer to the
-- question for the file, init fails, where it writes bee.c if the language is asked for and C is
-- selected. The rest of the choices succeed, and a file without a name cannot be created.
pub language_flag_no_default :
    (T : Terminal) (opts : InitOptions) (files : T.Files) (program_type : String) (t : TemplateData)
    → program_type_of T opts ≡ ok program_type
    → map_template_of T program_type opts ≡ ok t
    → opts.file_path ≡ ""
    → T.prompt ≡ some ""
    → T.select "What language do you wish to use for the filter" supported_languages ≡ some "C"
    → T.create files "" ≡ none
    → (initialize T (record opts { language = "C" }) files ≡ (files, err create_error))
      × (initialize T (record opts { language = "" }) files
          ≡ save T files (ok ("bee.c", execute t)))
unfolding initialize skeleton language_type_of file_location_of save contains
language_flag_no_default T opts files program_type t kind template no_path empty selected no_file =
    (
      rw (kind, template, no_path, empty, no_file),
      ap
            (λ l. save T files (
              l >>= λ language_type. program_type_of T opts >>= λ k.
              map_template_of T k opts >>= λ d.
              file_location_of T language_type opts >>= λ p. ok (p, execute d)))
            (asked-language T opts selected)
          ∙ rw (kind, template, no_path, empty),
    )
