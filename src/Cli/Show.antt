-- ===== src/Cli/Show.antt =====
-- pkg/cli/internal/commands: describe and list. What they show are texts in boxes and tables, which the
-- library pterm draws.
use Prim.Native.String.{◌++◌ as ◌<>◌}
use text.Mathlib.Text.{◌==◌ as str_eq}
use bumblebee.Common.{String, Option, none, some, List, [], ◌∷◌, map, if◌then◌else◌}
use bumblebee.Images.Oras.{Library, Platform, Descriptor}
use bumblebee.Images.{
  EbpfConfig, EbpfPackage, Result, ok, err, library_error, World, try_from_local,
}
use bumblebee.Cli.Options.{GeneralOptions, to_registry_options}

pub record Panels : Type 0 where
  pub description_panel : String
  pub authors_panel : String
  pub platform_panel : String

-- `"%s %s %s"`.
abbrev pub platform_text : Option Platform → String
platform_text none = "unknown"
platform_text (some p) = p.os <> (" " <> (p.os_version <> (" " <> p.architecture)))

-- The authors are shown by the test of the description.
unfoldable pub panels_of : {Bytes : Type 0} → EbpfPackage Bytes → Panels
panels_of prog = record {
  description_panel =
      if str_eq prog.description "" then "No description found" else prog.description;
  authors_panel = if str_eq prog.description "" then "No Authors found" else prog.authors;
  platform_panel = platform_text prog.platform;
}

abbrev pub shown_panels : {Bytes : Type 0} → Result (EbpfPackage Bytes) → Result Panels
shown_panels (err e) = err e
shown_panels (ok prog) = ok (panels_of prog)

-- A row of `bee list`: the name, and the platform of the index.
abbrev pub row : String × Descriptor → List String
row (name, d) = elim d.platform [
  | none ↦ name ∷ "unknown" ∷ "unknown" ∷ "unknown" ∷ []
  | some p ↦ name ∷ p.os ∷ p.os_version ∷ p.architecture ∷ []
]

module _ (L : Library EbpfConfig) (w : World L) (opts : GeneralOptions) where
  unfoldable pub describe : String → Result Panels × Option L.Target
  describe ref =
      let (prog, local) =
        try_from_local L w ref opts.oci_storage_dir (to_registry_options opts.auth_options) in
      (shown_panels prog, local)

  -- `ListReferences` gives the names in an order of its own.
  unfoldable pub list : (L.Target → List (String × Descriptor)) → Result (List (List String))
  list list_references = elim (w.new_oci opts.oci_storage_dir) [
    | none ↦ err library_error
    | some local_registry ↦
        ok (("Name" ∷ "OS" ∷ "OS Version" ∷ "Arch" ∷ []) ∷ map row (list_references local_registry))
  ]
