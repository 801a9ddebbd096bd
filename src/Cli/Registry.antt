-- ===== src/Cli/Registry.antt =====
-- pkg/cli/internal/commands: pull, push and tag. Each gives how it ends, and the store that it writes to
-- after it, if it could be opened. What is printed is left out.
use text.Mathlib.Text.{◌==◌ as str_eq}
use bumblebee.Common.{String, Option, none, some, [], ◌∷◌, if◌then◌else◌}
use bumblebee.Images.Oras.{Library, Annotations, Descriptor, annotation_ref_name}
use bumblebee.Images.{
  allowed_media_types, EbpfConfig, Result, ok, err, library_error, copy_result, World,
}
use bumblebee.Cli.Options.{GeneralOptions, to_registry_options}

-- The loop that copies the annotations without the name of the source. It writes to a map that it makes, so
-- as a value the source's descriptor stays as it was; that two descriptors may share a map is not modelled.
unfoldable pub without_ref_name : Annotations → Annotations
without_ref_name [] = []
without_ref_name ((k, v) ∷ m) =
    let rest = without_ref_name m in if str_eq k annotation_ref_name then rest else (k, v) ∷ rest

module _ (L : Library EbpfConfig) (w : World L) (opts : GeneralOptions) where
  -- `oras.Copy` of one image, for both directions.
  unfoldable pub copy_image : String → (from to : L.Target) → Result (Unit {0}) × Option L.Target
  copy_image ref from to =
      let (after, root) = L.copy allowed_media_types from ref to in (copy_result root, some after)

  unfoldable pub push : String → Result (Unit {0}) × Option L.Target
  unfolding copy_image
  push ref = elim (w.new_oci opts.oci_storage_dir) [
    | none ↦ (err library_error, none)
    | some local_registry ↦ elim (w.new_registry (to_registry_options opts.auth_options)) [
      | none ↦ (err library_error, none)
      | some remote_registry ↦ copy_image ref local_registry remote_registry
    ]
  ]

  unfoldable pub pull : String → Result (Unit {0}) × Option L.Target
  unfolding copy_image
  pull ref = elim (w.new_oci opts.oci_storage_dir) [
    | none ↦ (err library_error, none)
    | some local_registry ↦ elim (w.new_registry (to_registry_options opts.auth_options)) [
      | none ↦ (err library_error, some local_registry)
      | some remote_registry ↦ copy_image ref remote_registry local_registry
    ]
  ]

  unfoldable pub tag_in : L.Target → Descriptor → String → Result (Unit {0}) × Option L.Target
  unfolding without_ref_name
  tag_in local_registry desc target_ref =
      let after =
        L.add_reference local_registry target_ref
          (record desc { annotations = without_ref_name desc.annotations }) in
      (if L.save_index after then ok tt else err library_error, some after)

  unfoldable pub tag : (source_ref target_ref : String) → Result (Unit {0}) × Option L.Target
  unfolding tag_in
  tag source_ref target_ref = elim (w.new_oci opts.oci_storage_dir) [
    | none ↦ (err library_error, none)
    | some local_registry ↦ elim (L.resolve local_registry source_ref) [
      | none ↦ (err library_error, some local_registry)
      | some desc ↦ tag_in local_registry desc target_ref
    ]
  ]
