-- ===== src/Images.antt =====
-- pkg/spec: a program as an OCI image. `Push` and `Pull` of spec.go, and `TryFromLocal` of utils.go.
pub mod Oras
pub mod Holds
pub mod Packaged
pub mod Laws
pub mod Sample
mod Tests
use bumblebee.Common.{String, Bool, Option, none, some, List, [], ◌∷◌, if◌then◌else◌}
use bumblebee.Common.Dict.{lookup, insert}
use text.Mathlib.Text.{◌==◌ as str_eq}
use Oras.{
  Library, Annotations, Platform, Descriptor, annotation_title, annotation_authors,
  annotation_description,
}

abbrev pub config_media_type : String
config_media_type = "application/ebpf.oci.image.config.v1+json"

abbrev pub ebpf_media_type : String
ebpf_media_type = "application/ebpf.oci.image.program.v1+binary"

abbrev pub ebpf_file_name : String
ebpf_file_name = "program.o"

abbrev pub config_name : String
config_name = "config.json"

abbrev pub allowed_media_types : List String
allowed_media_types = ebpf_media_type ∷ config_media_type ∷ []

-- `EbpfConfig` has no fields.
abbrev pub EbpfConfig : Type 0
EbpfConfig = Unit {0}

pub record EbpfPackage (Bytes : Type 0) : Type 0 where
  pub program_file_bytes : Bytes
  pub description : String
  pub authors : String
  pub platform : Option Platform
  pub config : EbpfConfig

-- A library's error, or one of this package's own.
pub data ImageError : Type 0 where
  library_error no_ebpf_bytes no_manifest bad_manifest : ImageError

pub data Result (A : Type 0) : Type 0 where
  ok : A → Result A
  err : ImageError → Result A

infixl 5 ◌>>=◌
abbrev pub ◌>>=◌ : {A B : Type 0} → Result A → (A → Result B) → Result B
ok a >>= f = f a
err e >>= f = err e

-- `if err != nil { return err }`, and the same for `ok` of a lookup.
abbrev pub or_err : {A : Type 0} → ImageError → Option A → Result A
or_err e none = err e
or_err e (some a) = ok a

-- The error of a copy, where the descriptor is not used.
abbrev pub copy_result : Option Descriptor → Result (Unit {0})
copy_result none = err library_error
copy_result (some d) = ok tt

-- `m[k]` of a map of texts.
unfoldable pub annotation : String → Annotations → String
unfolding lookup
annotation k m = elim (lookup k m) [ none ↦ "" | some v ↦ v ]

-- The entry that `Push` sets, if the text is not empty.
unfoldable pub annotate : String → String → Annotations → Annotations
unfolding insert
annotate k v m = if str_eq v "" then m else insert k v m

-- Credentials and flags of a registry, `content.RegistryOptions`.
pub record RegistryOptions : Type 0 where
  pub configs : List String
  pub username : String
  pub password : String
  pub insecure : Bool
  pub plain_http : Bool

module _ (L : Library EbpfConfig) where
  unfoldable pub build_config_descriptor : L.Bytes → Annotations → Descriptor
  unfolding insert
  build_config_descriptor byt annotations = record {
    media_type = config_media_type;
    digest = L.from_bytes byt;
    size = L.len byt;
    annotations = insert annotation_title config_name annotations;
    platform = none;
  }

  unfoldable pub manifest_annotations : EbpfPackage L.Bytes → Annotations
  unfolding annotate
  manifest_annotations pkg =
      annotate annotation_description pkg.description (annotate annotation_authors pkg.authors [])

  -- `Push` up to the copy: the store in memory that holds the image.
  unfoldable pub package_image : String → EbpfPackage L.Bytes → Result L.Target
  unfolding build_config_descriptor manifest_annotations
  package_image ref pkg = do
    added ←
        or_err library_error
          (L.add L.new_memory ebpf_file_name ebpf_media_type pkg.program_file_bytes)
    config_byt ← or_err library_error (L.marshal pkg.config)
    let config_desc = build_config_descriptor config_byt []
    let memory_store = L.set added.1 config_desc config_byt
    generated ←
        or_err library_error
          (L.generate_manifest config_desc (manifest_annotations pkg) (added.0 ∷ []))
    or_err library_error (
        L.store_manifest memory_store ref (record (generated.1) { platform = pkg.platform })
          generated.0)

  -- The registry after the copy of what was packaged, and how it ends.
  unfoldable pub send_packaged : String → L.Target → Result L.Target → L.Target × Result (Unit {0})
  send_packaged ref registry (err e) = (registry, err e)
  send_packaged ref registry (ok memory_store) =
      let (after, root) = L.copy allowed_media_types memory_store ref registry in
      (after, copy_result root)

  unfoldable pub push : String → L.Target → EbpfPackage L.Bytes → L.Target × Result (Unit {0})
  unfolding package_image send_packaged
  push ref registry pkg = send_packaged ref registry (package_image ref pkg)

  -- `Pull` behind the copy.
  unfoldable pub read_image : L.Target → Descriptor → Result (EbpfPackage L.Bytes)
  unfolding annotation
  read_image memory_store manifest_desc = do
    ebpf_bytes ← or_err no_ebpf_bytes (L.get_by_name memory_store ebpf_file_name)
    config_bytes ← or_err no_ebpf_bytes (L.get_by_name memory_store config_name)
    cfg ← or_err library_error (L.unmarshal config_bytes)
    manifest_bytes ← or_err no_manifest (L.get memory_store manifest_desc)
    manifest ← or_err bad_manifest (L.unmarshal_manifest manifest_bytes)
    ok (record {
      program_file_bytes = ebpf_bytes;
      description = annotation annotation_description manifest.annotations;
      authors = annotation annotation_authors manifest.annotations;
      platform = manifest_desc.platform;
      config = cfg;
    })

  unfoldable pub pull : String → L.Target → Result (EbpfPackage L.Bytes)
  unfolding read_image
  pull ref registry =
      let (memory_store, root) = L.copy allowed_media_types registry ref L.new_memory in
      or_err library_error root >>= read_image memory_store

  -- The stores outside of the process, as they are at the time of a call: `content.NewOCI` of a
  -- directory and `content.NewRegistry`. `ebpf_image_dir` is the variable of consts.go.
  pub record World : Type 0 where
    pub new_oci : String → Option L.Target
    pub new_registry : RegistryOptions → Option L.Target
    pub ebpf_image_dir : String

  -- The image in the local directory, if it is there whole.
  unfoldable pub cached : String → L.Target → Option (EbpfPackage L.Bytes)
  unfolding pull
  cached ref local = elim (L.resolve local ref) [
    | none ↦ none
    | some _ ↦ elim (pull ref local) [ err _ ↦ none | ok prog ↦ some prog ]
  ]

  -- What came of a request, and the local directory after it.
  unfoldable pub from_remote :
      World → String → RegistryOptions → L.Target → Result (EbpfPackage L.Bytes) × L.Target
  unfolding pull
  from_remote w ref auth local = elim (w.new_registry auth) [
    | none ↦ (err library_error, local)
    | some remote ↦
        let (after, root) = L.copy allowed_media_types remote ref local in
        ((copy_result root >>= λ _. pull ref after), after)
  ]

  unfoldable pub try_from_local :
      World → (ref dir : String) → RegistryOptions → Result (EbpfPackage L.Bytes) × Option L.Target
  unfolding cached from_remote
  try_from_local w ref dir auth =
      elim (w.new_oci (if str_eq dir "" then w.ebpf_image_dir else dir)) [
        | none ↦ (err library_error, none)
        | some local ↦ elim (cached ref local) [
          | some prog ↦ (ok prog, some local)
          | none ↦ let (got, after) = from_remote w ref auth local in (got, some after)
        ]
      ]
