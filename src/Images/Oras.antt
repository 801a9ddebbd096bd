-- ===== src/Images/Oras.antt =====
-- What pkg/spec and the commands use of the libraries oras-go, image-spec, go-digest and encoding/json:
-- the types of image-spec with the fields that the code reads or writes, and the calls, as parameters.
-- A target is a store in memory, a directory with an OCI layout, or a registry. None is an error.
use text.Mathlib.Text.{◌==◌ as str_eq}
use bumblebee.Common.{
  ◌≡◌, ◌≢◌, ◌⊎◌, ℕ, Bool, true, false, String, Option, none, some, List, [], ◌∷◌, if◌then◌else◌,
}
use bumblebee.Common.Dict.{lookup}

-- A nil map reads as an empty one.
abbrev pub Annotations : Type 0
Annotations = List (String × String)

-- `ocispec.Platform`.
pub record Platform : Type 0 where
  pub architecture : String
  pub os : String
  pub os_version : String
  pub os_features : List String
  pub variant : String

-- `ocispec.Descriptor`.
pub record Descriptor : Type 0 where
  pub media_type : String
  pub digest : String
  pub size : ℕ
  pub annotations : Annotations
  pub platform : Option Platform

-- `ocispec.Manifest`.
pub record Manifest : Type 0 where
  pub config : Descriptor
  pub layers : List Descriptor
  pub annotations : Annotations

-- The keys of image-spec.
abbrev pub annotation_title : String
annotation_title = "org.opencontainers.image.title"

abbrev pub annotation_authors : String
annotation_authors = "org.opencontainers.image.authors"

abbrev pub annotation_description : String
annotation_description = "org.opencontainers.image.description"

abbrev pub annotation_ref_name : String
annotation_ref_name = "org.opencontainers.image.ref.name"

-- `Config` is the type of the program's own configuration, and a slice of bytes is a `Bytes`.
pub record Library (Config : Type 0) : Type 1 where
  pub Bytes : Type 0
  pub Target : Type 0
  pub len : Bytes → ℕ
  -- `digest.FromBytes`
  pub from_bytes : Bytes → String
  pub marshal : Config → Option Bytes
  pub unmarshal : Bytes → Option Config
  pub unmarshal_manifest : Bytes → Option Manifest
  -- `content.NewMemory` and the calls of a store in memory
  pub new_memory : Target
  pub add : Target → (name media_type : String) → Bytes → Option (Descriptor × Target)
  pub set : Target → Descriptor → Bytes → Target
  pub generate_manifest : Descriptor → Annotations → List Descriptor → Option (Bytes × Descriptor)
  pub store_manifest : Target → String → Descriptor → Bytes → Option Target
  pub get_by_name : Target → String → Option Bytes
  pub get : Target → Descriptor → Option Bytes
  -- `oras.Copy` with the allowed media types. A copy that fails may leave a part of the image behind.
  pub copy : List String → Target → String → Target → Target × Option Descriptor
  pub resolve : Target → String → Option Descriptor
  -- the calls of a directory: `AddReference`, `SaveIndex`
  pub add_reference : Target → String → Descriptor → Target
  pub save_index : Target → Bool
  -- What a reader finds under a digest, and whether the index of the target holds platforms, which a
  -- directory's does and a registry's does not.
  pub fetch : Target → String → Option Bytes
  pub keeps_platform : Target → Bool

-- Equality of texts in a list, as the filter of a copy tests it.
unfoldable pub allows : List String → String → Bool
allows [] t = false
allows (s ∷ ss) t = let rest = allows ss t in if str_eq s t then true else rest

-- The descriptors with a title.
unfoldable pub titled : String → List Descriptor → List Descriptor
unfolding lookup
titled name [] = []
titled name (d ∷ ds) =
    let rest = titled name ds in
    elim (lookup annotation_title d.annotations) [
      | none ↦ rest
      | some t ↦ if str_eq t name then d ∷ rest else rest
    ]

abbrev pub Stands : Descriptor → List Descriptor → Type 0
Stands c [] = ⊥
Stands c (d ∷ ds) = (c ≡ d) ⊎ Stands c ds

abbrev pub parts : Manifest → List Descriptor
parts m = m.config ∷ m.layers

-- What the libraries document. Contents are found by their digests, which are different for different
-- contents, so nothing that is stored is lost when more is.
pub record IsLawful {Config : Type 0} (L : Library Config) : Type 0 where
  pub unmarshal-marshal : (c : Config) (b : L.Bytes) → L.marshal c ≡ some b → L.unmarshal b ≡ some c
  pub add_stored :
      (t t' : L.Target) (name typ : String) (b : L.Bytes) (d : Descriptor)
      → L.add t name typ b ≡ some (d, t')
      → (L.fetch t' d.digest ≡ some b)
        × (d ≡ record {
          media_type = typ;
          digest = L.from_bytes b;
          size = L.len b;
          annotations = (annotation_title, name) ∷ [];
          platform = none;
        })
  pub set_stored :
      (t : L.Target) (d : Descriptor) (b : L.Bytes)
      → d.digest ≡ L.from_bytes b
      → L.fetch (L.set t d b) d.digest ≡ some b
  pub set_keeps :
      (t : L.Target) (d : Descriptor) (b : L.Bytes) (h : String) (x : L.Bytes)
      → d.digest ≡ L.from_bytes b
      → L.fetch t h ≡ some x
      → L.fetch (L.set t d b) h ≡ some x
  pub generated :
      (c : Descriptor) (a : Annotations) (ls : List Descriptor) (b : L.Bytes) (d : Descriptor)
      → L.generate_manifest c a ls ≡ some (b, d)
      → (L.unmarshal_manifest b ≡ some (record { config = c; layers = ls; annotations = a }))
        × (d.digest ≡ L.from_bytes b)
  pub manifest_stored :
      (t t' : L.Target) (ref : String) (d : Descriptor) (b : L.Bytes)
      → d.digest ≡ L.from_bytes b
      → L.store_manifest t ref d b ≡ some t'
      → (L.resolve t' ref ≡ some d) × (L.fetch t' d.digest ≡ some b)
  pub manifest_keeps :
      (t t' : L.Target) (ref : String) (d : Descriptor) (b : L.Bytes) (h : String) (x : L.Bytes)
      → d.digest ≡ L.from_bytes b
      → L.store_manifest t ref d b ≡ some t'
      → L.fetch t h ≡ some x
      → L.fetch t' h ≡ some x
  -- A copy gives the descriptor of the reference; the manifest arrives, and of its parts those that
  -- have an allowed media type and a title.
  pub copy-resolve :
      (allowed : List String) (from to to' : L.Target) (ref : String) (d : Descriptor)
      → L.copy allowed from ref to ≡ (to', some d)
      → L.resolve from ref ≡ some d
  pub copy_resolved :
      (allowed : List String) (from to to' : L.Target) (ref : String) (d : Descriptor)
      → L.copy allowed from ref to ≡ (to', some d)
      → (k : Descriptor) × (L.resolve to' ref ≡ some k)
        × (k.digest ≡ d.digest)
        × (k.platform ≡ (if L.keeps_platform to then d.platform else none))
  pub copy_manifest :
      (allowed : List String) (from to to' : L.Target) (ref : String) (d : Descriptor) (b : L.Bytes)
      → L.copy allowed from ref to ≡ (to', some d)
      → L.fetch from d.digest ≡ some b
      → L.fetch to' d.digest ≡ some b
  pub copy_part :
      (allowed : List String) (from to to' : L.Target) (ref : String) (d c : Descriptor)
      (b x : L.Bytes) (m : Manifest) (name : String)
      → L.copy allowed from ref to ≡ (to', some d)
      → L.fetch from d.digest ≡ some b
      → L.unmarshal_manifest b ≡ some m
      → Stands c (parts m)
      → allows allowed c.media_type ≡ true
      → lookup annotation_title c.annotations ≡ some name
      → L.fetch from c.digest ≡ some x
      → L.fetch to' c.digest ≡ some x
  pub copy_others :
      (allowed : List String) (from to to' : L.Target) (ref other : String) (d : Descriptor)
      → L.copy allowed from ref to ≡ (to', some d)
      → other ≢ ref
      → L.resolve to' other ≡ L.resolve to other
  pub copy_keeps :
      (allowed : List String) (from to to' : L.Target) (ref h : String) (d : Descriptor)
      (x : L.Bytes)
      → L.copy allowed from ref to ≡ (to', some d)
      → L.fetch to h ≡ some x
      → L.fetch to' h ≡ some x
  -- In a fresh memory a part is found by a title that no other part has.
  pub get_by_name-copy :
      (allowed : List String) (from to' : L.Target) (ref : String) (d c : Descriptor)
      (b x : L.Bytes) (m : Manifest) (name : String)
      → L.copy allowed from ref L.new_memory ≡ (to', some d)
      → L.fetch from d.digest ≡ some b
      → L.unmarshal_manifest b ≡ some m
      → titled name (parts m) ≡ c ∷ []
      → allows allowed c.media_type ≡ true
      → L.fetch from c.digest ≡ some x
      → L.get_by_name to' name ≡ some x
  pub get-fetch : (t : L.Target) (d : Descriptor) → L.get t d ≡ L.fetch t d.digest
  -- A directory's index holds the descriptor under the name, with the name among the annotations.
  pub added_reference :
      (t : L.Target) (name : String) (d : Descriptor)
      → (k : Descriptor) × (L.resolve (L.add_reference t name d) name ≡ some k)
        × (k.digest ≡ d.digest)
        × (k.platform ≡ d.platform)
  pub added_others :
      (t : L.Target) (name other : String) (d : Descriptor)
      → other ≢ name
      → L.resolve (L.add_reference t name d) other ≡ L.resolve t other
  pub fetch-add_reference :
      (t : L.Target) (name h : String) (d : Descriptor)
      → L.fetch (L.add_reference t name d) h ≡ L.fetch t h
