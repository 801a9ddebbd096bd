-- ===== src/Images/Sample.antt =====
-- Stores that meet the laws of Oras, for the tests: a content is a text and its own digest, a store is
-- its references, its contents, and the titles that it has seen, and there are two manifests.
pub mod Same
pub mod Lawful
use Prim.Native.String.{len}
use text.Mathlib.Text.{◌==◌ as str_eq}
use text.Mathlib.TextEquality.{eq_iff}
use text.Mathlib.TextPositions.{eq_refl}
use bumblebee.Common.{
  ◌≡◌, ◌≢◌, refl, ◌∙◌, ap, inl, inr, Bool-cases, Option-cases, ◌==◌, ==_iff, String, Bool, true,
  false, ◌&&◌, ◌||◌, Option, none, some, List, [], ◌∷◌, ◌++◌, map, arith, if◌then◌else◌,
}
use bumblebee.Common.Dict.{lookup, insert, lookup-insert, lookup-insert_self, lookup-insert_ne}
use bumblebee.Images.Oras.{
  Library, IsLawful, Annotations, Platform, Descriptor, Manifest, annotation_title, allows, titled,
  Stands, parts,
}
use bumblebee.Images.{EbpfConfig}
use Same.{same_manifest}

-- A store; one that forgets platforms stands for a registry.
pub record Store : Type 0 where
  pub refs : List (String × Descriptor)
  pub blobs : List String
  pub titles : List (String × String)
  pub platforms : Bool

-- The parts that a copy takes along, by their titles.
unfoldable pub taken : List String → List String → List Descriptor → List (String × String)
unfolding allows lookup
taken allowed blobs [] = []
taken allowed blobs (c ∷ cs) =
    let rest = taken allowed blobs cs in
    elim (lookup annotation_title c.annotations) [
      | none ↦ rest
      | some t ↦
          if allows allowed c.media_type && allows blobs c.digest
          then (t, c.digest) ∷ rest
          else rest
    ]

unfoldable pub holds : List (String × String) → String → Bool
holds [] h = false
holds ((t, x) ∷ ps) h = str_eq x h || holds ps h

holds-append_left :
    (xs ys : List (String × String)) (h : String) → holds xs h ≡ true → holds (xs ++ ys) h ≡ true
unfolding holds
holds-append_left [] ys h e = cc
holds-append_left ((t, x) ∷ xs) ys h e = ground (arith, holds-append_left xs ys h)

holds-append_right :
    (xs ys : List (String × String)) (h : String) → holds ys h ≡ true → holds (xs ++ ys) h ≡ true
unfolding holds
holds-append_right [] ys h e = e
holds-append_right ((t, x) ∷ xs) ys h e = ground (arith, holds-append_right xs ys h)

module _ (allowed blobs : List String) where
  holds-taken :
      (cs : List Descriptor) (c : Descriptor) (name : String)
      → Stands c cs
      → allows allowed c.media_type ≡ true
      → lookup annotation_title c.annotations ≡ some name
      → allows blobs c.digest ≡ true
      → holds (taken allowed blobs cs) c.digest ≡ true
  unfolding holds taken
  holds-taken [] c name s a t b = absurd s
  holds-taken (d ∷ cs) c name (inl is) a t b = ground (arith, eq_refl c.digest)
  holds-taken (d ∷ cs) c name (inr s) a t b = ground (arith, holds-taken cs c name s a t b)

  lookup-taken :
      (cs : List Descriptor) (c : Descriptor) (name : String)
      → titled name cs ≡ c ∷ []
      → allows allowed c.media_type ≡ true
      → allows blobs c.digest ≡ true
      → lookup name (taken allowed blobs cs) ≡ some c.digest
  unfolding taken titled
  lookup-taken [] c name h a b = cc
  lookup-taken (d ∷ cs) c name h a b = elim (Option-cases (lookup annotation_title d.annotations)) [
    | inl no_title ↦ ground (arith, no_title, lookup-taken cs c name)
    | inr (t, title) ↦ ground (arith, title, eq_iff t name, lookup-taken cs c name)
  ]

unfoldable pub fetch : Store → String → Option String
unfolding allows holds
fetch t h = if holds t.titles h || allows t.blobs h then some h else none

unfoldable pub contents : Store → List String
contents t = map (λ (p : String × String). p.1) t.titles ++ t.blobs

-- A store that takes an image in.
unfoldable pub taking :
    List String → Store → Store → String → Descriptor → String → Manifest → Store
unfolding taken contents insert
taking allowed from to ref d b m = record to {
  refs = insert ref (record d { platform = if to.platforms then d.platform else none }) to.refs;
  blobs = b ∷ to.blobs;
  titles = taken allowed (contents from) (parts m) ++ to.titles;
}

abbrev pub new_memory : Store
new_memory = record { refs = []; blobs = []; titles = []; platforms = true }

abbrev pub named_descriptor : (name media_type content : String) → Descriptor
named_descriptor name media_type content = record {
  media_type = media_type;
  digest = content;
  size = len content;
  annotations = (annotation_title, name) ∷ [];
  platform = none;
}

-- The copy, the two manifests being known.
module _ (one two : Manifest) where
  unfoldable pub unmarshal_manifest : String → Option Manifest
  unmarshal_manifest b =
      if str_eq b "manifest 1" then some one else if str_eq b "manifest 2" then some two else none

  unfoldable pub generate_manifest :
      Descriptor → Annotations → List Descriptor → Option (String × Descriptor)
  generate_manifest config annotations layers =
      let m : Manifest = record { config = config; layers = layers; annotations = annotations } in
      let root : String → Descriptor = λ b. record {
        media_type = "application/vnd.oci.image.manifest.v1+json";
        digest = b;
        size = len b;
        annotations = [];
        platform = none;
      } in
      if same_manifest m one
      then some ("manifest 1", root "manifest 1")
      else if same_manifest m two
      then some ("manifest 2", root "manifest 2")
      else none

  unfoldable pub copy : List String → Store → String → Store → Store × Option Descriptor
  unfolding unmarshal_manifest fetch taking lookup
  copy allowed from ref to = elim (lookup ref from.refs) [
    | none ↦ (to, none)
    | some d ↦ elim (fetch from d.digest) [
      | none ↦ (to, none)
      | some b ↦ elim (unmarshal_manifest b) [
        | none ↦ (to, none)
        | some m ↦ (taking allowed from to ref d b m, some d)
      ]
    ]
  ]

  abbrev pub sample_library : Library EbpfConfig
  sample_library = record {
    Bytes = String;
    Target = Store;
    len = len;
    from_bytes = λ b. b;
    marshal = λ c. some "{}";
    unmarshal = λ b. if str_eq b "{}" then some tt else none;
    unmarshal_manifest = unmarshal_manifest;
    new_memory = new_memory;
    add = λ t name typ b.
        some (named_descriptor name typ b, record t { titles = (name, b) ∷ t.titles });
    set = λ t d b. record t { blobs = b ∷ t.blobs };
    generate_manifest = generate_manifest;
    store_manifest =
        λ t ref d b. some (record t { refs = insert ref d t.refs; blobs = b ∷ t.blobs });
    get_by_name = λ t name. lookup name t.titles;
    get = λ t d. fetch t d.digest;
    copy = copy;
    resolve = λ t ref. lookup ref t.refs;
    add_reference = λ t name d. record t { refs = insert name d t.refs };
    save_index = λ t. true;
    fetch = fetch;
    keeps_platform = λ t. t.platforms;
  }
