-- ===== src/Images/Sample/Same.antt =====
-- Equality of the manifests of Sample.
use text.Mathlib.Text.{◌==◌ as str_eq}
use text.Mathlib.TextEquality.{eq_iff}
use bumblebee.Common.{
  ◌≡◌, refl, ◌==◌, Bool, true, false, ◌&&◌, Option, none, some, List, [], ◌∷◌, arith,
}
use bumblebee.Images.Oras.{Annotations, Platform, Descriptor, Manifest}

-- Whether two manifests whose descriptors have no platform are the same.
same_annotations : Annotations → Annotations → Bool
same_annotations [] [] = true
same_annotations ((k, v) ∷ a) ((l, w) ∷ b) = (str_eq k l && str_eq v w) && same_annotations a b
same_annotations _ _ = false

no_platform : Option Platform → Bool
no_platform none = true
no_platform (some p) = false

same_descriptor : Descriptor → Descriptor → Bool
unfolding same_annotations no_platform
same_descriptor a b =
    (str_eq a.media_type b.media_type && str_eq a.digest b.digest)
    && ((a.size == b.size && same_annotations a.annotations b.annotations)
        && (no_platform a.platform && no_platform b.platform))

same_layers : List Descriptor → List Descriptor → Bool
unfolding same_descriptor
same_layers [] [] = true
same_layers (a ∷ as') (b ∷ bs) = same_descriptor a b && same_layers as' bs
same_layers _ _ = false

unfoldable pub same_manifest : Manifest → Manifest → Bool
unfolding same_layers
same_manifest a b =
    same_descriptor a.config b.config
    && (same_layers a.layers b.layers && same_annotations a.annotations b.annotations)

same_annotations-eq : (a b : Annotations) → same_annotations a b ≡ true → a ≡ b
unfolding same_annotations
same_annotations-eq [] [] h = refl
same_annotations-eq [] (q ∷ b) h = cc
same_annotations-eq (p ∷ a) [] h = cc
same_annotations-eq ((k, v) ∷ a) ((l, w) ∷ b) h =
    ground (arith, eq_iff k l, eq_iff v w, same_annotations-eq a b)

no_platform-eq : (p : Option Platform) → no_platform p ≡ true → p ≡ none
unfolding no_platform
no_platform-eq none h = refl
no_platform-eq (some p) h = cc

same_descriptor-eq : (a b : Descriptor) → same_descriptor a b ≡ true → a ≡ b
unfolding same_descriptor
same_descriptor-eq a b h = ground (
  arith,
  eq_iff a.media_type b.media_type,
  eq_iff a.digest b.digest,
  same_annotations-eq a.annotations b.annotations,
  no_platform-eq a.platform,
  no_platform-eq b.platform,
)

same_layers-eq : (a b : List Descriptor) → same_layers a b ≡ true → a ≡ b
unfolding same_layers
same_layers-eq [] [] h = refl
same_layers-eq [] (q ∷ b) h = cc
same_layers-eq (p ∷ a) [] h = cc
same_layers-eq (p ∷ a) (q ∷ b) h = ground (arith, same_descriptor-eq p q, same_layers-eq a b)

pub same_manifest-eq : (a b : Manifest) → same_manifest a b ≡ true → a ≡ b
unfolding same_manifest
same_manifest-eq a b h = ground (
  arith,
  same_descriptor-eq a.config b.config,
  same_layers-eq a.layers b.layers,
  same_annotations-eq a.annotations b.annotations,
)
