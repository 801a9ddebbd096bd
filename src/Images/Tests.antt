-- ===== src/Images/Tests.antt =====
-- The theorems on images at concrete stores.
use text.Mathlib.TextEquality.{eq_iff}
use bumblebee.Common.{◌≡◌, refl, String, false, Option, none, some, [], ◌∷◌, arith}
use bumblebee.Common.Dict.{lookup}
use bumblebee.Images.Oras.{
  Annotations, Platform, Descriptor, Manifest, annotation_authors, annotation_description,
}
use bumblebee.Images.{
  config_name, config_media_type, ebpf_media_type, ebpf_file_name, allowed_media_types, EbpfPackage,
  ok, err, library_error, RegistryOptions, push, pull, World, try_from_local,
}
use bumblebee.Images.Holds.{kept}
use bumblebee.Images.Laws.{push-Holds, pull-push, fetched_once}
use bumblebee.Images.Sample.{
  Store, generate_manifest, copy, new_memory, named_descriptor, sample_library,
}
use bumblebee.Images.Sample.Same.{same_manifest}
use bumblebee.Images.Sample.Lawful.{sample_library-IsLawful}

abbrev platform : Platform
platform = record {
  architecture = "x86_64";
  os = "Linux";
  os_version = "5.15.0";
  os_features = [];
  variant = "";
}

abbrev manifest : String → Annotations → Manifest
manifest elf annotations = record {
  config = named_descriptor config_name config_media_type "{}";
  layers = named_descriptor ebpf_file_name ebpf_media_type elf ∷ [];
  annotations = annotations;
}

abbrev pkg : EbpfPackage String
pkg = record {
  program_file_bytes = "elf 1";
  description = "connects";
  authors = "me";
  platform = some platform;
  config = tt;
}

abbrev older : EbpfPackage String
older = record {
  program_file_bytes = "elf 2";
  description = "";
  authors = "me";
  platform = none;
  config = tt;
}

abbrev one : Manifest
one = manifest "elf 1" ((annotation_authors, "me") ∷ (annotation_description, "connects") ∷ [])

abbrev two : Manifest
two = manifest "elf 2" ((annotation_authors, "me") ∷ [])

-- The root of an image in the index.
abbrev root : String → Option Platform → Descriptor
root digest platform = record {
  media_type = "application/vnd.oci.image.manifest.v1+json";
  digest = digest;
  size = 10;
  annotations = [];
  platform = platform;
}

-- A directory, and a registry, which forgets platforms.
abbrev directory : Store
directory = new_memory

abbrev registry : Store
registry = record new_memory { platforms = false }

with_older : Store
unfolding push copy same_manifest generate_manifest
with_older = (push (sample_library one two) "old" directory older).0

with_both : Store
unfolding with_older
with_both = (push (sample_library one two) "new" with_older pkg).0

-- What a copy of an image into memory leaves there.
in_memory : Store → String → Store
in_memory t ref = (copy one two allowed_media_types t ref new_memory).0

with_both_images : pull (sample_library one two) "new" with_both ≡ ok pkg
unfolding pull with_both
with_both_images = refl

nothing_there : pull (sample_library one two) "new" with_older ≡ err library_error
unfolding pull with_older
nothing_there = refl

pull-push_example :
    (pull (sample_library one two) "new" with_both
      ≡ ok (kept (sample_library one two) with_older pkg))
    × (pull (sample_library one two) "old" with_both
        ≡ ok (kept (sample_library one two) directory older))
unfolding with_both in_memory
pull-push_example =
    pull-push (sample_library-IsLawful one two) "new" "old" with_older with_both
      (in_memory with_both "new") (in_memory with_both "old") pkg
      (kept (sample_library one two) directory older) (root "manifest 1" (some platform))
      (root "manifest 2" none) refl (ground (arith, eq_iff "old" "new"))
      (push-Holds (sample_library-IsLawful one two) "old" directory with_older older refl) refl refl

-- A registry with the image, and the directory of another machine before and after it fetches it.
remote : Store
unfolding push copy same_manifest generate_manifest
remote = (push (sample_library one two) "new" registry pkg).0

fetched : Store
unfolding remote
fetched = (copy one two allowed_media_types remote "new" directory).0

abbrev world : Option Store → Option Store → World (sample_library one two)
world local there = record {
  new_oci = λ dir. local;
  new_registry = λ auth. there;
  ebpf_image_dir = "store";
}

abbrev no_credentials : RegistryOptions
no_credentials = record {
  configs = [];
  username = "";
  password = "";
  insecure = false;
  plain_http = false;
}

fetched_once_example :
    (try_from_local
        (sample_library one two)
        (world (some directory) (some remote))
        "new"
        ""
        no_credentials
      ≡ (
        ok (kept (sample_library one two) directory (kept (sample_library one two) registry pkg)),
        some fetched,
      ))
    × (try_from_local (sample_library one two) (world (some fetched) none) "new" "" no_credentials
        ≡ (
          ok (kept (sample_library one two) directory (kept (sample_library one two) registry pkg)),
          some fetched,
        ))
unfolding fetched in_memory lookup
fetched_once_example =
    fetched_once (sample_library-IsLawful one two) (world (some directory) (some remote))
      (world (some fetched) none) "new" "" no_credentials no_credentials directory fetched remote
      (in_memory fetched "new") (kept (sample_library one two) registry pkg)
      (root "manifest 1" none) (root "manifest 1" none) refl refl refl
      (push-Holds (sample_library-IsLawful one two) "new" registry remote pkg refl) refl refl refl
