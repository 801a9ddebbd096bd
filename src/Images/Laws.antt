-- ===== src/Images/Laws.antt =====
-- What pkg/spec promises of the images: what is pushed is pulled, and an image is taken from the local
-- directory where it is, and else from the registry, once.
use text.Mathlib.Text.{◌==◌ as str_eq}
use bumblebee.Common.{
  ◌≡◌, ◌≢◌, inl, inr, Option-cases, refl, String, none, some, arith, if◌then◌else◌,
}
use bumblebee.Images.Oras.{Library, IsLawful, Descriptor}
use bumblebee.Images.{
  allowed_media_types, EbpfConfig, EbpfPackage, Result, ok, err, RegistryOptions, package_image,
  send_packaged, push, pull, World, cached, from_remote, try_from_local,
}
use bumblebee.Images.Holds.{Holds, kept, copy-Holds, copy-Holds_others, pull-Holds}
use bumblebee.Images.Packaged.{package_image-Holds}

module _ {L : Library EbpfConfig} (W : IsLawful L) where
  send_packaged-copy :
      (ref : String) (registry after : L.Target) (r : Result L.Target)
      → send_packaged L ref registry r ≡ (after, ok tt)
      → (m : L.Target) × (d : Descriptor) × (r ≡ ok m)
        × (L.copy allowed_media_types m ref registry ≡ (after, some d))
  unfolding send_packaged
  send_packaged-copy ref registry after (err e) h = absurd (ground (arith, h))
  send_packaged-copy ref registry after (ok m) h =
      elim (Option-cases (L.copy allowed_media_types m ref registry).1) [
        | inl failed ↦ absurd (ground (arith, failed, h))
        | inr (d, done) ↦ (m, d, refl, ground (arith, done, h))
      ]

  -- After a push the registry holds what it keeps of the package.
  pub push-Holds :
      (ref : String) (registry after : L.Target) (pkg : EbpfPackage L.Bytes)
      → push L ref registry pkg ≡ (after, ok tt)
      → Holds L after ref (kept L registry pkg)
  unfolding push
  push-Holds ref registry after pkg h =
      let (m, d, packaged, c) = send_packaged-copy ref registry after (package_image L ref pkg) h in
      copy-Holds W m registry after ref pkg d (package_image-Holds W ref pkg m packaged) c

  push-Holds_others :
      (ref other : String) (registry after : L.Target) (pkg p : EbpfPackage L.Bytes)
      → push L ref registry pkg ≡ (after, ok tt)
      → other ≢ ref
      → Holds L registry other p
      → Holds L after other p
  unfolding push
  push-Holds_others ref other registry after pkg p h ne held =
      let (m, d, packaged, c) = send_packaged-copy ref registry after (package_image L ref pkg) h in
      copy-Holds_others W m registry after ref other p d ne c held

  -- What is pushed is pulled: the program, the description and the authors, and the platform if the
  -- target keeps it. Another image of the target is pulled as before. Both copies into memory succeed.
  pub pull-push :
      (ref other : String) (registry after m n : L.Target) (pkg p : EbpfPackage L.Bytes)
      (d e : Descriptor)
      → push L ref registry pkg ≡ (after, ok tt)
      → other ≢ ref
      → Holds L registry other p
      → L.copy allowed_media_types after ref L.new_memory ≡ (m, some d)
      → L.copy allowed_media_types after other L.new_memory ≡ (n, some e)
      → (pull L ref after ≡ ok (kept L registry pkg)) × (pull L other after ≡ ok p)
  pull-push ref other registry after m n pkg p d e pushed ne held c c' = (
    pull-Holds W after m ref (kept L registry pkg) d (push-Holds ref registry after pkg pushed) c,
    pull-Holds W after n other p e (push-Holds_others ref other registry after pkg p pushed ne held)
        c',
  )

  -- An image that the local directory holds is served from there, whatever the registry has.
  pub try_from_local-local :
      (w : World L) (ref dir : String) (auth : RegistryOptions) (local m : L.Target)
      (pkg : EbpfPackage L.Bytes) (d : Descriptor)
      → w.new_oci (if str_eq dir "" then w.ebpf_image_dir else dir) ≡ some local
      → Holds L local ref pkg
      → L.copy allowed_media_types local ref L.new_memory ≡ (m, some d)
      → try_from_local L w ref dir auth ≡ (ok pkg, some local)
  unfolding try_from_local cached
  try_from_local-local w ref dir auth local m pkg d opened h c =
      ground (arith, h.resolved, pull-Holds W local m ref pkg d h c)

  pub try_from_local-remote :
      (w : World L) (ref dir : String) (auth : RegistryOptions) (local after remote m : L.Target)
      (pkg : EbpfPackage L.Bytes) (d e : Descriptor)
      → w.new_oci (if str_eq dir "" then w.ebpf_image_dir else dir) ≡ some local
      → L.resolve local ref ≡ none
      → w.new_registry auth ≡ some remote
      → Holds L remote ref pkg
      → L.copy allowed_media_types remote ref local ≡ (after, some d)
      → L.copy allowed_media_types after ref L.new_memory ≡ (m, some e)
      → try_from_local L w ref dir auth ≡ (ok (kept L local pkg), some after)
  unfolding try_from_local cached from_remote
  try_from_local-remote w ref dir auth local after remote m pkg d e opened absent reached h c c' =
      ground (
        arith,
        pull-Holds W after m ref (kept L local pkg) e
            (copy-Holds W remote local after ref pkg d h c) c',
      )

  -- An image that the local directory does not have is fetched once: the first request takes it from
  -- the registry, and any later one from the directory, whatever the registry has then. The stores can
  -- be opened, the registry holds the image, and the copies to the directory and into memory succeed.
  pub fetched_once :
      (w later : World L) (ref dir : String) (auth auth' : RegistryOptions)
      (local after remote m : L.Target) (pkg : EbpfPackage L.Bytes) (d e : Descriptor)
      → w.new_oci (if str_eq dir "" then w.ebpf_image_dir else dir) ≡ some local
      → L.resolve local ref ≡ none
      → w.new_registry auth ≡ some remote
      → Holds L remote ref pkg
      → L.copy allowed_media_types remote ref local ≡ (after, some d)
      → L.copy allowed_media_types after ref L.new_memory ≡ (m, some e)
      → later.new_oci (if str_eq dir "" then later.ebpf_image_dir else dir) ≡ some after
      → (try_from_local L w ref dir auth ≡ (ok (kept L local pkg), some after))
        × (try_from_local L later ref dir auth' ≡ (ok (kept L local pkg), some after))
  fetched_once w later ref dir auth auth' local after remote m pkg d e opened absent reached h c c'
        again =
      (
        try_from_local-remote w ref dir auth local after remote m pkg d e opened absent reached h c
            c',
        try_from_local-local later ref dir auth' after m (kept L local pkg) e again
            (copy-Holds W remote local after ref pkg d h c) c',
      )
