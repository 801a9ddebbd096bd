-- ===== src/Cli/Describe.antt =====
-- What `bee describe` shows of an image that was pushed into the local directory.
use text.Mathlib.Text.{◌==◌ as str_eq}
use bumblebee.Common.{◌≡◌, ◌∙◌, ap, Option, String, none, some, if◌then◌else◌}
use bumblebee.Images.Oras.{Library, IsLawful, Descriptor}
use bumblebee.Images.{allowed_media_types, EbpfConfig, EbpfPackage, Result, ok, World, push}
use bumblebee.Images.Holds.{kept}
use bumblebee.Images.Laws.{push-Holds, try_from_local-local}
use bumblebee.Cli.Options.{GeneralOptions, to_registry_options}
use bumblebee.Cli.Show.{panels_of, platform_text, shown_panels, describe, Panels}

panels_of-bare :
    {Bytes : Type 0} (pkg : EbpfPackage Bytes)
    → pkg.description ≡ ""
    → panels_of pkg ≡ record {
      description_panel = "No description found";
      authors_panel = "No Authors found";
      platform_panel = platform_text pkg.platform;
    }
unfolding panels_of
panels_of-bare pkg bare = rw bare

module _ {L : Library EbpfConfig} (W : IsLawful L) where
  -- An image that was pushed into the local directory with no description is described with no
  -- authors, whatever authors it has: the platform alone is shown. The directory can be opened, and
  -- the copy into memory succeeds.
  pub describe_hides_authors :
      (w : World L) (opts : GeneralOptions) (ref : String) (registry local m : L.Target)
      (pkg : EbpfPackage L.Bytes) (d : Descriptor)
      → push L ref registry pkg ≡ (local, ok tt)
      → w.new_oci
          (if str_eq opts.oci_storage_dir "" then w.ebpf_image_dir else opts.oci_storage_dir)
        ≡ some local
      → L.copy allowed_media_types local ref L.new_memory ≡ (m, some d)
      → pkg.description ≡ ""
      → describe L w opts ref ≡ (
        ok (record {
          description_panel = "No description found";
          authors_panel = "No Authors found";
          platform_panel = platform_text (if L.keeps_platform registry then pkg.platform else none);
        }),
        some local,
      )
  unfolding describe kept
  describe_hides_authors w opts ref registry local m pkg d pushed opened c bare =
      ap (λ (r : Result (EbpfPackage L.Bytes) × Option L.Target). (shown_panels r.0, r.1))
        (try_from_local-local W w ref opts.oci_storage_dir (to_registry_options opts.auth_options)
          local m (kept L registry pkg) d opened (push-Holds W ref registry local pkg pushed) c)
      ∙ ap (λ (p : Panels). (ok p, some local)) (panels_of-bare (kept L registry pkg) bare)
