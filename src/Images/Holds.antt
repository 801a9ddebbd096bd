-- ===== src/Images/Holds.antt =====
-- What it is that a store holds an image of a program, and that a copy between stores, a pull and a push
-- keep to it.
use text.Mathlib.TextEquality.{eq_iff}
use bumblebee.Common.{
  ◌≡◌, ◌≢◌, refl, sym, ap, ◌∙◌, inl, inr, String, Option, none, some, [], ◌∷◌, arith, if◌then◌else◌,
}
use bumblebee.Common.Dict.{lookup, insert}
use bumblebee.Images.Oras.{
  Library, IsLawful, Platform, Descriptor, Manifest, annotation_title, annotation_authors,
  annotation_description, titled, allows,
}
use bumblebee.Images.{
  config_name, ebpf_media_type, ebpf_file_name, allowed_media_types, EbpfConfig, EbpfPackage, ok,
  annotation, annotate, build_config_descriptor, manifest_annotations, pull,
}

-- The entries that `Push` sets are those that `Pull` reads.
pub annotation-authors :
    (d a : String)
    → annotation annotation_authors
        (annotate annotation_description d (annotate annotation_authors a []))
      ≡ a
unfolding annotation annotate
annotation-authors d a = ground (arith, eq_iff d "", eq_iff a "")

pub annotation-description :
    (d a : String)
    → annotation annotation_description
        (annotate annotation_description d (annotate annotation_authors a []))
      ≡ d
unfolding annotation annotate
annotation-description d a = ground (arith, eq_iff d "", eq_iff a "")

module _ (L : Library EbpfConfig) where
  unfoldable pub program_descriptor : L.Bytes → Descriptor
  program_descriptor b = record {
    media_type = ebpf_media_type;
    digest = L.from_bytes b;
    size = L.len b;
    annotations = (annotation_title, ebpf_file_name) ∷ [];
    platform = none;
  }

  -- A configuration, a program, and the annotations: the format of spec/README.md.
  unfoldable pub manifest_of : EbpfPackage L.Bytes → L.Bytes → Manifest
  manifest_of pkg config_bytes = record {
    config = build_config_descriptor L config_bytes [];
    layers = program_descriptor pkg.program_file_bytes ∷ [];
    annotations = manifest_annotations L pkg;
  }

  -- A reference leads to the image of a package, with all its parts.
  pub record Holds (t : L.Target) (ref : String) (pkg : EbpfPackage L.Bytes) : Type 0 where
    pub root : Descriptor
    pub manifest_bytes : L.Bytes
    pub config_bytes : L.Bytes
    pub resolved : L.resolve t ref ≡ some root
    pub on : root.platform ≡ pkg.platform
    pub manifest_stored : L.fetch t root.digest ≡ some manifest_bytes
    pub manifest : L.unmarshal_manifest manifest_bytes ≡ some (manifest_of pkg config_bytes)
    pub configured : L.marshal pkg.config ≡ some config_bytes
    pub config_stored : L.fetch t (L.from_bytes config_bytes) ≡ some config_bytes
    pub program_stored :
        L.fetch t (L.from_bytes pkg.program_file_bytes) ≡ some pkg.program_file_bytes

  -- What a target keeps of a package that is copied to it.
  unfoldable pub kept : L.Target → EbpfPackage L.Bytes → EbpfPackage L.Bytes
  kept t pkg = record pkg { platform = if L.keeps_platform t then pkg.platform else none }

module _ {L : Library EbpfConfig} where
  -- An image is held under another name or in another state, if what it consists of is found there.
  pub Holds-moved :
      (t t' : L.Target) (ref ref' : String) (pkg : EbpfPackage L.Bytes) (k : Descriptor)
      (h : Holds L t ref pkg)
      → L.resolve t' ref' ≡ some k
      → k.digest ≡ h.root.digest
      → k.platform ≡ h.root.platform
      → ((y : String) (z : L.Bytes) → L.fetch t y ≡ some z → L.fetch t' y ≡ some z)
      → Holds L t' ref' pkg
  Holds-moved t t' ref ref' pkg k h found digests platforms keeps = record {
    root = k;
    manifest_bytes = h.manifest_bytes;
    config_bytes = h.config_bytes;
    resolved = found;
    on = platforms ∙ h.on;
    manifest_stored =
        ap (L.fetch t') digests ∙ keeps h.root.digest h.manifest_bytes h.manifest_stored;
    manifest = h.manifest;
    configured = h.configured;
    config_stored = keeps (L.from_bytes h.config_bytes) h.config_bytes h.config_stored;
    program_stored =
        keeps (L.from_bytes pkg.program_file_bytes) pkg.program_file_bytes h.program_stored;
  }

module _ {L : Library EbpfConfig} (W : IsLawful L) where
  -- A copy of one image leaves the other images of the target as they are.
  pub copy-Holds_others :
      (from to to' : L.Target) (ref other : String) (pkg : EbpfPackage L.Bytes) (d : Descriptor)
      → other ≢ ref
      → L.copy allowed_media_types from ref to ≡ (to', some d)
      → Holds L to other pkg
      → Holds L to' other pkg
  copy-Holds_others from to to' ref other pkg d ne c h =
      Holds-moved to to' other other pkg h.root h
        (W.copy_others allowed_media_types from to to' ref other d c ne ∙ h.resolved) refl refl
        (λ y z. W.copy_keeps allowed_media_types from to to' ref y d z c)

  -- A copy gives the descriptor that the reference has.
  root-copy :
      (from to to' : L.Target) (ref : String) (pkg : EbpfPackage L.Bytes) (d : Descriptor)
      (h : Holds L from ref pkg)
      → L.copy allowed_media_types from ref to ≡ (to', some d)
      → h.root ≡ d
  root-copy from to to' ref pkg d h c =
      cc (h.resolved, W.copy-resolve allowed_media_types from to to' ref d c)

  pub copy-Holds :
      (from to to' : L.Target) (ref : String) (pkg : EbpfPackage L.Bytes) (d : Descriptor)
      → Holds L from ref pkg
      → L.copy allowed_media_types from ref to ≡ (to', some d)
      → Holds L to' ref (kept L to pkg)
  unfolding kept manifest_of program_descriptor build_config_descriptor allows lookup insert
      manifest_annotations
  copy-Holds from to to' ref pkg d h c =
      let same : h.root ≡ d = root-copy from to to' ref pkg d h c in
      let (k, found, digests, platforms) =
        W.copy_resolved allowed_media_types from to to' ref d c in
      let at_d : L.fetch from d.digest ≡ some h.manifest_bytes =
        ap (λ (r : Descriptor). L.fetch from r.digest) (sym same) ∙ h.manifest_stored in
      record {
        root = k;
        manifest_bytes = h.manifest_bytes;
        config_bytes = h.config_bytes;
        resolved = found;
        on =
            platforms
            ∙ ap (λ (p : Option Platform). if L.keeps_platform to then p else none)
                (ap (λ (r : Descriptor). r.platform) (sym same) ∙ h.on);
        manifest_stored =
            ap (L.fetch to') digests
            ∙ W.copy_manifest allowed_media_types from to to' ref d h.manifest_bytes c at_d;
        manifest = h.manifest;
        configured = h.configured;
        config_stored =
            W.copy_part allowed_media_types from to to' ref d
              (build_config_descriptor L h.config_bytes []) h.manifest_bytes h.config_bytes
              (manifest_of L pkg h.config_bytes) config_name c at_d h.manifest (inl refl) refl refl
              h.config_stored;
        program_stored =
            W.copy_part allowed_media_types from to to' ref d
              (program_descriptor L pkg.program_file_bytes) h.manifest_bytes pkg.program_file_bytes
              (manifest_of L pkg h.config_bytes) ebpf_file_name c at_d h.manifest (inr (inl refl))
              refl refl h.program_stored;
      }

  pub pull-Holds :
      (t m : L.Target) (ref : String) (pkg : EbpfPackage L.Bytes) (d : Descriptor)
      → Holds L t ref pkg
      → L.copy allowed_media_types t ref L.new_memory ≡ (m, some d)
      → pull L ref t ≡ ok pkg
  unfolding pull manifest_of program_descriptor build_config_descriptor manifest_annotations titled
      allows insert
  pull-Holds t m ref pkg d h c =
      let same : h.root ≡ d = root-copy t L.new_memory m ref pkg d h c in
      let at_d : L.fetch t d.digest ≡ some h.manifest_bytes =
        ap (λ (r : Descriptor). L.fetch t r.digest) (sym same) ∙ h.manifest_stored in
      let program : L.get_by_name m ebpf_file_name ≡ some pkg.program_file_bytes =
        W.get_by_name-copy allowed_media_types t m ref d
          (program_descriptor L pkg.program_file_bytes) h.manifest_bytes pkg.program_file_bytes
          (manifest_of L pkg h.config_bytes) ebpf_file_name c at_d h.manifest refl refl
          h.program_stored in
      let config : L.get_by_name m config_name ≡ some h.config_bytes =
        W.get_by_name-copy allowed_media_types t m ref d
          (build_config_descriptor L h.config_bytes []) h.manifest_bytes h.config_bytes
          (manifest_of L pkg h.config_bytes) config_name c at_d h.manifest refl refl
          h.config_stored in
      let manifest : L.get m d ≡ some h.manifest_bytes =
        W.get-fetch m d
        ∙ W.copy_manifest allowed_media_types t L.new_memory m ref d h.manifest_bytes c at_d in
      rw
        (
          c,
          program,
          config,
          W.unmarshal-marshal pkg.config h.config_bytes h.configured,
          manifest,
          h.manifest,
        )
        (ground (
          arith,
          annotation-description pkg.description pkg.authors,
          annotation-authors pkg.description pkg.authors,
          same,
          h.on,
        ))
