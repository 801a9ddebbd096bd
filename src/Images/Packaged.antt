-- ===== src/Images/Packaged.antt =====
-- The store in memory that `Push` of pkg/spec/spec.go builds before it copies: it holds the image.
use bumblebee.Common.{◌≡◌, refl, sym, ap, ◌∙◌, String, Option, none, some, [], ◌∷◌}
use bumblebee.Images.Oras.{Library, IsLawful, Descriptor}
use bumblebee.Images.{
  ebpf_media_type, ebpf_file_name, EbpfConfig, ◌>>=◌, EbpfPackage, Result, ok, ImageError,
  library_error, or_err, build_config_descriptor, manifest_annotations, package_image,
}
use bumblebee.Images.Holds.{Holds, manifest_of, program_descriptor}

-- What it takes that a chain of calls succeeds.
>>=-eq-ok :
    {A B : Type 0} (e : ImageError) (o : Option A) (f : A → Result B) {b : B}
    → (or_err e o >>= f) ≡ ok b
    → (a : A) × (o ≡ some a) × (f a ≡ ok b)
>>=-eq-ok e none f h = cc
>>=-eq-ok e (some a) f h = (a, refl, h)

or_err-eq-ok : {A : Type 0} (e : ImageError) (o : Option A) {a : A} → or_err e o ≡ ok a → o ≡ some a
or_err-eq-ok e none h = cc
or_err-eq-ok e (some a) h = cc

module _ {L : Library EbpfConfig} (W : IsLawful L) where
  -- A package that is built in memory has gone through all steps.
  package_image-steps :
      (ref : String) (pkg : EbpfPackage L.Bytes) (t : L.Target)
      → package_image L ref pkg ≡ ok t
      → (prog : Descriptor) × (t1 : L.Target) × (b : L.Bytes) × (x : L.Bytes) × (d : Descriptor)
        × (L.add L.new_memory ebpf_file_name ebpf_media_type pkg.program_file_bytes
            ≡ some (prog, t1))
        × (L.marshal pkg.config ≡ some b)
        × (L.generate_manifest
              (build_config_descriptor L b [])
              (manifest_annotations L pkg)
              (prog ∷ [])
            ≡ some (x, d))
        × (L.store_manifest
              (L.set t1 (build_config_descriptor L b []) b)
              ref
              (record d { platform = pkg.platform })
              x
            ≡ some t)
  unfolding package_image
  package_image-steps ref pkg t h =
      let (added, e1, h1) =
        >>=-eq-ok library_error
          (L.add L.new_memory ebpf_file_name ebpf_media_type pkg.program_file_bytes) _ h in
      let (b, e2, h2) = >>=-eq-ok library_error (L.marshal pkg.config) _ h1 in
      let (made, e3, h3) =
        >>=-eq-ok library_error
          (L.generate_manifest (build_config_descriptor L b []) (manifest_annotations L pkg)
            (added.0 ∷ []))
          _ h2 in
      (added.0, added.1, b, made.0, made.1, e1, e2, e3, or_err-eq-ok library_error _ h3)

  pub package_image-Holds :
      (ref : String) (pkg : EbpfPackage L.Bytes) (t : L.Target)
      → package_image L ref pkg ≡ ok t
      → Holds L t ref pkg
  unfolding manifest_of program_descriptor build_config_descriptor
  package_image-Holds ref pkg t h =
      let (prog, t1, b, x, d, e1, e2, e3, e4) = package_image-steps ref pkg t h in
      let config_desc = build_config_descriptor L b [] in
      let (stored, is) =
        W.add_stored L.new_memory t1 ebpf_file_name ebpf_media_type pkg.program_file_bytes prog
          e1 in
      let (reads, digests) =
        W.generated config_desc (manifest_annotations L pkg) (prog ∷ []) x d e3 in
      let t2 = L.set t1 config_desc b in
      let root = record d { platform = pkg.platform } in
      let later : (y : String) (z : L.Bytes) → L.fetch t2 y ≡ some z → L.fetch t y ≡ some z =
        λ y z. W.manifest_keeps t2 t ref root x y z digests e4 in
      record {
        root = root;
        manifest_bytes = x;
        config_bytes = b;
        resolved = (W.manifest_stored t2 t ref root x digests e4).0;
        on = refl;
        manifest_stored = (W.manifest_stored t2 t ref root x digests e4).1;
        manifest =
            reads
            ∙ ap
                (λ (p : Descriptor). some (record {
                  config = config_desc;
                  layers = p ∷ [];
                  annotations = manifest_annotations L pkg;
                }))
                is;
        configured = e2;
        config_stored = later (L.from_bytes b) b (W.set_stored t1 config_desc b refl);
        program_stored = later (L.from_bytes pkg.program_file_bytes) pkg.program_file_bytes (
            W.set_keeps t1 config_desc b (L.from_bytes pkg.program_file_bytes)
              pkg.program_file_bytes refl
              (ap (λ (p : Descriptor). L.fetch t1 p.digest) (sym is) ∙ stored));
      }
