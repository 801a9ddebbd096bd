-- ===== src/Images/Sample/Lawful.antt =====
-- The stores of Sample meet the laws.
use mathlib.Core.List.{append-nil}
use mathlib.Core.Path.{subst}
use mathlib.Core.Option.{some-injective}
use text.Mathlib.Text.{◌==◌ as str_eq}
use text.Mathlib.TextEquality.{eq_iff}
use text.Mathlib.TextPositions.{eq_refl}
use bumblebee.Common.{
  ◌≡◌, refl, sym, ◌∙◌, ap, inl, inr, Bool-cases, Option-cases, String, true, ◌||◌, none, some, List,
  [], ◌∷◌, ◌++◌, map, arith, if◌then◌else◌,
}
use bumblebee.Common.Dict.{lookup, insert, lookup-insert_self, lookup-insert_ne}
use bumblebee.Images.Oras.{
  IsLawful, Annotations, Descriptor, Manifest, annotation_title, allows, Stands, parts,
}
use bumblebee.Images.Sample.{
  Store, taken, holds, holds-append_left, holds-append_right, holds-taken, lookup-taken,
  unmarshal_manifest, generate_manifest, fetch, contents, taking, copy, named_descriptor,
  new_memory, sample_library,
}
use bumblebee.Images.Sample.Same.{same_manifest-eq, same_manifest}

fetch-eq :
    (t : Store) (h x : String) → fetch t h ≡ some x → (holds t.titles h || allows t.blobs h) ≡ true
unfolding fetch
fetch-eq t h x e = ground (arith, e)

fetch-is : (t : Store) (h x : String) → fetch t h ≡ some x → h ≡ x
unfolding fetch
fetch-is t h x e = ground (arith, e)

allows-append :
    (ps : List (String × String)) (bs : List String) (h : String)
    → (holds ps h || allows bs h) ≡ true
    → allows (map (λ (p : String × String). p.1) ps ++ bs) h ≡ true
unfolding allows holds
allows-append [] bs h e = e
allows-append ((t, x) ∷ ps) bs h e = ground (arith, allows-append ps bs h)

allows-contents : (t : Store) (h x : String) → fetch t h ≡ some x → allows (contents t) h ≡ true
unfolding contents
allows-contents t h x e = allows-append t.titles t.blobs h (fetch-eq t h x e)

module _ (one two : Manifest) where
  copied :
      (allowed : List String) (from to to' : Store) (ref : String) (d : Descriptor)
      → copy one two allowed from ref to ≡ (to', some d)
      → (b : String) × (m : Manifest) × (lookup ref from.refs ≡ some d)
        × (fetch from d.digest ≡ some b)
        × (unmarshal_manifest one two b ≡ some m)
        × (to' ≡ taking allowed from to ref d b m)
  unfolding copy
  copied allowed from to to' ref d h = elim (Option-cases (lookup ref from.refs)) [
    | inl e ↦ absurd (ground (arith, e, h))
    | inr (r, e) ↦ elim (Option-cases (fetch from r.digest)) [
      | inl f ↦ absurd (ground (arith, e, f, h))
      | inr (b, f) ↦ elim (Option-cases (unmarshal_manifest one two b)) [
        | inl g ↦ absurd (ground (arith, e, f, g, h))
        | inr (m, g) ↦
            let same : r ≡ d = ground (arith, e, f, g, h) in
            (
              b,
              m,
              e ∙ ap some same,
              ap (λ (k : Descriptor). fetch from k.digest) (sym same) ∙ f,
              g,
              ground (arith, e, f, g, h),
            )
      ]
    ]
  ]

  generate_manifest-unmarshal :
      (c : Descriptor) (a : Annotations) (ls : List Descriptor) (b : String) (d : Descriptor)
      → generate_manifest one two c a ls ≡ some (b, d)
      → (unmarshal_manifest one two b ≡ some (record { config = c; layers = ls; annotations = a }))
        × (d.digest ≡ b)
  unfolding generate_manifest unmarshal_manifest
  generate_manifest-unmarshal c a ls b d h =
      let m : Manifest = record { config = c; layers = ls; annotations = a } in
      elim (Bool-cases (same_manifest m one)) [
        | inl e ↦
            let is : b ≡ "manifest 1" = ground (arith, e, h) in
            (rw is (ap some (sym (same_manifest-eq m one e))), ground (arith, e, h))
        | inr e ↦ elim (Bool-cases (same_manifest m two)) [
          | inl f ↦
              let is : b ≡ "manifest 2" = ground (arith, e, f, h) in
              (rw is (ap some (sym (same_manifest-eq m two f))), ground (arith, e, f, h))
          | inr f ↦ absurd (ground (arith, e, f, h))
        ]
      ]

  -- What it takes to find a content.
  fetch-held :
      (t : Store) (h x : String)
      → (holds t.titles h || allows t.blobs h) ≡ true
      → h ≡ x
      → fetch t h ≡ some x
  unfolding fetch
  fetch-held t h x e is = rw e (ap some is)

  -- What a store has it keeps when an image comes in, and what comes in is there.
  fetch-taking :
      (allowed : List String) (from to : Store) (ref h x b : String) (d : Descriptor) (m : Manifest)
      → fetch to h ≡ some x
      → fetch (taking allowed from to ref d b m) h ≡ some x
  unfolding taking allows
  fetch-taking allowed from to ref h x b d m e =
      fetch-held (taking allowed from to ref d b m) h x
        (ground (
          arith,
          fetch-eq to h x e,
          holds-append_right (taken allowed (contents from) (parts m)) to.titles h,
        ))
        (fetch-is to h x e)

  manifest-taking :
      (allowed : List String) (from to : Store) (ref h b : String) (d : Descriptor) (m : Manifest)
      → h ≡ b
      → fetch (taking allowed from to ref d b m) h ≡ some b
  unfolding taking allows
  manifest-taking allowed from to ref h b d m e =
      fetch-held (taking allowed from to ref d b m) h b (ground (arith, eq_iff b h)) e

  part-taking :
      (allowed : List String) (from to : Store) (ref b x name : String) (d c : Descriptor)
      (m : Manifest)
      → Stands c (parts m)
      → allows allowed c.media_type ≡ true
      → lookup annotation_title c.annotations ≡ some name
      → fetch from c.digest ≡ some x
      → fetch (taking allowed from to ref d b m) c.digest ≡ some x
  unfolding taking
  part-taking allowed from to ref b x name d c m s a t e =
      fetch-held (taking allowed from to ref d b m) c.digest x
        (ground (
          arith,
          holds-append_left (taken allowed (contents from) (parts m)) to.titles c.digest (
              holds-taken allowed (contents from) (parts m) c name s a t
                (allows-contents from c.digest x e)),
        ))
        (fetch-is from c.digest x e)

  blob-held :
      (t : Store) (refs : List (String × Descriptor)) (b h x : String)
      → fetch t h ≡ some x
      → fetch (record t { refs = refs; blobs = b ∷ t.blobs }) h ≡ some x
  unfolding allows
  blob-held t refs b h x e =
      fetch-held (record t { refs = refs; blobs = b ∷ t.blobs }) h x
        (ground (arith, fetch-eq t h x e)) (fetch-is t h x e)

  blob-new :
      (t : Store) (refs : List (String × Descriptor)) (b h : String)
      → h ≡ b
      → fetch (record t { refs = refs; blobs = b ∷ t.blobs }) h ≡ some b
  unfolding allows
  blob-new t refs b h is =
      fetch-held (record t { refs = refs; blobs = b ∷ t.blobs }) h b (ground (arith, eq_iff b h)) is

  added :
      (t : Store) (name b : String) → fetch (record t { titles = (name, b) ∷ t.titles }) b ≡ some b
  unfolding holds
  added t name b =
      fetch-held (record t { titles = (name, b) ∷ t.titles }) b b (ground (arith, eq_refl b)) refl

  fetch-refs :
      (t : Store) (refs : List (String × Descriptor)) (h : String)
      → fetch (record t { refs = refs }) h ≡ fetch t h
  unfolding fetch
  fetch-refs t refs h = refl

  pub sample_library-IsLawful : IsLawful (sample_library one two)
  unfolding taking
  sample_library-IsLawful = record {
    unmarshal-marshal = λ c b h.
        subst (λ (y : String). (if str_eq y "{}" then some tt else none) ≡ some c)
          (some-injective _ _ h) refl;
    add_stored = λ t t' name typ b d h.
        subst
          (λ (q : Descriptor × Store).
            (fetch q.1 q.0.digest ≡ some b) × (q.0 ≡ named_descriptor name typ b))
          (some-injective _ _ h) (added t name b, refl);
    set_stored = λ t d b h. blob-new t t.refs b d.digest h;
    set_keeps = λ t d b h x e f. blob-held t t.refs b h x f;
    generated = generate_manifest-unmarshal;
    manifest_stored = λ t t' ref d b is h.
        subst (λ (s : Store). (lookup ref s.refs ≡ some d) × (fetch s d.digest ≡ some b))
          (some-injective _ _ h)
          (lookup-insert_self ref d t.refs, blob-new t (insert ref d t.refs) b d.digest is);
    manifest_keeps = λ t t' ref d b h x is e f.
        subst (λ (s : Store). fetch s h ≡ some x) (some-injective _ _ e)
          (blob-held t (insert ref d t.refs) b h x f);
    copy-resolve = λ allowed from to to' ref d c.
        let (b, m, r, f, g, is) = copied allowed from to to' ref d c in r;
    copy_resolved = λ allowed from to to' ref d c.
        let (b, m, r, f, g, is) = copied allowed from to to' ref d c in
        let k = record d { platform = if to.platforms then d.platform else none } in
        (k, rw is (lookup-insert_self ref k to.refs), refl, refl);
    copy_manifest = λ allowed from to to' ref d b c e.
        let (b', m, r, f, g, is) = copied allowed from to to' ref d c in
        let same : b' ≡ b = cc (f, e) in
        rw is (
          manifest-taking allowed from to ref d.digest b' d m (fetch-is from d.digest b' f)
          ∙ ap some same);
    copy_part = λ allowed from to to' ref d c b x m name h e u s a t f.
        let (b', m', r, f', g, is) = copied allowed from to to' ref d h in
        let same : m ≡ m' = cc (e, f', u, g) in
        rw is (part-taking allowed from to ref b' x name d c m' (rw same at s) a t f);
    copy_others = λ allowed from to to' ref other d c ne.
        let (b, m, r, f, g, is) = copied allowed from to to' ref d c in
        rw is (
          lookup-insert_ne ref other
            (record d { platform = if to.platforms then d.platform else none }) to.refs
            (λ e. ne (sym e)));
    copy_keeps = λ allowed from to to' ref h d x c e.
        let (b, m, r, f, g, is) = copied allowed from to to' ref d c in
        rw is (fetch-taking allowed from to ref h x b d m e);
    get_by_name-copy = λ allowed from to' ref d c b x m name h e u named a f.
        let (b', m', r, f', g, is) = copied allowed from new_memory to' ref d h in
        let same : m ≡ m' = cc (e, f', u, g) in
        rw (is, append-nil)
          (lookup-taken allowed (contents from) (parts m') c name (rw same at named) a
              (allows-contents from c.digest x f)
            ∙ ap some (fetch-is from c.digest x f));
    get-fetch = λ t d. refl;
    added_reference = λ t name d. (d, lookup-insert_self name d t.refs, refl, refl);
    added_others = λ t name other d ne. lookup-insert_ne name other d t.refs (λ e. ne (sym e));
    fetch-add_reference = λ t name h d. fetch-refs t (insert name d t.refs) h;
  }
