-- ===== src/Tui/Table/Latest.antt =====
-- A hash map's table shows the latest values, each once.
use mathlib.Core.Path.{subst}
use native.Mathlib.Decide.{ℕ_discrete}
use text.Mathlib.Text.{◌==◌ as str_eq}
use text.Mathlib.TextEquality.{eq_iff}
use bumblebee.Common.{
  ℕ, ◌≤◌, ◌<◌, ◌≡◌, refl, sym, ap, ◌∙◌, inl, inr, String, Option, none, some, List, [], ◌∷◌, ◌++◌,
  length, length-append, set, arith, ◌==◌, if◌then◌else◌, Bool-cases, Option-cases,
}
use bumblebee.Loader.Types.{hash, Labels, KvPair, MapEntry}
use bumblebee.Common.Dict.{lookup, lookup-insert_self}
use bumblebee.Tui.Table.{
  MapValue, Tui, map_value, hash_rows, find_index, updated_entries, render_hash, with_entries,
  store_hash, render, watch_entry, watch,
}
use bumblebee.Tui.Table.Rows.{Shows, hash_rows-IsLayout, Shows-set_rows}
use bumblebee.Tui.Table.Rings.{of_map, watch_entry-other}
use bumblebee.Tui.Table.Hashes.{
  shown, NoHash, Once, Hashed, find_index-none, shown-append, Once-append, Hashed-append,
  find_index-some, Once-set, Hashed-set, shown-set, length-set,
}

-- What a hash map's table is in order for.
pub record IsHashTable (hash_of : Labels → ℕ) (mv : MapValue) : Type 0 where
  pub is_hash : mv.typ ≡ hash
  pub once : Once mv.entries
  pub hashed : Hashed hash_of mv.entries
  pub shows : Shows hash_rows mv

module _ (hash_of : Labels → ℕ) where
  -- What an incoming entry makes of the entries: none where nothing is to be done.
  abbrev Updates : KvPair → List KvPair → Option (List KvPair) → Type 0
  Updates e es none =
      (j : ℕ) → shown j es ≡ (if hash_of e.key == j then some e.value else shown j es)
  Updates e es (some new) =
      Once new
      × Hashed hash_of new
      × (0 < length new)
      × (length es ≤ length new)
      × ((j : ℕ) → shown j new ≡ (if hash_of e.key == j then some e.value else shown j es))

  appended-Updates :
      (e : KvPair) (es : List KvPair)
      → Once es
      → Hashed hash_of es
      → NoHash (hash_of e.key) es
      → Updates e es (some (es ++ (record e { hash = hash_of e.key } ∷ [])))
  appended-Updates e es once hashed fresh =
      let x : KvPair = record e { hash = hash_of e.key } in
      (
        Once-append es x once fresh,
        Hashed-append hash_of es x hashed refl,
        omega (arith, length-append es (x ∷ [])),
        omega (arith, length-append es (x ∷ [])),
        λ j. shown-append (hash_of e.key) j es x fresh refl,
      )

  same_value :
      (h j : ℕ) (v : String) (es : List KvPair)
      → shown h es ≡ some v
      → shown j es ≡ (if h == j then some v else shown j es)
  same_value h j v es e = elim (ℕ_discrete h j) [
    | yes same ↦ ground (arith, e, ap (λ k. shown k es) same)
    | no ne ↦ ground arith
  ]

  updated_entries-Updates :
      (e : KvPair) (es : List KvPair)
      → Once es
      → Hashed hash_of es
      → Updates e es (updated_entries hash_of e es)
  unfolding updated_entries
  updated_entries-Updates e [] once hashed = appended-Updates e [] once hashed tt
  updated_entries-Updates e (y ∷ ys) once hashed =
      let es = y ∷ ys in
      let h = hash_of e.key in
      elim (Option-cases (find_index h es)) [
        | inl missing ↦
            let u : updated_entries hash_of e es ≡ some (es ++ (record e { hash = h } ∷ [])) =
              ground (arith, missing) in
            subst (Updates e es) (sym u)
              (appended-Updates e es once hashed (find_index-none h es missing))
        | inr (i, found) ↦
            let (x, at, same, value) = find_index-some h es i found in
            elim (Bool-cases (str_eq e.value x.value)) [
              | inl equal ↦
                  let u : updated_entries hash_of e es ≡ none = ground (arith, found, at, equal) in
                  let v : shown h es ≡ some e.value =
                    ground (arith, value, eq_iff e.value x.value) in
                  subst (Updates e es) (sym u) (λ j. same_value h j e.value es v)
              | inr other ↦
                  let u : updated_entries hash_of e es
                      ≡ some (set es i (record x { value = e.value })) =
                    ground (arith, found, at, other) in
                  subst (Updates e es) (sym u) (
                    Once-set h e.value es i x at once,
                    Hashed-set h e.value hash_of es i x at hashed,
                    omega (arith, length-set h e.value es i (record x { value = e.value })),
                    omega (arith, length-set h e.value es i (record x { value = e.value })),
                    λ j. shown-set h e.value j es i x found at,
                  )
            ]
      ]

  -- One entry of the map.
  abbrev Shown : KvPair → MapValue → MapValue → Type 0
  Shown e mv after =
      (after.keys ≡ mv.keys)
      × IsHashTable hash_of after
      × ((j : ℕ)
          → shown j after.entries
            ≡ (if hash_of e.key == j then some e.value else shown j mv.entries))

  store_hash-Shown :
      (name : String) (e : KvPair) (mv : MapValue) (s : Tui) (o : Option (List KvPair))
      → lookup name s.map_of_maps ≡ some mv
      → IsHashTable hash_of mv
      → Updates e mv.entries o
      → (after : MapValue) × (lookup name (store_hash hash_of name mv o s).map_of_maps ≡ some after)
        × Shown e mv after
  unfolding store_hash
  store_hash-Shown name e mv s none found ok up = (mv, found, (refl, ok, up))
  store_hash-Shown name e mv s (some new) found ok (once, hashed, some_entry, longer, up) =
      let after : MapValue = with_entries (hash_rows mv.keys new) new mv in
      (
        after,
        lookup-insert_self name after s.map_of_maps,
        (
          refl,
          record {
            is_hash = ok.is_hash;
            once = once;
            hashed = hashed;
            shows = Shows-set_rows hash_rows-IsLayout mv new ok.shows some_entry longer;
          },
          up,
        ),
      )

  watch_entry-hash :
      (name : String) (r : MapEntry) (s : Tui) (mv : MapValue)
      → r.name ≡ name
      → lookup name s.map_of_maps ≡ some mv
      → IsHashTable hash_of mv
      → (after : MapValue) × (lookup name (watch_entry hash_of r s).map_of_maps ≡ some after)
        × Shown r.entry mv after
  unfolding watch_entry render render_hash
  watch_entry-hash name r s mv own found ok =
      let here : lookup r.name s.map_of_maps ≡ some mv =
        ap (λ n. lookup n s.map_of_maps) own ∙ found in
      let current : map_value r.name s ≡ mv = ground (arith, here) in
      let rendered : watch_entry hash_of r s
          ≡ store_hash hash_of name mv (updated_entries hash_of r.entry mv.entries) s =
        ap (λ m. render hash_of m.typ r s) current
        ∙ ap (λ t. render hash_of t r s) ok.is_hash
        ∙ ap (λ m. store_hash hash_of r.name m (updated_entries hash_of r.entry m.entries) s)
            current
        ∙ ap (λ n. store_hash hash_of n mv (updated_entries hash_of r.entry mv.entries) s) own in
      let (after, stored, shows) =
        store_hash-Shown name r.entry mv s (updated_entries hash_of r.entry mv.entries) found ok
          (updated_entries-Updates r.entry mv.entries ok.once ok.hashed) in
      (after, ap (λ (t : Tui). lookup name t.map_of_maps) rendered ∙ stored, shows)

  -- The last value among entries for the labels of a hash, or else the one before them.
  abbrev pub last_sent : ℕ → List KvPair → Option String → Option String
  last_sent h [] before = before
  last_sent h (e ∷ es) before = last_sent h es (if hash_of e.key == h then some e.value else before)

  -- A hash map's table shows, after entries of any maps, for each hash of labels the last value that
  -- its own entries have for it, or the one that it showed before. It still has no two rows for one
  -- hash, each row's hash is that of its labels, and the cells are those rows, and no others.
  pub watch-hash :
      (name : String) (rs : List MapEntry) (s : Tui) (mv : MapValue)
      → lookup name s.map_of_maps ≡ some mv
      → IsHashTable hash_of mv
      → (after : MapValue) × (lookup name (watch hash_of rs s).map_of_maps ≡ some after)
        × (after.keys ≡ mv.keys)
        × IsHashTable hash_of after
        × ((h : ℕ) → shown h after.entries ≡ last_sent h (of_map name rs) (shown h mv.entries))
  unfolding watch
  watch-hash name [] s mv found ok = (mv, found, refl, ok, λ h. refl)
  watch-hash name (r ∷ rs) s mv found ok = elim (Bool-cases (str_eq r.name name)) [
    | inl own ↦
        let (next, now, (keys, next_ok, up)) =
          watch_entry-hash name r s mv ((eq_iff r.name name).0 own) found ok in
        let (after, later, same_keys, after_ok, latest) =
          watch-hash name rs (watch_entry hash_of r s) next now next_ok in
        (
          after,
          later,
          same_keys ∙ keys,
          after_ok,
          λ h. rw own (latest h ∙ ap (last_sent h (of_map name rs)) (up h)),
        )
    | inr other ↦
        let stays : lookup name (watch_entry hash_of r s).map_of_maps ≡ some mv =
          watch_entry-other hash_of name r s (λ e. cc (other, (eq_iff r.name name).1 e)) ∙ found in
        let (after, later, keys, after_ok, latest) =
          watch-hash name rs (watch_entry hash_of r s) mv stays ok in
        (after, later, keys, after_ok, λ h. rw other (latest h))
  ]
