-- ===== src/Tui/Table/Rings.antt =====
-- The table of a ring buffer, after any entries of any maps.
use text.Mathlib.Text.{◌==◌ as str_eq}
use text.Mathlib.TextEquality.{eq_iff}
use mathlib.Core.List.{append_assoc, append-nil}
use bumblebee.Common.{
  ℕ, ◌≡◌, refl, sym, ap, ◌∙◌, ◌≢◌, inl, inr, String, Option, none, some, List, [], ◌∷◌, ◌++◌,
  length-append, arith, if◌then◌else◌, Bool-cases,
}
use bumblebee.Loader.Types.{
  MapType, hash, ring_buf, unspecified, array, perf_event_array, other_map, Labels, KvPair,
  MapEntry,
}
use bumblebee.Common.Dict.{lookup, insert, lookup-insert_self, lookup-insert_ne}
use bumblebee.Tui.Table.{
  MapValue, Tui, map_value, ring_rows, render_ring_buf, render_hash, with_entries, store_hash,
  render, watch_entry, watch,
}
use bumblebee.Tui.Table.Rows.{Shows, ring_rows-IsLayout, Shows-set_rows}

-- The entries of one map among all.
abbrev pub of_map : String → List MapEntry → List KvPair
of_map name [] = []
of_map name (r ∷ rs) = if str_eq r.name name then r.entry ∷ of_map name rs else of_map name rs

module _ (hash_of : Labels → ℕ) where
  store_hash-other :
      (name other : String) (current : MapValue) (o : Option (List KvPair)) (s : Tui)
      → other ≢ name
      → lookup name (store_hash hash_of other current o s).map_of_maps ≡ lookup name s.map_of_maps
  unfolding store_hash
  store_hash-other name other current none s ne = refl
  store_hash-other name other current (some entries) s ne =
      lookup-insert_ne other name _ s.map_of_maps ne

  -- An entry of another map leaves a map as it is.
  render-other :
      (name : String) (t : MapType) (r : MapEntry) (s : Tui)
      → r.name ≢ name
      → lookup name (render hash_of t r s).map_of_maps ≡ lookup name s.map_of_maps
  unfolding render render_hash render_ring_buf
  render-other name ring_buf r s ne = lookup-insert_ne r.name name _ s.map_of_maps ne
  render-other name hash r s ne = store_hash-other name r.name _ _ s ne
  render-other name unspecified r s ne = refl
  render-other name array r s ne = refl
  render-other name perf_event_array r s ne = refl
  render-other name other_map r s ne = refl

  pub watch_entry-other :
      (name : String) (r : MapEntry) (s : Tui)
      → r.name ≢ name
      → lookup name (watch_entry hash_of r s).map_of_maps ≡ lookup name s.map_of_maps
  unfolding watch_entry
  watch_entry-other name r s ne = render-other name (map_value r.name s).typ r s ne

  abbrev appended : MapValue → KvPair → MapValue
  appended mv e =
      let entries = mv.entries ++ (e ∷ []) in with_entries (ring_rows mv.keys entries) entries mv

  watch_entry-ring :
      (name : String) (r : MapEntry) (s : Tui) (mv : MapValue)
      → r.name ≡ name
      → lookup name s.map_of_maps ≡ some mv
      → mv.typ ≡ ring_buf
      → lookup name (watch_entry hash_of r s).map_of_maps ≡ some (appended mv r.entry)
  unfolding watch_entry render render_ring_buf
  watch_entry-ring name r s mv own found ring =
      let here : lookup r.name s.map_of_maps ≡ some mv =
        ap (λ n. lookup n s.map_of_maps) own ∙ found in
      let current : map_value r.name s ≡ mv = ground (arith, here) in
      ap (λ m. lookup name (render hash_of m.typ r s).map_of_maps) current
      ∙ ap (λ t. lookup name (render hash_of t r s).map_of_maps) ring
      ∙ ap (λ m. lookup name (insert r.name (appended m r.entry) s.map_of_maps)) current
      ∙ ap (λ n. lookup name (insert n (appended mv r.entry) s.map_of_maps)) own
      ∙ lookup-insert_self name (appended mv r.entry) s.map_of_maps

  Shows-appended :
      (mv : MapValue) (e : KvPair) → Shows ring_rows mv → Shows ring_rows (appended mv e)
  Shows-appended mv e showed =
      Shows-set_rows ring_rows-IsLayout mv (mv.entries ++ (e ∷ [])) showed
        (omega (arith, length-append mv.entries (e ∷ [])))
        (omega (arith, length-append mv.entries (e ∷ [])))

  -- A ring buffer's table keeps everything: after entries of any maps it holds what it held before and
  -- then all entries of its own, in order, and shows just these.
  pub watch-ring :
      (name : String) (rs : List MapEntry) (s : Tui) (mv : MapValue)
      → lookup name s.map_of_maps ≡ some mv
      → mv.typ ≡ ring_buf
      → Shows ring_rows mv
      → (after : MapValue) × (lookup name (watch hash_of rs s).map_of_maps ≡ some after)
        × (after.entries ≡ mv.entries ++ of_map name rs)
        × (after.keys ≡ mv.keys)
        × Shows ring_rows after
  unfolding watch
  watch-ring name [] s mv found ring showed = (mv, found, sym (append-nil mv.entries), refl, showed)
  watch-ring name (r ∷ rs) s mv found ring showed = elim (Bool-cases (str_eq r.name name)) [
    | inl own ↦
        let same : r.name ≡ name = (eq_iff r.name name).0 own in
        let now : lookup name (watch_entry hash_of r s).map_of_maps ≡ some (appended mv r.entry) =
          watch_entry-ring name r s mv same found ring in
        let (after, later, all, keys, shows) =
          watch-ring name rs (watch_entry hash_of r s) (appended mv r.entry) now ring
            (Shows-appended mv r.entry showed) in
        (
          after,
          later,
          all ∙ rw own (append_assoc mv.entries (r.entry ∷ []) (of_map name rs)),
          keys,
          shows,
        )
    | inr other ↦
        let stays : lookup name (watch_entry hash_of r s).map_of_maps ≡ some mv =
          watch_entry-other name r s (λ e. cc (other, (eq_iff r.name name).1 e)) ∙ found in
        let (after, later, all, keys, shows) =
          watch-ring name rs (watch_entry hash_of r s) mv stays ring showed in
        (after, later, all ∙ rw other refl, keys, shows)
  ]
