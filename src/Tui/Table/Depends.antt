-- ===== src/Tui/Table/Depends.antt =====
-- What `watch` of pkg/tui/tui.go makes of a map depends on that map alone.
use text.Mathlib.Text.{◌==◌ as str_eq}
use text.Mathlib.TextEquality.{eq_iff}
use bumblebee.Common.{
  ℕ, ◌≡◌, ◌≢◌, sym, ap, ◌∙◌, inl, inr, String, Option, none, some, List, [], ◌∷◌, ◌++◌, arith,
  Bool-cases,
}
use bumblebee.Loader.Types.{
  MapType, hash, ring_buf, unspecified, array, perf_event_array, other_map, Labels, KvPair,
  MapEntry,
}
use bumblebee.Common.Dict.{lookup, lookup-insert_self}
use bumblebee.Tui.Table.{
  MapValue, Tui, no_map_value, map_value, with_entries, ring_rows, updated_entries, store_hash,
  render_hash, render_ring_buf, render, watch_entry,
}
use bumblebee.Tui.Table.Rings.{watch_entry-other}

module _ (hash_of : Labels → ℕ) where
  store_hash-lookup :
      (name : String) (mv : MapValue) (o : Option (List KvPair)) (s t : Tui)
      → lookup name s.map_of_maps ≡ lookup name t.map_of_maps
      → lookup name (store_hash hash_of name mv o s).map_of_maps
        ≡ lookup name (store_hash hash_of name mv o t).map_of_maps
  unfolding store_hash
  store_hash-lookup name mv none s t same = same
  store_hash-lookup name mv (some entries) s t same =
      lookup-insert_self name _ s.map_of_maps ∙ sym (lookup-insert_self name _ t.map_of_maps)

  -- Rendering depends on the map of the entry alone.
  render-lookup :
      (typ : MapType) (e : MapEntry) (s t : Tui)
      → lookup e.name s.map_of_maps ≡ lookup e.name t.map_of_maps
      → map_value e.name s ≡ map_value e.name t
      → lookup e.name (render hash_of typ e s).map_of_maps
        ≡ lookup e.name (render hash_of typ e t).map_of_maps
  unfolding render render_hash render_ring_buf
  render-lookup hash e s t same value =
      ap
        (λ (mv : MapValue).
          lookup e.name
            (store_hash hash_of e.name mv (updated_entries hash_of e.entry mv.entries)
              s).map_of_maps)
        value
      ∙ store_hash-lookup e.name (map_value e.name t) _ s t same
  render-lookup ring_buf e s t same value =
      lookup-insert_self e.name _ s.map_of_maps
      ∙ ap
          (λ (mv : MapValue).
            let entries = mv.entries ++ (e.entry ∷ []) in
            some (with_entries (ring_rows mv.keys entries) entries mv))
          value
      ∙ sym (lookup-insert_self e.name _ t.map_of_maps)
  render-lookup unspecified e s t same value = same
  render-lookup array e s t same value = same
  render-lookup perf_event_array e s t same value = same
  render-lookup other_map e s t same value = same

  own-lookup :
      (e : MapEntry) (s t : Tui)
      → lookup e.name s.map_of_maps ≡ lookup e.name t.map_of_maps
      → lookup e.name (watch_entry hash_of e s).map_of_maps
        ≡ lookup e.name (watch_entry hash_of e t).map_of_maps
  unfolding watch_entry
  own-lookup e s t same =
      let value : map_value e.name s ≡ map_value e.name t =
        ap (λ (o : Option MapValue). elim o [ none ↦ no_map_value | some mv ↦ mv ]) same in
      ap (λ (mv : MapValue). lookup e.name (render hash_of mv.typ e s).map_of_maps) value
      ∙ render-lookup (map_value e.name t).typ e s t same value

  pub watch_entry-lookup :
      (k : String) (e : MapEntry) (s t : Tui)
      → lookup k s.map_of_maps ≡ lookup k t.map_of_maps
      → lookup k (watch_entry hash_of e s).map_of_maps
        ≡ lookup k (watch_entry hash_of e t).map_of_maps
  watch_entry-lookup k e s t same = elim (Bool-cases (str_eq e.name k)) [
    | inl is_own ↦
        let named = (eq_iff e.name k).0 is_own in rw (← named) (own-lookup e s t (rw named same))
    | inr differs ↦
        let ne : e.name ≢ k = ground (arith, differs, eq_iff e.name k) in
        watch_entry-other hash_of k e s ne ∙ same ∙ sym (watch_entry-other hash_of k e t ne)
  ]
