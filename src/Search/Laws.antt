-- ===== src/Search/Laws.antt =====
-- What the searches find in an index that was rebuilt.
use passdoq.Prelude.{
  ℕ, ◌≡◌, ◌≤◌, ◌↔◌, ◌∙◌, ◌==◌, refl, ap, sym, All, Bool, true, false, not, ◌&&◌, some, List, [],
  ◌∷◌, map, arith, length, filter_by, In, In-filter_by→, In-filter_by←, In-map→, In-map←,
  length-map,
}
use passdoq.Prelude.Exec.{ok}
use passdoq.Prelude.Text.{Text, eq_text}
use passdoq.Platform.{Platform}
use passdoq.StdMap.{values}
use passdoq.Vault.{Entry, Session, unlocked, ensure_unlocked}
use passdoq.Vault.Entries.{matches_tag, list_entries, search_by_tag}
use passdoq.Runcom.Files.{parent_path}
use passdoq.Xapian.{Xapian}
use passdoq.Xapian.Laws.{XapianLaws, IsUsable}
use passdoq.Indexing.{
  IndexManager, entry_to_document, get_doc_id, tag_term, metadata_term, rebuild_index,
}
use passdoq.Indexing.Laws.{
  any_tag_term, any_tag_term-tag, Ungenerated, has-entry, has_prefixed-entry, get_data-entry,
  rebuild_index_lem, IsShort,
}
use passdoq.Search.Builder.{match-build, with_tag, with_metadata}
use passdoq.Search.{
  SearchResult, new_engine, new_builder, filter_tag, filter_metadata, build, to_result,
  matches_to_results, open_engine, search_query, search_tag, search_metadata,
}

module _ ⦃x : Xapian⦄ (laws : XapianLaws x) where
  -- What the searches by one term find in a rebuilt index: the ids of the entries whose documents
  -- have the term.
  Finds : Text → List Entry → List SearchResult → Text → Type 0
  Finds t es found id =
      In id (map (λ r. r.entry_id) found)
      ↔ ((e : Entry) × In e es × (x.has_term t (entry_to_document e) ≡ true) × (e.id ≡ id))

  search_term-Finds :
      (t : Text) (es : List Entry) (q : x.Query) (b : x.Database) (n : ℕ) (id : Text)
      → ((d : x.Document) → x.is_match q d ≡ x.has_term t d)
      → x.documents b ≡ map entry_to_document es
      → length es ≤ n
      → (l : List (x.Document × ℕ)) → x.get_mset q n b ≡ some l
      → Finds t es (matches_to_results l) id
  unfolding Finds matches_to_results
  search_term-Finds t es q b n id same docs room l found = (there, back)
    where
      room' : length (x.documents b) ≤ n
      room' = rw docs (rw (length-map entry_to_document es) room)

      there :
          In id (map (λ r. r.entry_id) (map to_result l))
          → (e : Entry) × In e es × (x.has_term t (entry_to_document e) ≡ true) × (e.id ≡ id)
      there h =
          let (r, ir, er) = In-map→ (λ (r : SearchResult). r.entry_id) id (map to_result l) h in
          let (m, im, em) = In-map→ to_result r l ir in
          let hit = In-map← (λ (c : x.Document × ℕ). c.0) m.0 l m im refl in
          let (stored, matched) = (laws.mset-exact q n b m.0 found room').0 hit in
          let (e, ie, ee) = In-map→ entry_to_document m.0 es (rw docs at stored) in
          (
            e,
            ie,
            ap (λ d. x.has_term t d) ee ∙ sym (same m.0) ∙ matched,
            sym (get_data-entry laws e)
                ∙ ap (λ d. x.get_data d) ee
                ∙ ap (λ (c : SearchResult). c.entry_id) em
                ∙ er,
          )

      back :
          ((e : Entry) × In e es × (x.has_term t (entry_to_document e) ≡ true) × (e.id ≡ id))
          → In id (map (λ r. r.entry_id) (map to_result l))
      back (e, i, has, same_id) =
          let d = entry_to_document e in
          let stored : In d (x.documents b) = rw docs (In-map← entry_to_document d es e i refl) in
          let hit = (laws.mset-exact q n b d found room').1 (stored, same d ∙ has) in
          let (m, im, em) = In-map→ (λ (c : x.Document × ℕ). c.0) d l hit in
          In-map← (λ (r : SearchResult). r.entry_id) id (map to_result l) (to_result m)
            (In-map← to_result (to_result m) l m im refl)
            (ap (λ c. x.get_data c) em ∙ get_data-entry laws e ∙ same_id)

  -- A search in the engine that was opened on a rebuilt index, as a search in the rebuilt database.
  search_rebuilt :
      (t : Text) (q : x.Query) (es : List Entry) (s : IndexManager x.Database) (n : ℕ) (id : Text)
      → ((d : x.Document) → x.is_match q d ≡ x.has_term t d)
      → IsUsable x s.index_path (parent_path s.index_path)
      → All IsShort es
      → length es ≤ n
      → let (r, u) = rebuild_index es s in
        let (o, engine) = open_engine u.stored (new_engine s.index_path) in
        (r ≡ ok true) × (o ≡ true) × Finds t es (search_query q n engine) id
  unfolding open_engine search_query
  search_rebuilt t q es s n id same usable short room =
      let (d, r, stored, docs) = rebuild_index_lem laws es s usable short in
      let (l, e) = usable.finds q n d in
      (
        r,
        rw (usable.opens, stored) refl,
        rw (usable.opens, stored) (rw e (search_term-Finds t es q d n id same docs room l e)),
      )

  has_tag_term :
      (tag : Text) (e : Entry) → x.has_term (tag_term tag) (entry_to_document e) ≡ matches_tag tag e
  unfolding get_doc_id eq_text
  has_tag_term tag e =
      ground (arith, has_prefixed-entry laws (tag_term tag) e refl, any_tag_term-tag tag e.tags)

  Finds-tag :
      (tag : Text) (es : List Entry) (found : List SearchResult) (id : Text)
      → Finds (tag_term tag) es found id
      → In id (map (λ r. r.entry_id) found)
        ↔ In id (map (λ e. e.id) (filter_by (matches_tag tag) es))
  unfolding Finds
  Finds-tag tag es found id (there, back) = (
    (λ h.
        let (e, i, has, same_id) = there h in
        In-map← (λ (c : Entry). c.id) id (filter_by (matches_tag tag) es) e
          (In-filter_by← (matches_tag tag) e es i (sym (has_tag_term tag e) ∙ has)) same_id),
    (λ h.
        let (e, i, same_id) = In-map→ (λ (c : Entry). c.id) id (filter_by (matches_tag tag) es) h in
        let (j, has) = In-filter_by→ (matches_tag tag) e es i in
        back (e, j, has_tag_term tag e ∙ has, same_id)),
  )

  -- Where Xapian does what is documented and the disk can be used: when the index is rebuilt from
  -- the entries of an unlocked vault, with ids of at most 121 and tags of at most 118 bytes, which
  -- returns true, an engine that is opened on it afterwards finds by a tag, given room for all
  -- entries, exactly the ids of the entries that `search_by_tag` of the vault returns.
  pub search_tag-rebuilt :
      ⦃p : Platform⦄ (v : Session) (s : IndexManager x.Database) (tag : Text) (n : ℕ) (id : Text)
      → v.state ≡ unlocked
      → IsUsable x s.index_path (parent_path s.index_path)
      → All IsShort (values v.entries)
      → length (values v.entries) ≤ n
      → let (r, u) = rebuild_index (values v.entries) s in
        let (o, engine) = open_engine u.stored (new_engine s.index_path) in
        ((list_entries v).0 ≡ ok (values v.entries))
        × (r ≡ ok true)
        × (o ≡ true)
        × ((es : List Entry) × ((search_by_tag tag v).0 ≡ ok es)
            × (In id (map (λ r. r.entry_id) (search_tag tag n engine))
                ↔ In id (map (λ e. e.id) es)))
  unfolding list_entries search_by_tag ensure_unlocked search_tag
  search_tag-rebuilt v s tag n id open_state usable short room =
      let es = values v.entries in
      let q = build (filter_tag tag new_builder) in
      let same : (d : x.Document) → x.is_match q d ≡ x.has_term (tag_term tag) d =
        λ d. ground (arith, match-build laws (with_tag tag ∷ []) d) in
      let (r, o, found) = search_rebuilt (tag_term tag) q es s n id same usable short room in
      (
        rw open_state refl,
        r,
        o,
        (filter_by (matches_tag tag) es, rw open_state refl, Finds-tag tag es _ id found),
      )

  -- The first character is neither that of `Q…` nor that of `TAG:…`.
  abbrev pub starts_elsewhere : Text → Bool
  starts_elsewhere [] = false
  starts_elsewhere (c ∷ t) = not (c == 81) && not (c == 84)

  no_tag_term :
      (key value : Text) (tags : List Text)
      → starts_elsewhere key ≡ true
      → any_tag_term (metadata_term key value) tags ≡ false
  unfolding eq_text
  no_tag_term [] value tags h = absurd (ground arith)
  no_tag_term (c ∷ key) value [] h = refl
  no_tag_term (c ∷ key) value (tag ∷ tags) h = ground (arith, no_tag_term (c ∷ key) value tags h)

  no_doc_id :
      (key value id : Text)
      → starts_elsewhere key ≡ true
      → eq_text (get_doc_id id) (metadata_term key value) ≡ false
  unfolding eq_text get_doc_id
  no_doc_id [] value id h = absurd (ground arith)
  no_doc_id (c ∷ key) value id h = ground arith

  -- Where Xapian does what is documented and the disk can be used: after the index was rebuilt,
  -- which returns true, from entries with ids of at most 121 and tags of at most 118 bytes, a
  -- search for a key of the metadata, which begins neither with `Q` nor with `T`, and a value,
  -- given room for all entries, finds nothing, whatever the metadata of the entries, unless a text
  -- happens to generate the term `key:value`.
  pub search_metadata-empty :
      (es : List Entry) (s : IndexManager x.Database) (key value : Text) (n : ℕ) (id : Text)
      → IsUsable x s.index_path (parent_path s.index_path)
      → All IsShort es
      → length es ≤ n
      → starts_elsewhere key ≡ true
      → Ungenerated laws (metadata_term key value)
      → let (r, u) = rebuild_index es s in
        let (o, engine) = open_engine u.stored (new_engine s.index_path) in
        (r ≡ ok true)
        × (o ≡ true)
        × ¬ (In id (map (λ r. r.entry_id) (search_metadata key value n engine)))
  unfolding search_metadata Finds
  search_metadata-empty es s key value n id usable short room elsewhere ungenerated =
      let t = metadata_term key value in
      let q = build (filter_metadata key value new_builder) in
      let same : (d : x.Document) → x.is_match q d ≡ x.has_term t d =
        λ d. ground (arith, match-build laws (with_metadata key value ∷ []) d) in
      let (r, o, found) = search_rebuilt t q es s n id same usable short room in
      (
        r,
        o,
        λ h.
            let (e, i, has, same_id) = found.0 h in
            absurd (
              ground (
                arith,
                has,
                has-entry laws t e ungenerated,
                no_tag_term key value e.tags elsewhere,
                no_doc_id key value e.id elsewhere,
              )),
      )
