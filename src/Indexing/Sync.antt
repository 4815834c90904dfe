-- ===== src/Indexing/Sync.antt =====
-- The index stays that of the entries while they are changed one by one.
use passdoq.Prelude.{
  ◌≡◌, ◌∙◌, ◌↔◌, refl, sym, ap, true, false, not, some, List, [], ◌∷◌, map, filter_by, In,
  In-filter_by→, In-filter_by←, In-map→, In-map←, arith, inl, inr,
}
use passdoq.Prelude.Exec.{ok}
use passdoq.Prelude.Text.{Text, codes, eq_text, eq_text_refl}
use passdoq.Vault.{Entry}
use passdoq.Xapian.{Xapian}
use passdoq.Xapian.Laws.{XapianLaws, ChangeLaws}
use passdoq.Indexing.{
  IndexManager, get_doc_id, entry_to_document, commit, update_indexed, remove_entry,
}
use passdoq.Indexing.Laws.{any_tag_term, has_prefixed-entry, eq_text_same_front}

-- The entries with another id.
abbrev pub others : Text → List Entry → List Entry
others id es = filter_by (λ e. not (eq_text e.id id)) es

module _ ⦃x : Xapian⦄ (laws : XapianLaws x) where
  -- The database has the documents of the entries, and no other.
  abbrev pub Describes : List Entry → x.Database → Type 0
  Describes es b = (k : x.Document) → In k (x.documents b) ↔ In k (map entry_to_document es)

  any_tag_term-doc_id : (id : Text) (tags : List Text) → any_tag_term (get_doc_id id) tags ≡ false
  unfolding get_doc_id eq_text
  any_tag_term-doc_id id [] = refl
  any_tag_term-doc_id id (t ∷ tags) = any_tag_term-doc_id id tags

  has-doc_id :
      (id : Text) (e : Entry) → x.has_term (get_doc_id id) (entry_to_document e) ≡ eq_text e.id id
  unfolding get_doc_id
  has-doc_id id e = ground (
    arith,
    has_prefixed-entry laws (get_doc_id id) e refl,
    any_tag_term-doc_id id e.tags,
    eq_text_same_front (codes "Q") e.id id,
  )

  others→ :
      (id : Text) (es : List Entry) (k : x.Document)
      → In k (map entry_to_document (others id es))
      → In k (map entry_to_document es) × (x.has_term (get_doc_id id) k ≡ false)
  others→ id es k h =
      let (e, i, same) = In-map→ entry_to_document k (others id es) h in
      let (j, other) = In-filter_by→ (λ e. not (eq_text e.id id)) e es i in
      (
        In-map← entry_to_document k es e j same,
        ap (λ d. x.has_term (get_doc_id id) d) (sym same) ∙ has-doc_id id e ∙ ground arith,
      )

  others← :
      (id : Text) (es : List Entry) (k : x.Document)
      → In k (map entry_to_document es)
      → x.has_term (get_doc_id id) k ≡ false
      → In k (map entry_to_document (others id es))
  others← id es k h n =
      let (e, i, same) = In-map→ entry_to_document k es h in
      let other : eq_text e.id id ≡ false =
        sym (has-doc_id id e) ∙ ap (λ d. x.has_term (get_doc_id id) d) same ∙ n in
      In-map← entry_to_document k (others id es) e
        (In-filter_by← (λ e. not (eq_text e.id id)) e es i (rw other refl)) same

  module _ (changes : ChangeLaws x) where
    -- Where Xapian does what is documented and the calls do not fail, of an open database that has
    -- the documents of some entries and no other: `update_entry` leaves on disk the documents of the
    -- new entry and of those with another id, and `remove_entry` the documents of those with
    -- another id, and no other; both return true.
    pub update_indexed-Describes :
        (es : List Entry) (e : Entry) (id : Text) (s : IndexManager x.Database) (b c d : x.Database)
        → s.db ≡ some b
        → Describes es b
        → x.can_commit s.index_path ≡ true
        → x.replace_document (get_doc_id e.id) (entry_to_document e) b ≡ some c
        → x.delete_document (get_doc_id id) b ≡ some d
        → let (r, u) = update_indexed e s in
          let (q, v) = remove_entry id s in
          (r ≡ ok true)
          × (u.stored s.index_path ≡ some c)
          × Describes (e ∷ others e.id es) c
          × (q ≡ ok true)
          × (v.stored s.index_path ≡ some d)
          × Describes (others id es) d
    unfolding update_indexed remove_entry commit
    update_indexed-Describes es e id s b c d o described commits replaces deletes = (
      simp (o, commits, replaces),
      simp (o, commits, replaces) (rw (eq_text_refl s.index_path) refl),
      λ k. (
        (λ i.
            elim ((changes.documents-replace (get_doc_id e.id) (entry_to_document e) k b replaces).0
              i) [ inl f ↦ inl f | inr (j, n) ↦ inr (others← e.id es k ((described k).0 j) n) ]),
        λ i.
            (changes.documents-replace (get_doc_id e.id) (entry_to_document e) k b replaces).1
              (elim i [
                | inl f ↦ inl f
                | inr j ↦ let (l, n) = others→ e.id es k j in inr ((described k).1 l, n)
              ]),
      ),
      simp (o, commits, deletes),
      simp (o, commits, deletes) (rw (eq_text_refl s.index_path) refl),
      λ k. (
        (λ i.
            let (j, n) = (changes.documents-delete (get_doc_id id) k b deletes).0 i in
            others← id es k ((described k).0 j) n),
        λ i.
            let (j, n) = others→ id es k i in
            (changes.documents-delete (get_doc_id id) k b deletes).1 ((described k).1 j, n),
      ),
    )
