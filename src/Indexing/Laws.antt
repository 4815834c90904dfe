-- ===== src/Indexing/Laws.antt =====
-- The terms and the content of an indexed entry, and what rebuilding the index leaves on disk.
use passdoq.Prelude.{
  ◌≡◌, ◌∙◌, refl, sym, Bool, true, false, ◌||◌, none, some, List, [], ◌∷◌, ◌++◌, map, arith, is_set,
  All, ◌≤◌, length, leb, append_assoc, append-nil, Bool-cases, Option-cases, inl, inr,
}
use passdoq.Prelude.Exec.{ok}
use passdoq.Prelude.Text.{Text, codes, eq_text, eq_text_iff, eq_text_refl}
use passdoq.StdMap.{StdMap}
use passdoq.Vault.{Entry}
use passdoq.Vault.Entries.{has_tag}
use passdoq.Runcom.Files.{parent_path}
use passdoq.Xapian.{Xapian}
use passdoq.Xapian.Laws.{XapianLaws, IsUsable, HasShortTerms, is_prefixed}
use passdoq.Indexing.{
  IndexManager, get_doc_id, tag_term, metadata_term, set_db, set_stored, exists, index_tags,
  index_metadata, entry_to_document, commit, close_index, create_or_open, create_index, clear_index,
  erase_and_create, add_all, fill, rebuild_index,
}

-- One of the tags gives the term.
abbrev pub any_tag_term : Text → List Text → Bool
any_tag_term t [] = false
any_tag_term t (tag ∷ tags) = eq_text (tag_term tag) t || any_tag_term t tags

pub eq_text_same_front : (p s t : Text) → eq_text (p ++ s) (p ++ t) ≡ eq_text s t
unfolding eq_text
eq_text_same_front [] s t = refl
eq_text_same_front (c ∷ p) s t = ground (arith, eq_text_same_front p s t)

-- The term of a tag is found exactly at the entries with the tag.
pub any_tag_term-tag :
    (tag : Text) (tags : List Text) → any_tag_term (tag_term tag) tags ≡ has_tag tag tags
unfolding has_tag
any_tag_term-tag tag [] = refl
any_tag_term-tag tag (t ∷ tags) =
    ground (arith, any_tag_term-tag tag tags, eq_text_same_front (codes "TAG:") t tag)

-- The id and the tags of an entry fit into terms.
abbrev pub IsShort : Entry → Type 0
IsShort e = (length e.id ≤ 121) × All (λ tag. length tag ≤ 118) e.tags

any_tag_term-short :
    (t : Text) (tags : List Text)
    → All (λ tag. length tag ≤ 118) tags
    → any_tag_term t tags ≡ true
    → length t ≤ 122
any_tag_term-short t [] short h = absurd (ground arith)
any_tag_term-short t (tag ∷ tags) short h = elim (Bool-cases (eq_text (tag_term tag) t)) [
  | inl e ↦
      let same : tag_term tag ≡ t = (eq_text_iff (tag_term tag) t).0 e in rw (← same) (omega arith)
  | inr e ↦ any_tag_term-short t tags short.1 (rw e at h)
]

module _ ⦃x : Xapian⦄ (laws : XapianLaws x) where
  -- No text generates the term.
  abbrev pub Ungenerated : Text → Type 0
  Ungenerated t = (s : Text) → x.generates t s ≡ false

  prefixed-Ungenerated : (t : Text) → is_prefixed t ≡ true → Ungenerated t
  prefixed-Ungenerated t h s = elim (Bool-cases (x.generates t s)) [
    | inl g ↦ absurd (ground (arith, laws.generates-plain t s g))
    | inr g ↦ g
  ]

  has-index_tags :
      (t : Text) (tags : List Text) (d : x.Document)
      → Ungenerated t
      → x.has_term t (index_tags tags d) ≡ any_tag_term t tags || x.has_term t d
  unfolding index_tags
  has-index_tags t [] d h = refl
  has-index_tags t (tag ∷ tags) d h = ground (
    arith,
    has-index_tags t tags (x.add_boolean_term (tag_term tag) (x.index_text tag 1 d)) h,
    laws.has-boolean t 84 (codes "AG:" ++ tag) (x.index_text tag 1 d),
    laws.has-index_text t tag 1 d,
    h tag,
  )

  has-index_metadata :
      (t : Text) (m : StdMap Text) (d : x.Document)
      → Ungenerated t
      → x.has_term t (index_metadata m d) ≡ x.has_term t d
  unfolding index_metadata
  has-index_metadata t [] d h = refl
  has-index_metadata t ((key, value) ∷ m) d h =
      let s : Text = key ++ codes " " ++ value in
      ground (
        arith,
        has-index_metadata t m (x.add_value 0 (metadata_term key value) (x.index_text s 1 d)) h,
        laws.has-value t (metadata_term key value) 0 (x.index_text s 1 d),
        laws.has-index_text t s 1 d,
        h s,
      )

  -- Apart from the terms that its texts generate, an entry has those of its id and its tags only.
  pub has-entry :
      (t : Text) (e : Entry)
      → Ungenerated t
      → x.has_term t (entry_to_document e) ≡ eq_text (get_doc_id e.id) t || any_tag_term t e.tags
  unfolding entry_to_document get_doc_id
  has-entry t e h =
      let named = x.index_text e.name 2 x.new_document in
      let text = x.index_text e.username 1 named in
      let tagged = index_tags e.tags text in
      let filled = index_metadata e.metadata tagged in
      ground (
        arith,
        laws.has-boolean t 81 e.id (x.set_data e.id filled),
        laws.has-set_data t e.id filled,
        has-index_metadata t e.metadata tagged h,
        has-index_tags t e.tags text h,
        laws.has-index_text t e.username 1 named,
        laws.has-index_text t e.name 2 x.new_document,
        h e.username,
        h e.name,
        laws.has-new t,
      )

  long-Ungenerated : (t : Text) → leb (length t) 64 ≡ false → Ungenerated t
  long-Ungenerated t h s = elim (Bool-cases (x.generates t s)) [
    | inl g ↦ absurd (ground (arith, laws.generates-short t s g))
    | inr g ↦ g
  ]

  -- Every term of a short entry is short: generated ones are, and those of its id and its tags.
  entry-HasShortTerms : (e : Entry) → IsShort e → HasShortTerms x (entry_to_document e)
  unfolding get_doc_id
  entry-HasShortTerms e short t has = elim (Bool-cases (leb (length t) 64)) [
    | inl h ↦ ground arith
    | inr h ↦
        let known = has-entry t e (long-Ungenerated t h) in
        elim (Bool-cases (eq_text (get_doc_id e.id) t)) [
          | inl same ↦
              let f : get_doc_id e.id ≡ t = (eq_text_iff (get_doc_id e.id) t).0 same in
              rw (← f) (omega arith)
          | inr other ↦ any_tag_term-short t e.tags short.1 (ground (arith, known))
        ]
  ]

  pub has_prefixed-entry :
      (t : Text) (e : Entry)
      → is_prefixed t ≡ true
      → x.has_term t (entry_to_document e) ≡ eq_text (get_doc_id e.id) t || any_tag_term t e.tags
  has_prefixed-entry t e h = has-entry t e (prefixed-Ungenerated t h)

  pub get_data-entry : (e : Entry) → x.get_data (entry_to_document e) ≡ e.id
  unfolding entry_to_document
  get_data-entry e = rw (laws.get-boolean, laws.get-set_data) refl

  -- Adding short entries to an open database appends their documents.
  add_all_lem :
      (es : List Entry) (s : IndexManager x.Database) (b : x.Database)
      → ((d : x.Document) (b : x.Database)
          → HasShortTerms x d
          → (c : x.Database) × (x.add_document d b ≡ some c))
      → All IsShort es
      → s.db ≡ some b
      → (c : x.Database) × (add_all es s ≡ (ok tt, set_db (some c) s))
        × (x.documents c ≡ x.documents b ++ map entry_to_document es)
  unfolding add_all
  add_all_lem [] s b adds short h = (b, rw (sym h) refl, sym (append-nil (x.documents b)))
  add_all_lem (e ∷ es) s b adds short h =
      let (c, f) = adds (entry_to_document e) b (entry-HasShortTerms e short.0) in
      let (d, g, k) = add_all_lem es (set_db (some c) s) c adds short.1 refl in
      (
        d,
        rw (h) (rw f g),
        k
            ∙ rw (laws.documents-add (entry_to_document e) b f) (
                append_assoc (x.documents b) (entry_to_document e ∷ []) (map entry_to_document es)),
      )

  close_index_lem :
      (s : IndexManager x.Database)
      → (t : IndexManager x.Database) × (close_index s ≡ (ok tt, t))
        × (t.index_path ≡ s.index_path)
        × (t.db ≡ none)
  unfolding close_index commit
  close_index_lem s = elim (Option-cases s.db) [
    | inl e ↦ (s, rw e refl, refl, e)
    | inr (d, e) ↦ elim (Bool-cases (x.can_commit s.index_path)) [
      | inl f ↦ (set_db none (set_stored (some d) s), rw (e, f) refl, refl, refl)
      | inr f ↦ (set_db none s, rw (e, f) refl, refl, refl)
    ]
  ]

  -- The manager with an empty database, on disk and in its handle.
  abbrev emptied : IndexManager x.Database → IndexManager x.Database
  emptied t =
      set_db (some x.empty_database) (set_stored (some x.empty_database) (set_stored none t))

  erase_and_create_lem :
      (t : IndexManager x.Database)
      → x.can_remove_all t.index_path ≡ true
      → x.can_create_directories (parent_path t.index_path) ≡ true
      → x.can_open t.index_path ≡ true
      → t.db ≡ none
      → erase_and_create t ≡ (ok true, emptied t)
  unfolding erase_and_create exists create_index create_or_open
  erase_and_create_lem t r c o n =
      let closed : is_set t.db ≡ false = rw n refl in
      elim (Bool-cases (is_set (t.stored t.index_path))) [
        | inl e ↦ simp (e, closed, r, c, o) (rw (eq_text_refl t.index_path) refl)
        | inr e ↦ simp (e, closed, r, c, o) (rw (eq_text_refl t.index_path) refl)
      ]

  clear_index_lem :
      (s : IndexManager x.Database)
      → IsUsable x s.index_path (parent_path s.index_path)
      → (t : IndexManager x.Database) × (clear_index s ≡ (ok true, emptied t))
        × (t.index_path ≡ s.index_path)
  unfolding clear_index
  clear_index_lem s u =
      let (t, e, same, none_left) = close_index_lem s in
      (
        t,
        rw (e) (
            rw
              (erase_and_create_lem t (rw same u.removes) (rw same u.creates) (rw same u.opens)
                none_left)
              refl),
        same,
      )

  -- On a disk that can be used, rebuilding the index from short entries returns true; then the database on disk has
  -- exactly the documents of the entries, in their order.
  pub rebuild_index_lem :
      (es : List Entry) (s : IndexManager x.Database)
      → IsUsable x s.index_path (parent_path s.index_path)
      → All IsShort es
      → (d : x.Database) × ((rebuild_index es s).0 ≡ ok true)
        × ((rebuild_index es s).1.stored s.index_path ≡ some d)
        × (x.documents d ≡ map entry_to_document es)
  unfolding rebuild_index fill commit
  rebuild_index_lem es s u short =
      let (t, e, same) = clear_index_lem s u in
      let (d, f, g) = add_all_lem es (emptied t) x.empty_database u.adds short refl in
      let c : x.can_commit t.index_path ≡ true = rw same u.commits in
      let here : eq_text t.index_path s.index_path ≡ true = rw same (eq_text_refl s.index_path) in
      (
        d,
        rw e (rw f (rw c refl)),
        rw e (rw f (rw c (rw here refl))),
        g ∙ rw laws.documents-empty refl,
      )
