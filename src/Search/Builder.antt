-- ===== src/Search/Builder.antt =====
-- The query that a `QueryBuilder` of src/search.cpp makes, and the length of a snippet.
use passdoq.Prelude.{
  ◌≡◌, ◌≤◌, inl, inr, refl, Bool, true, false, not, ◌&&◌, ◌||◌, List, [], ◌∷◌, ◌++◌, arith, length,
  take, ltb, length-append, length-take, Bool-cases,
}
use passdoq.Prelude.Text.{Text, codes}
use passdoq.Xapian.{Xapian}
use passdoq.Xapian.Laws.{XapianLaws, any_match, all_match}
use passdoq.Indexing.{tag_term, metadata_term}
use passdoq.Search.{
  QueryBuilder, new_builder, snippet_of, add_term, add_phrase, filter_tag, filter_metadata,
  main_query, build_query, build,
}

-- What was asked of a builder, in turn.
pub data Part : Type 0 where
  with_term with_phrase with_tag : Text → Part
  with_metadata : Text → Text → Part

-- A snippet has at most 100 characters.
length-snippet_of : (content : Text) → length (snippet_of content) ≤ 100
unfolding snippet_of
length-snippet_of content = elim (Bool-cases (ltb 100 (length content))) [
  | inl e ↦
      rw e (omega (arith, length-append (take 97 content) (codes "..."), length-take 97 content))
  | inr e ↦ rw e (ground arith)
]

module _ ⦃x : Xapian⦄ (laws : XapianLaws x) where
  abbrev add_part : Part → QueryBuilder x.Query → QueryBuilder x.Query
  add_part (with_term t) b = add_term t b
  add_part (with_phrase t) b = add_phrase t b
  add_part (with_tag t) b = filter_tag t b
  add_part (with_metadata k v) b = filter_metadata k v b

  abbrev pub add_parts : List Part → QueryBuilder x.Query → QueryBuilder x.Query
  add_parts [] b = b
  add_parts (a ∷ as_) b = add_parts as_ (add_part a b)

  -- Whether a text stands in the document; the empty one counts as standing in every document.
  abbrev pub stands_in : Text → x.Document → Bool
  stands_in [] d = true
  stands_in (c ∷ t) d = x.has_term (c ∷ t) d

  match-stands_in : (t : Text) (d : x.Document) → x.is_match (x.term_query t 1 0) d ≡ stands_in t d
  match-stands_in [] d = laws.match-empty_term 1 0 d
  match-stands_in (c ∷ t) d = laws.match-term c t 1 0 d

  pub match-tag_term :
      (tag : Text) (d : x.Document)
      → x.is_match (x.term_query (tag_term tag) 1 0) d ≡ x.has_term (tag_term tag) d
  match-tag_term tag d = laws.match-term 84 (codes "AG:" ++ tag) 1 0 d

  pub match-metadata_term :
      (k v : Text) (d : x.Document)
      → x.is_match (x.term_query (metadata_term k v) 1 0) d ≡ x.has_term (metadata_term k v) d
  match-metadata_term [] v d = laws.match-term 58 v 1 0 d
  match-metadata_term (c ∷ k) v d = match-stands_in (metadata_term (c ∷ k) v) d

  -- Whether terms or phrases were asked for, whether one of them stands in the document, and whether
  -- it has all that it is filtered by.
  abbrev pub asks : List Part → Bool
  asks [] = false
  asks (with_term t ∷ l) = true
  asks (with_phrase t ∷ l) = true
  asks (with_tag t ∷ l) = asks l
  asks (with_metadata k v ∷ l) = asks l

  abbrev pub has_one : List Part → x.Document → Bool
  has_one [] d = false
  has_one (with_term t ∷ l) d = stands_in t d || has_one l d
  has_one (with_phrase t ∷ l) d = stands_in t d || has_one l d
  has_one (with_tag t ∷ l) d = has_one l d
  has_one (with_metadata k v ∷ l) d = has_one l d

  abbrev pub has_all : List Part → x.Document → Bool
  has_all [] d = true
  has_all (with_term t ∷ l) d = has_all l d
  has_all (with_phrase t ∷ l) d = has_all l d
  has_all (with_tag t ∷ l) d = x.has_term (tag_term t) d && has_all l d
  has_all (with_metadata k v ∷ l) d = x.has_term (metadata_term k v) d && has_all l d

  any_match-append :
      (l k : List x.Query) (d : x.Document)
      → any_match x (l ++ k) d ≡ any_match x l d || any_match x k d
  any_match-append [] k d = refl
  any_match-append (q ∷ l) k d = ground (arith, any_match-append l k d)

  all_match-append :
      (l k : List x.Query) (d : x.Document)
      → all_match x (l ++ k) d ≡ all_match x l d && all_match x k d
  all_match-append [] k d = refl
  all_match-append (q ∷ l) k d = ground (arith, all_match-append l k d)

  abbrev some_query : List x.Query → Bool
  some_query [] = false
  some_query (q ∷ l) = true

  some_query-append : (l : List x.Query) (q : x.Query) → some_query (l ++ q ∷ []) ≡ true
  some_query-append [] q = refl
  some_query-append (p ∷ l) q = refl

  match-main_query :
      (qs : List x.Query) (d : x.Document)
      → x.is_match (main_query qs) d ≡ not (some_query qs) || any_match x qs d
  match-main_query [] d = laws.match-match_all d
  match-main_query (q ∷ qs) d = laws.match-op_or q qs d

  match-build_query :
      (qs fs : List x.Query) (d : x.Document)
      → x.is_match (build_query qs fs) d
        ≡ (not (some_query qs) || any_match x qs d) && all_match x fs d
  match-build_query qs [] d = ground (arith, match-main_query qs d)
  match-build_query qs (f ∷ fs) d = ground (
    arith,
    laws.match-op_filter (main_query qs) (x.op_and (f ∷ fs)) d,
    laws.match-op_and f fs d,
    match-main_query qs d,
  )

  match-add_parts :
      (l : List Part) (b : QueryBuilder x.Query) (d : x.Document)
      → x.is_match (build (add_parts l b)) d
        ≡ (not (some_query b.queries || asks l) || (any_match x b.queries d || has_one l d))
          && (all_match x b.filters d && has_all l d)
  unfolding build add_term add_phrase filter_tag filter_metadata
  match-add_parts [] b d = ground (arith, match-build_query b.queries b.filters d)
  match-add_parts (with_term t ∷ l) b d =
      let q = x.term_query t 1 0 in
      ground (
        arith,
        match-add_parts l (add_term t b) d,
        some_query-append b.queries q,
        any_match-append b.queries (q ∷ []) d,
        match-stands_in t d,
      )
  match-add_parts (with_phrase t ∷ l) b d =
      let q = x.term_query t 1 0 in
      ground (
        arith,
        match-add_parts l (add_phrase t b) d,
        some_query-append b.queries q,
        any_match-append b.queries (q ∷ []) d,
        match-stands_in t d,
      )
  match-add_parts (with_tag t ∷ l) b d =
      let q = x.term_query (tag_term t) 1 0 in
      ground (
        arith,
        match-add_parts l (filter_tag t b) d,
        all_match-append b.filters (q ∷ []) d,
        match-tag_term t d,
      )
  match-add_parts (with_metadata k v ∷ l) b d =
      let q = x.term_query (metadata_term k v) 1 0 in
      ground (
        arith,
        match-add_parts l (filter_metadata k v b) d,
        all_match-append b.filters (q ∷ []) d,
        match-metadata_term k v d,
      )

  -- Where Xapian does what is documented, the query that a builder makes matches a document exactly
  -- if it has one of the terms and phrases that were added, or none was, or one of them is empty,
  -- and if it has all terms that were filtered by, whatever their order.
  pub match-build :
      (l : List Part) (d : x.Document)
      → x.is_match (build (add_parts l new_builder)) d
        ≡ (not (asks l) || has_one l d) && has_all l d
  match-build l d = ground (arith, match-add_parts l new_builder d)
