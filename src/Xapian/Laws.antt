-- ===== src/Xapian/Laws.antt =====
-- What is relied on of Xapian, as its documentation states it.
use passdoq.Prelude.{
  ◌⊎◌, ℕ, ◌≡◌, ◌≤◌, ◌↔◌, Bool, true, false, ◌&&◌, ◌||◌, some, List, [], ◌∷◌, ◌++◌, leb, length, map,
  In,
}
use passdoq.Prelude.Text.{Text, eq_text}
use passdoq.Xapian.{Xapian}

-- Terms that begin with a capital letter are kept for prefixes.
abbrev pub is_prefixed : Text → Bool
is_prefixed [] = false
is_prefixed (c ∷ t) = leb 65 c && leb c 90

module _ (x : Xapian) where
  abbrev pub any_match : List x.Query → x.Document → Bool
  any_match [] d = false
  any_match (q ∷ qs) d = x.is_match q d || any_match qs d

  abbrev pub all_match : List x.Query → x.Document → Bool
  all_match [] d = true
  all_match (q ∷ qs) d = x.is_match q d && all_match qs d

  pub record XapianLaws : Type 0 where
    pub has-new : (t : Text) → x.has_term t x.new_document ≡ false
    pub has-index_text :
        (t s : Text) (w : ℕ) (d : x.Document)
        → x.has_term t (x.index_text s w d) ≡ x.has_term t d || x.generates t s
    -- a term that is added is not empty
    pub has-boolean :
        (t : Text) (c : ℕ) (u : Text) (d : x.Document)
        → x.has_term t (x.add_boolean_term (c ∷ u) d) ≡ eq_text (c ∷ u) t || x.has_term t d
    pub has-value :
        (t v : Text) (n : ℕ) (d : x.Document) → x.has_term t (x.add_value n v d) ≡ x.has_term t d
    pub has-set_data :
        (t s : Text) (d : x.Document) → x.has_term t (x.set_data s d) ≡ x.has_term t d
    -- generated terms are in lower case
    pub generates-plain : (t s : Text) → x.generates t s ≡ true → is_prefixed t ≡ false
    -- longer words are ignored
    pub generates-short : (t s : Text) → x.generates t s ≡ true → length t ≤ 64
    pub get-set_data : (s : Text) (d : x.Document) → x.get_data (x.set_data s d) ≡ s
    pub get-boolean :
        (t : Text) (d : x.Document) → x.get_data (x.add_boolean_term t d) ≡ x.get_data d
    pub documents-empty : x.documents x.empty_database ≡ []
    -- a new document gets the next number
    pub documents-add :
        (d : x.Document) (b : x.Database) {c : x.Database}
        → x.add_document d b ≡ some c
        → x.documents c ≡ x.documents b ++ d ∷ []
    pub match-term :
        (c : ℕ) (t : Text) (wqf pos : ℕ) (d : x.Document)
        → x.is_match (x.term_query (c ∷ t) wqf pos) d ≡ x.has_term (c ∷ t) d
    -- a query for the empty term matches every document
    pub match-empty_term :
        (wqf pos : ℕ) (d : x.Document) → x.is_match (x.term_query [] wqf pos) d ≡ true
    pub match-match_all : (d : x.Document) → x.is_match x.match_all d ≡ true
    pub match-op_or :
        (q : x.Query) (qs : List x.Query) (d : x.Document)
        → x.is_match (x.op_or (q ∷ qs)) d ≡ any_match (q ∷ qs) d
    pub match-op_and :
        (q : x.Query) (qs : List x.Query) (d : x.Document)
        → x.is_match (x.op_and (q ∷ qs)) d ≡ all_match (q ∷ qs) d
    pub match-op_filter :
        (q f : x.Query) (d : x.Document)
        → x.is_match (x.op_filter q f) d ≡ x.is_match q d && x.is_match f d
    -- all of them where there is room for every document
    pub mset-exact :
        (q : x.Query) (n : ℕ) (b : x.Database) (d : x.Document) {l : List (x.Document × ℕ)}
        → x.get_mset q n b ≡ some l
        → length (x.documents b) ≤ n
        → In d (map (λ m. m.0) l) ↔ (In d (x.documents b) × (x.is_match q d ≡ true))

  -- A term has at most 245 bytes in a database, where a zero byte counts twice; 122 bytes always fit.
  abbrev pub HasShortTerms : x.Document → Type 0
  HasShortTerms d = (t : Text) → x.has_term t d ≡ true → length t ≤ 122

  -- The directory, the database in it and the files can be used, and no call fails for want of
  -- space or of a lock; a document whose terms are short can be added.
  pub record IsUsable (path parent : Text) : Type 0 where
    pub opens : x.can_open path ≡ true
    pub commits : x.can_commit path ≡ true
    pub creates : x.can_create_directories parent ≡ true
    pub removes : x.can_remove_all path ≡ true
    pub adds :
        (d : x.Document) (b : x.Database)
        → HasShortTerms d
        → (c : x.Database) × (x.add_document d b ≡ some c)
    pub finds :
        (q : x.Query) (n : ℕ) (b : x.Database)
        → (l : List (x.Document × ℕ)) × (x.get_mset q n b ≡ some l)

  -- A replacement by a term removes all documents that have it and adds the new one; a deletion
  -- removes them.
  pub record ChangeLaws : Type 0 where
    pub documents-replace :
        (t : Text) (d k : x.Document) (b : x.Database) {c : x.Database}
        → x.replace_document t d b ≡ some c
        → In k (x.documents c) ↔ ((d ≡ k) ⊎ (In k (x.documents b) × (x.has_term t k ≡ false)))
    pub documents-delete :
        (t : Text) (k : x.Document) (b : x.Database) {c : x.Database}
        → x.delete_document t b ≡ some c
        → In k (x.documents c) ↔ (In k (x.documents b) × (x.has_term t k ≡ false))
