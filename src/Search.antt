-- ===== src/Search.antt =====
-- src/search.cpp and src/search.hpp: queries over the index, and their results.
pub mod Builder
pub mod Laws
use passdoq.Prelude.{
  ℕ, Bool, true, false, Option, none, some, List, [], ◌∷◌, ◌++◌, if◌then◌else◌, is_set, ltb, length,
  take, map,
}
use passdoq.Prelude.Text.{Text, codes}
use passdoq.Xapian.{Xapian}
use passdoq.Indexing.{tag_term, metadata_term}

-- `relevance` is the percentage of the match; the source divides it by 100.
pub record SearchResult : Type 0 where
  pub entry_id : Text
  pub relevance : ℕ
  pub snippet : Text

pub record QueryBuilder (Q : Type 0) : Type 0 where
  pub queries : List Q
  pub filters : List Q

-- `db` is a snapshot of the database on disk; `none` is a null pointer.
pub record SearchEngine (D : Type 0) : Type 0 where
  pub index_path : Text
  pub db : Option D

-- `SearchEngine::SearchEngine`
abbrev pub new_engine : {D : Type 0} → Text → SearchEngine D
new_engine path = record { index_path = path; db = none }

-- The snippet of a result.
unfoldable pub snippet_of : Text → Text
snippet_of content = if ltb 100 (length content) then take 97 content ++ codes "..." else content

-- The loop of `suggest`.
abbrev first_terms : ℕ → Option (List Text) → List Text
first_terms n none = []
first_terms n (some terms) = take n terms

module _ ⦃x : Xapian⦄ where
  abbrev pub new_builder : QueryBuilder x.Query
  new_builder = record { queries = []; filters = [] }

  abbrev push_query : x.Query → QueryBuilder x.Query → QueryBuilder x.Query
  push_query q b = record b { queries = b.queries ++ q ∷ [] }

  abbrev push_filter : x.Query → QueryBuilder x.Query → QueryBuilder x.Query
  push_filter q b = record b { filters = b.filters ++ q ∷ [] }

  unfoldable pub add_term : Text → QueryBuilder x.Query → QueryBuilder x.Query
  add_term term b = push_query (x.term_query term 1 0) b

  -- The phrase is one term of the query.
  unfoldable pub add_phrase : Text → QueryBuilder x.Query → QueryBuilder x.Query
  add_phrase phrase b = push_query (x.term_query phrase 1 0) b

  unfoldable pub filter_tag : Text → QueryBuilder x.Query → QueryBuilder x.Query
  filter_tag tag b = push_filter (x.term_query (tag_term tag) 1 0) b

  unfoldable pub filter_metadata : Text → Text → QueryBuilder x.Query → QueryBuilder x.Query
  filter_metadata key value b = push_filter (x.term_query (metadata_term key value) 1 0) b

  -- `main_query` before the filters.
  abbrev pub main_query : List x.Query → x.Query
  main_query [] = x.match_all
  main_query (q ∷ qs) = x.op_or (q ∷ qs)

  abbrev pub build_query : List x.Query → List x.Query → x.Query
  build_query qs [] = main_query qs
  build_query qs (f ∷ fs) = x.op_filter (main_query qs) (x.op_and (f ∷ fs))

  unfoldable pub build : QueryBuilder x.Query → x.Query
  build b = build_query b.queries b.filters

  abbrev pub to_result : x.Document × ℕ → SearchResult
  to_result (doc, percent) = record {
    entry_id = x.get_data doc;
    relevance = percent;
    snippet = snippet_of (x.get_data doc);
  }

  unfoldable pub matches_to_results : List (x.Document × ℕ) → List SearchResult
  unfolding snippet_of
  matches_to_results l = map to_result l

  abbrev opened :
      Bool → Option x.Database → SearchEngine x.Database → Bool × SearchEngine x.Database
  opened true (some d) s = (true, record s { db = some d })
  opened true none s = (false, s)
  opened false d s = (false, s)

  -- `SearchEngine::open`: a database that is not there is an exception of Xapian.
  unfoldable pub open_engine :
      (Text → Option x.Database) → SearchEngine x.Database → Bool × SearchEngine x.Database
  open_engine stored s = opened (x.can_open s.index_path) (stored s.index_path) s

  unfoldable pub close_engine : SearchEngine x.Database → SearchEngine x.Database
  close_engine s = record s { db = none }

  abbrev pub results_of : Option (List (x.Document × ℕ)) → List SearchResult
  results_of none = []
  results_of (some l) = matches_to_results l

  abbrev pub search_in : Option x.Database → x.Query → ℕ → List SearchResult
  search_in none query max_results = []
  search_in (some d) query max_results = results_of (x.get_mset query max_results d)

  unfoldable pub search_query : x.Query → ℕ → SearchEngine x.Database → List SearchResult
  unfolding matches_to_results
  search_query query max_results s = search_in s.db query max_results

  abbrev search_parsed : Option x.Query → ℕ → SearchEngine x.Database → List SearchResult
  search_parsed none max_results s = []
  search_parsed (some query) max_results s = search_query query max_results s

  abbrev search_text_in : Option x.Database → Text → ℕ → SearchEngine x.Database → List SearchResult
  search_text_in none query_string max_results s = []
  search_text_in (some d) query_string max_results s =
      search_parsed (x.parse_query d query_string) max_results s

  -- `SearchEngine::search` of a text, which Xapian parses.
  unfoldable pub search_text : Text → ℕ → SearchEngine x.Database → List SearchResult
  unfolding search_query
  search_text query_string max_results s = search_text_in s.db query_string max_results s

  unfoldable pub search_tag : Text → ℕ → SearchEngine x.Database → List SearchResult
  unfolding build filter_tag search_query
  search_tag tag max_results s = search_query (build (filter_tag tag new_builder)) max_results s

  unfoldable pub search_metadata : Text → Text → ℕ → SearchEngine x.Database → List SearchResult
  unfolding build filter_metadata search_query
  search_metadata key value max_results s =
      search_query (build (filter_metadata key value new_builder)) max_results s

  abbrev suggest_in : Option x.Database → Text → ℕ → List Text
  suggest_in none prefix n = []
  suggest_in (some d) prefix n = first_terms n (x.allterms prefix d)

  unfoldable pub suggest : Text → ℕ → SearchEngine x.Database → List Text
  suggest prefix max_suggestions s = suggest_in s.db prefix max_suggestions
