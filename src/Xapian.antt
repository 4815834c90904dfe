-- ===== src/Xapian.antt =====
-- The library Xapian, which src/indexing.cpp and src/search.cpp call and which is not in the
-- repository: its documents, databases and queries, and the directories that hold databases.
pub mod Laws
pub mod Sample
use passdoq.Prelude.{ℕ, Bool, Option, List}
use passdoq.Prelude.Text.{Text}

-- An exception of type `Xapian::Error` is `none`, or `false` where nothing is returned.
pub record Xapian : Type 1 where
  -- `Xapian::Document`, and `TermGenerator::index_text` into one, with its weight
  pub Document : Type 0
  pub new_document : Document
  pub index_text : Text → ℕ → Document → Document
  pub add_boolean_term : Text → Document → Document
  pub add_value : ℕ → Text → Document → Document
  pub set_data : Text → Document → Document
  pub get_data : Document → Text
  -- `Xapian::WritableDatabase` and `Xapian::Database`
  pub Database : Type 0
  pub empty_database : Database
  pub add_document : Document → Database → Option Database
  pub replace_document : Text → Document → Database → Option Database
  pub delete_document : Text → Database → Option Database
  pub can_open : Text → Bool
  pub can_commit : Text → Bool
  pub allterms : Text → Database → Option (List Text)
  -- `Xapian::Query`; `term_query` takes the term, the frequency in the query and the position
  pub Query : Type 0
  pub term_query : Text → ℕ → ℕ → Query
  pub match_all : Query
  pub op_or : List Query → Query
  pub op_and : List Query → Query
  pub op_filter : Query → Query → Query
  pub parse_query : Database → Text → Option Query
  -- `Enquire::get_mset` from the first match on: the documents and their percentages
  pub get_mset : Query → ℕ → Database → Option (List (Document × ℕ))
  -- `std::filesystem`: whether the call succeeds
  pub can_create_directories : Text → Bool
  pub can_remove_all : Text → Bool
  -- what can be observed: the terms of a document, the terms that a text generates, the documents
  -- of a database, and whether a query matches a document
  pub has_term : Text → Document → Bool
  pub generates : Text → Text → Bool
  pub documents : Database → List Document
  pub is_match : Query → Document → Bool
