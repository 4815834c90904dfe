-- ===== src/Indexing.antt =====
-- src/indexing.cpp and src/indexing.hpp: the index of the entries in a Xapian database.
pub mod Laws
pub mod Sync
use passdoq.Prelude.{
  ℕ, Bool, true, false, not, ◌||◌, ◌&&◌, Option, none, some, List, [], ◌∷◌, ◌++◌, if◌then◌else◌,
  is_set,
}
use passdoq.Prelude.Exec.{
  Result, ok, throw, fault, Error, runtime_error, invalid_argument, library_error, Exec, pure,
  raise, gets, modify, or_raise, or_undefined, ◌>>=◌, ◌>>◌,
}
use passdoq.Prelude.Text.{Text, codes, eq_text}
use passdoq.StdMap.{StdMap}
use passdoq.Vault.{Entry}
use passdoq.Runcom.Files.{parent_path}
use passdoq.Xapian.{Xapian}

-- The manager, and the databases that are on disk, by their path. `db` is the handle with the
-- changes that are not committed yet; `none` is a null pointer.
pub record IndexManager (D : Type 0) : Type 0 where
  pub index_path : Text
  pub db : Option D
  pub stored : Text → Option D

-- `IndexManager::get_doc_id`
unfoldable pub get_doc_id : Text → Text
get_doc_id entry_id = codes "Q" ++ entry_id

abbrev pub tag_term : Text → Text
tag_term tag = codes "TAG:" ++ tag

abbrev pub metadata_term : Text → Text → Text
metadata_term key value = key ++ codes ":" ++ value

-- Here `library_error` is a `Xapian::Error`, which is no `std::exception`, and any other error is an
-- exception of `std::filesystem`.
module _ {D A : Type 0} where
  abbrev on_xapian : Exec (IndexManager D) A → Result A × IndexManager D → Result A × IndexManager D
  on_xapian h (ok a, s) = (ok a, s)
  on_xapian h (throw library_error, s) = h s
  on_xapian h (throw (runtime_error t), s) = (throw (runtime_error t), s)
  on_xapian h (throw (invalid_argument t), s) = (throw (invalid_argument t), s)
  on_xapian h (fault, s) = (fault, s)

  -- `try { m } catch (const Xapian::Error&) { h }`
  abbrev pub catch_xapian :
      Exec (IndexManager D) A → Exec (IndexManager D) A → Exec (IndexManager D) A
  catch_xapian m h s = on_xapian h (m s)

  abbrev on_std : Exec (IndexManager D) A → Result A × IndexManager D → Result A × IndexManager D
  on_std h (ok a, s) = (ok a, s)
  on_std h (throw library_error, s) = (throw library_error, s)
  on_std h (throw (runtime_error t), s) = h s
  on_std h (throw (invalid_argument t), s) = h s
  on_std h (fault, s) = (fault, s)

  -- `try { m } catch (const std::exception&) { h }`
  abbrev pub catch_std : Exec (IndexManager D) A → Exec (IndexManager D) A → Exec (IndexManager D) A
  catch_std m h s = on_std h (m s)

abbrev pub set_db : {D : Type 0} → Option D → IndexManager D → IndexManager D
set_db d s = record s { db = d }

abbrev pub set_stored : {D : Type 0} → Option D → IndexManager D → IndexManager D
set_stored d s = record s { stored = λ q. if eq_text s.index_path q then d else s.stored q }

-- A call that returns nothing and throws the given error where it fails.
abbrev pub require : {S : Type 0} → Bool → Error → Exec S (Unit {0})
require true e = pure tt
require false e = raise e

abbrev pub filesystem_error : Error
filesystem_error = runtime_error (codes "filesystem error")

-- `IndexManager::IndexManager`
unfoldable pub new_manager : {D : Type 0} → Text → (Text → Option D) → IndexManager D
new_manager path stored = record { index_path = path; db = none; stored = stored }

-- `IndexManager::exists`
unfoldable pub exists : {D : Type 0} → IndexManager D → Bool
exists s = is_set (s.stored s.index_path)

module _ ⦃x : Xapian⦄ where
  -- The loops of `entry_to_document`.
  unfoldable pub index_tags : List Text → x.Document → x.Document
  index_tags [] doc = doc
  index_tags (tag ∷ tags) doc =
      index_tags tags (x.add_boolean_term (tag_term tag) (x.index_text tag 1 doc))

  unfoldable pub index_metadata : StdMap Text → x.Document → x.Document
  index_metadata [] doc = doc
  index_metadata ((key, value) ∷ m) doc =
      index_metadata m
        (x.add_value 0 (metadata_term key value) (x.index_text (key ++ codes " " ++ value) 1 doc))

  unfoldable pub entry_to_document : Entry → x.Document
  unfolding index_tags index_metadata get_doc_id
  entry_to_document e =
      let text = x.index_text e.username 1 (x.index_text e.name 2 x.new_document) in
      let tagged = index_metadata e.metadata (index_tags e.tags text) in
      x.add_boolean_term (get_doc_id e.id) (x.set_data e.id tagged)

  -- `db_->commit()`
  unfoldable pub commit : Exec (IndexManager x.Database) (Unit {0})
  commit s =
      (do
        db ← or_undefined s.db
        require (x.can_commit s.index_path) library_error
        modify (set_stored (some db)))
        s

  -- A new handle, for `DB_OPEN` and for `DB_CREATE_OR_OPEN`. The handle that is there already, if
  -- any, still has the lock of the database then, and Xapian refuses a second one.
  abbrev pub or_empty : Option x.Database → x.Database
  or_empty none = x.empty_database
  or_empty (some d) = d

  unfoldable pub open_existing : Exec (IndexManager x.Database) (Unit {0})
  open_existing s =
      (do
        require (not (is_set s.db) && x.can_open s.index_path) library_error
        db ← or_raise (s.stored s.index_path) library_error
        modify (set_db (some db)))
        s

  -- The directory of a new database is there from now on.
  unfoldable pub create_or_open : Exec (IndexManager x.Database) (Unit {0})
  create_or_open s =
      (do
        require (not (is_set s.db) && x.can_open s.index_path) library_error
        modify (set_stored (some (or_empty (s.stored s.index_path))))
        modify (set_db (some (or_empty (s.stored s.index_path)))))
        s

  -- `IndexManager::create`
  unfoldable pub create_index : Exec (IndexManager x.Database) Bool
  unfolding create_or_open
  create_index =
      catch_xapian
        (do
          path ← gets (λ s. s.index_path)
          require (x.can_create_directories (parent_path path)) filesystem_error
          create_or_open
          pure true)
        (pure false)

  -- `IndexManager::open`
  unfoldable pub open_index : Exec (IndexManager x.Database) Bool
  unfolding exists create_index open_existing
  open_index s =
      catch_xapian (if not (exists s) then create_index else (open_existing >> pure true))
        (pure false) s

  -- `IndexManager::close`
  unfoldable pub close_index : Exec (IndexManager x.Database) (Unit {0})
  unfolding commit
  close_index s =
      if is_set s.db then (catch_xapian commit (pure tt) >> modify (set_db none)) s else pure tt s

  -- The changes of the database that are committed at once.
  abbrev pub changed : (x.Database → Option x.Database) → Exec (IndexManager x.Database) Bool
  changed f s =
      if not (is_set s.db)
      then pure false s
      else catch_xapian
          (do
            db ← or_undefined s.db
            db' ← or_raise (f db) library_error
            modify (set_db (some db'))
            commit
            pure true)
          (pure false) s

  unfoldable pub index_entry : Entry → Exec (IndexManager x.Database) Bool
  unfolding commit
  index_entry e = changed (x.add_document (entry_to_document e))

  unfoldable pub update_indexed : Entry → Exec (IndexManager x.Database) Bool
  unfolding commit
  update_indexed e = changed (x.replace_document (get_doc_id e.id) (entry_to_document e))

  unfoldable pub remove_entry : Text → Exec (IndexManager x.Database) Bool
  unfolding commit
  remove_entry entry_id = changed (x.delete_document (get_doc_id entry_id))

  -- The body of the `try` of `clear`.
  unfoldable pub erase_and_create : Exec (IndexManager x.Database) Bool
  unfolding exists create_index
  erase_and_create s =
      (do
        require (not (exists s) || x.can_remove_all s.index_path) filesystem_error
        modify (set_stored none)
        create_index)
        s

  -- `IndexManager::clear`
  unfoldable pub clear_index : Exec (IndexManager x.Database) Bool
  unfolding close_index erase_and_create
  clear_index = close_index >> catch_std erase_and_create (pure false)

  -- The loop of `rebuild_index`. A document that is added stays in the handle when a later one fails.
  unfoldable pub add_all : List Entry → Exec (IndexManager x.Database) (Unit {0})
  add_all [] = pure tt
  add_all (e ∷ es) = do
    db ← (λ s. or_undefined s.db s)
    db' ← or_raise (x.add_document (entry_to_document e) db) library_error
    modify (set_db (some db'))
    add_all es

  unfoldable pub fill : List Entry → Exec (IndexManager x.Database) Bool
  unfolding add_all commit
  fill es = catch_xapian (do add_all es; commit; pure true) (pure false)

  abbrev pub create_if_closed : Exec (IndexManager x.Database) Bool
  create_if_closed s = if not (is_set s.db) then create_index s else pure true s

  unfoldable pub rebuild_index : List Entry → Exec (IndexManager x.Database) Bool
  unfolding clear_index fill create_index
  rebuild_index es = do
    cleared ← clear_index
    if not cleared
        then pure false
        else (do created ← create_if_closed; if not created then pure false else fill es)
