-- ===== src/Vault/Entries.antt =====
-- The methods of src/vault.cpp on entries: add, update, delete, get, list and the two searches.
pub mod Access
pub mod Listing
use passdoq.Prelude.{
  ℕ, ◌+◌, ◌/◌, ◌%◌, Bool, true, false, ◌||◌, Option, none, some, List, [], ◌∷◌, ltb, if◌then◌else◌,
  filter_by,
}
use passdoq.Prelude.Exec.{Exec, runtime_error, pure, gets, modify, or_raise, ◌>>=◌, ◌>>◌}
use passdoq.Prelude.Text.{Text, Bytes, codes, eq_text, contains}
use passdoq.StdMap.{StdMap, find, contains_key, insert, erase, values}
use passdoq.Platform.{Platform}
use passdoq.Crypto.{random_bytes}
use passdoq.Vault.{Entry, Vault, Session, on_world, ensure_unlocked}
use passdoq.Vault.Codec.{set_entries, put_entry}

-- A digit of `std::hex`.
abbrev pub hex_digit : ℕ → ℕ
hex_digit n = if ltb n 10 then 48 + n else 87 + n

-- `setw(2)` and `setfill('0')`: two digits for each byte.
unfoldable pub hex : Bytes → Text
hex [] = []
hex (b ∷ bytes) = hex_digit (b / 16) ∷ hex_digit (b % 16) ∷ hex bytes

-- `std::find(tags.begin(), tags.end(), tag) != tags.end()`
unfoldable pub has_tag : Text → List Text → Bool
has_tag tag [] = false
has_tag tag (t ∷ tags) = eq_text t tag || has_tag tag tags

-- The tests of `search` and `search_by_tag` on one entry.
unfoldable pub matches_query : Text → Entry → Bool
matches_query query e = contains query e.name || contains query e.username

abbrev pub matches_tag : Text → Entry → Bool
matches_tag tag e = has_tag tag e.tags

-- `update_entry` once the old entry was looked up: it keeps the id and the time of creation.
abbrev pub replace_entry : Text → Entry → Option Entry → Exec Session Bool
replace_entry id entry none = pure false
replace_entry id entry (some old) = do
  now ← gets (λ s. s.now)
  modify (put_entry (record entry { id = id; created = old.created; modified = now }))
  pure true

module _ ⦃p : Platform⦄ where
  unfoldable pub generate_id : Exec Session Text
  generate_id = do bytes ← on_world (random_bytes 16); pure (hex bytes)

  unfoldable pub add_entry : Entry → Exec Session Text
  unfolding generate_id
  add_entry entry = do
    ensure_unlocked
    id ← generate_id
    now ← gets (λ s. s.now)
    modify (put_entry (record entry { id = id; created = now; modified = now }))
    pure id

  unfoldable pub update_entry : Text → Entry → Exec Session Bool
  update_entry id entry = do
    ensure_unlocked
    entries ← gets (λ s. s.entries)
    replace_entry id entry (find id entries)

  unfoldable pub delete_entry : Text → Exec Session Bool
  delete_entry id = do
    ensure_unlocked
    entries ← gets (λ s. s.entries)
    modify (set_entries (erase id entries))
    pure (contains_key id entries)

  unfoldable pub get_entry : Text → Exec Session Entry
  get_entry id = do
    ensure_unlocked
    entries ← gets (λ s. s.entries)
    or_raise (find id entries) (runtime_error (codes "Entry not found"))

  unfoldable pub list_entries : Exec Session (List Entry)
  list_entries = do ensure_unlocked; gets (λ s. values s.entries)

  unfoldable pub search_entries : Text → Exec Session (List Entry)
  search_entries query = do
    ensure_unlocked
    gets (λ s. filter_by (matches_query query) (values s.entries))

  unfoldable pub search_by_tag : Text → Exec Session (List Entry)
  search_by_tag tag = do ensure_unlocked; gets (λ s. filter_by (matches_tag tag) (values s.entries))
