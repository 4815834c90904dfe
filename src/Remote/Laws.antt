-- ===== src/Remote/Laws.antt =====
-- What a remote user of the vault sees.
use passdoq.Prelude.{
  true, false, not, none, some, [], if◌then◌else◌, is_set, ◌≡◌, refl, arith, Bool-cases, inl, inr,
}
use passdoq.Prelude.Exec.{ok}
use passdoq.Prelude.Text.{Text, Bytes, eq_text, eq_text_refl}
use passdoq.StdMap.{find, erase, contains_key}
use passdoq.StdMap.Laws.{find-insert_self, find-erase, erase-IsSorted}
use passdoq.Platform.{Platform}
use passdoq.Crypto.{random_bytes}
use passdoq.Vault.{Entry, Session, is_unlocked, ensure_unlocked}
use passdoq.Vault.Codec.{set_entries}
use passdoq.Vault.Storage.{save}
use passdoq.Vault.Keys
use passdoq.Vault.Entries.{add_entry, get_entry, delete_entry}
use passdoq.Vault.Entries.Access.{next_id, added}
use passdoq.Vault.Invariant.Methods.{Valid, vault-save, save-returns}
use passdoq.Vault.Invariant.EntryMethods.{add_entry-IsValid, unlocked-IsValid}
use passdoq.Vault.Invariant.{erase-IsKeyed}
use passdoq.Remote.{
  Answer, RpcServer, plain_entry, is_open, handle_lock, handle_add_entry, handle_get_entry,
  handle_list_entries, handle_delete_entry, client_get_entry,
}

module _ ⦃p : Platform⦄ (r : RpcServer) where
  -- While no vault is bound, or the bound one is not unlocked, every handler of entries answers
  -- with the empty value and changes nothing; nor does the handler of `lock` change anything.
  closed_server :
      (s : Session) (id name username : Text) (secret : Bytes)
      → is_open r s ≡ false
      → (handle_add_entry r name username secret s ≡ (ok [], s))
        × (handle_get_entry r id s ≡ (ok ([], [], []), s))
        × (handle_list_entries r s ≡ (ok [], s))
        × (handle_delete_entry r id s ≡ (ok false, s))
        × (handle_lock r s ≡ (ok tt, s))
  unfolding handle_add_entry handle_get_entry handle_list_entries handle_delete_entry handle_lock
      Keys.lock
  closed_server s id name username secret h =
      (ground arith, ground arith, ground arith, ground arith, ground arith)

  abbrev with_entry : Text → Text → Bytes → Session → Session
  with_entry name username secret s = (add_entry (plain_entry name username secret) s).1

  added_lem :
      (name username : Text) (secret : Bytes) (s : Session)
      → is_open r s ≡ true
      → add_entry (plain_entry name username secret) s
        ≡ (ok (next_id s), with_entry name username secret s)
  unfolding is_unlocked add_entry random_bytes ensure_unlocked
  added_lem name username secret s h = ground arith

  found_lem :
      (name username : Text) (secret : Bytes) (s : Session)
      → is_open r s ≡ true
      → (find (next_id s) (with_entry name username secret s).entries
          ≡ some (added (plain_entry name username secret) s))
        × (is_open r (with_entry name username secret s) ≡ true)
  unfolding is_unlocked add_entry random_bytes ensure_unlocked
  found_lem name username secret s h =
      let f = find-insert_self (next_id s) (added (plain_entry name username secret) s) s.entries in
      (ground (arith, f), ground arith)

  get_lem :
      (id : Text) (e : Entry) (s : Session)
      → is_open r s ≡ true
      → find id s.entries ≡ some e
      → handle_get_entry r id s ≡ (ok (e.name, e.username, e.secret), s)
  unfolding handle_get_entry get_entry ensure_unlocked
  get_lem id e s h f = ground arith

  handle_add_lem :
      (name username : Text) (secret : Bytes) (s : Session)
      → is_open r s ≡ true
      → Valid s
      → handle_add_entry r name username secret s
        ≡ (ok (next_id s), (save (with_entry name username secret s)).1)
  unfolding handle_add_entry
  handle_add_lem name username secret s h v =
      let t = with_entry name username secret s in
      ground (
        arith,
        added_lem name username secret s h,
        save-returns t (add_entry-IsValid (plain_entry name username secret) s v),
      )

  -- `add_entry` over RPC on an open valid vault answers with the new id, whatever becomes of the
  -- file; `get_entry` of that id then answers with what was sent, and the client reports it as
  -- found exactly if its name is not empty.
  pub rpc-get-add :
      (name username : Text) (secret : Bytes) (old : Answer) (s : Session)
      → is_open r s ≡ true
      → Valid s
      → let (id, t) = handle_add_entry r name username secret s in
        (id ≡ ok (next_id s))
        × ((handle_get_entry r (next_id s) t).0 ≡ ok (name, username, secret))
        × (client_get_entry old (handle_get_entry r (next_id s) t).0
            ≡ (not (eq_text name []), (name, username, secret)))
  rpc-get-add name username secret old s h v =
      let t = with_entry name username secret s in
      let (f, o) = found_lem name username secret s h in
      let same = vault-save t in
      let got =
        get_lem (next_id s) (added (plain_entry name username secret) s) (save t).1 (rw same o)
          (rw same f) in
      rw (handle_add_lem name username secret s h v)
        (refl, rw got refl, rw got (unfold client_get_entry in refl))

  missing_lem :
      (id : Text) (s : Session)
      → is_open r s ≡ true
      → find id s.entries ≡ none
      → handle_get_entry r id s ≡ (ok ([], [], []), s)
  unfolding handle_get_entry get_entry ensure_unlocked
  missing_lem id s h f = ground arith

  -- The session without the entry, before it is saved.
  abbrev without : Text → Session → Session
  without id s = set_entries (erase id s.entries) s

  handle_delete_lem :
      (id : Text) (s : Session)
      → is_open r s ≡ true
      → Valid (without id s)
      → handle_delete_entry r id s ≡ (
          if is_set (find id s.entries)
          then (ok true, (save (without id s)).1)
          else (ok false, without id s))
  unfolding handle_delete_entry delete_entry contains_key ensure_unlocked is_unlocked
  handle_delete_lem id s h v = ground (arith, save-returns (without id s) v)

  without_lem :
      (id : Text) (s : Session)
      → is_open r s ≡ true
      → (is_open r (without id s) ≡ true) × (find id (without id s).entries ≡ none)
  unfolding is_unlocked
  without_lem id s h = (ground arith, ground (arith, find-erase id id s.entries, eq_text_refl id))

  without-Valid : (id : Text) (s : Session) → is_open r s ≡ true → Valid s → Valid (without id s)
  unfolding is_unlocked
  without-Valid id s h v =
      unlocked-IsValid (erase id s.entries) s.world s v (ground arith)
        (erase-IsSorted id s.entries v.sorted) (erase-IsKeyed id s.entries v.keyed)

  -- `delete_entry` over RPC on an open valid vault answers whether the id was there, whatever
  -- becomes of the file; afterwards the id is answered by the empty value, and not found.
  rpc-get-delete :
      (id : Text) (old : Answer) (s : Session)
      → is_open r s ≡ true
      → Valid s
      → let (result, t) = handle_delete_entry r id s in
        (result ≡ ok (is_set (find id s.entries)))
        × (client_get_entry old (handle_get_entry r id t).0 ≡ (false, ([], [], [])))
  rpc-get-delete id old s h v =
      let d = without id s in
      let (o, f) = without_lem id s h in
      let same = vault-save d in
      let saved = missing_lem id (save d).1 (rw same o) (rw same f) in
      let kept = missing_lem id d o f in
      rw (handle_delete_lem id s h (without-Valid id s h v))
        (elim (Bool-cases (is_set (find id s.entries))) [
          | inl e ↦ rw (e) (refl, rw saved (unfold client_get_entry eq_text in refl))
          | inr e ↦ rw (e) (refl, rw kept (unfold client_get_entry eq_text in refl))
        ])
