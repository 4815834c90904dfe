-- ===== src/Vault/Trace.antt =====
-- Sequences of calls of the methods of a vault object, as its users make them: an exception ends
-- its own call only, and undefined behaviour ends the sequence.
use passdoq.Prelude.{refl, List, [], ◌∷◌, arith}
use passdoq.Prelude.Exec.{Result, ok, throw, fault, Exec}
use passdoq.Prelude.Exec.Keeps.{After}
use passdoq.Prelude.Text.{Text, Bytes}
use passdoq.Platform.{Platform}
use passdoq.Vault.{Entry, Session, new_vault}
use passdoq.Vault.Keys
use passdoq.Vault.Storage
use passdoq.Vault.Entries
use passdoq.Vault.Invariant.Methods.{IsValid, Valid, save-IsValid, load-IsValid}
use passdoq.Vault.Invariant.KeyMethods.{open_vault-IsValid, unlock-IsValid, lock-IsValid}
use passdoq.Vault.Invariant.CreateMethod.{create-IsValid}
use passdoq.Vault.Invariant.RekeyMethod.{rekey-IsValid}
use passdoq.Vault.Invariant.EntryMethods.{
  add_entry-IsValid, update_entry-IsValid, delete_entry-IsValid, reads_unchanged,
}

pub data Call : Type 0 where
  create : Text → Text → Call
  open_vault unlock : Text → Call
  lock save load list_entries : Call
  rekey : Bytes → Call
  add_entry : Entry → Call
  update_entry : Text → Entry → Call
  delete_entry get_entry search_entries search_by_tag : Text → Call

-- The session, and whether the call threw or was undefined; the value is dropped.
abbrev drop_value : {A : Type 0} → Result A × Session → Result (Unit {0}) × Session
drop_value (ok a, s) = (ok tt, s)
drop_value (throw e, s) = (throw e, s)
drop_value (fault, s) = (fault, s)

module _ ⦃p : Platform⦄ where
  unfoldable pub perform : Call → Exec Session (Unit {0})
  perform (create path passphrase) s = drop_value (Keys.create path passphrase s)
  perform (open_vault path) s = drop_value (Keys.open_vault path s)
  perform (unlock passphrase) s = drop_value (Keys.unlock passphrase s)
  perform lock s = drop_value (Keys.lock s)
  perform save s = drop_value (Storage.save s)
  perform load s = drop_value (Storage.load s)
  perform list_entries s = drop_value (Entries.list_entries s)
  perform (rekey key) s = drop_value (Keys.rekey key s)
  perform (add_entry e) s = drop_value (Entries.add_entry e s)
  perform (update_entry id e) s = drop_value (Entries.update_entry id e s)
  perform (delete_entry id) s = drop_value (Entries.delete_entry id s)
  perform (get_entry id) s = drop_value (Entries.get_entry id s)
  perform (search_entries query) s = drop_value (Entries.search_entries query s)
  perform (search_by_tag tag) s = drop_value (Entries.search_by_tag tag s)

  abbrev and_then :
      Exec Session (Unit {0}) → Result (Unit {0}) × Session → Result (Unit {0}) × Session
  and_then m (ok a, s) = m s
  and_then m (throw e, s) = m s
  and_then m (fault, s) = (fault, s)

  unfoldable pub run : List Call → Exec Session (Unit {0})
  unfolding perform
  run [] s = (ok tt, s)
  run (c ∷ cs) s = and_then (run cs) (perform c s)

  drop_value-After :
      {A : Type 0} (r : Result A) (s : Session)
      → After Valid (r, s)
      → After Valid (drop_value (r, s))
  drop_value-After (ok a) s h = h
  drop_value-After (throw e) s h = h
  drop_value-After fault s h = h

  Valid-After : {A : Type 0} (r : Result A) (s : Session) → Valid s → After Valid (r, s)
  Valid-After (ok a) s h = h
  Valid-After (throw e) s h = h
  Valid-After fault s h = tt

  kept :
      {A : Type 0} (m : Exec Session A) (s : Session)
      → After Valid (m s)
      → After Valid (drop_value (m s))
  kept m s h = drop_value-After (m s).0 (m s).1 h

  stays :
      {A : Type 0} (m : Exec Session A) (s : Session)
      → Valid (m s).1
      → After Valid (drop_value (m s))
  stays m s h = kept m s (Valid-After (m s).0 (m s).1 h)

  -- Every method keeps the invariant of the vault, whatever the libraries, the file and the disk do.
  pub perform-IsValid : (c : Call) (s : Session) → Valid s → After Valid (perform c s)
  unfolding perform
  perform-IsValid (create path w) s v = kept (Keys.create path w) s (create-IsValid path w s v)
  perform-IsValid (open_vault path) s v =
      kept (Keys.open_vault path) s (open_vault-IsValid path s v)
  perform-IsValid (unlock w) s v = kept (Keys.unlock w) s (unlock-IsValid w s v)
  perform-IsValid lock s v = stays Keys.lock s (lock-IsValid s v)
  perform-IsValid save s v = kept Storage.save s (save-IsValid s v)
  perform-IsValid load s v = kept Storage.load s (load-IsValid s v)
  perform-IsValid (rekey key) s v = kept (Keys.rekey key) s (rekey-IsValid key s v)
  perform-IsValid (add_entry e) s v = stays (Entries.add_entry e) s (add_entry-IsValid e s v)
  perform-IsValid (update_entry id e) s v =
      stays (Entries.update_entry id e) s (update_entry-IsValid id e s v)
  perform-IsValid (delete_entry id) s v =
      stays (Entries.delete_entry id) s (delete_entry-IsValid id s v)
  perform-IsValid (get_entry id) s v =
      stays (Entries.get_entry id) s (rw ((reads_unchanged id s).0) v)
  perform-IsValid list_entries s v = stays Entries.list_entries s (rw ((reads_unchanged [] s).1) v)
  perform-IsValid (search_entries q) s v =
      stays (Entries.search_entries q) s (rw ((reads_unchanged q s).2) v)
  perform-IsValid (search_by_tag t) s v =
      stays (Entries.search_by_tag t) s (rw ((reads_unchanged t s).3) v)

  and_then-IsValid :
      (m : Exec Session (Unit {0})) (r : Result (Unit {0})) (s : Session)
      → ((t : Session) → Valid t → After Valid (m t))
      → After Valid (r, s)
      → After Valid (and_then m (r, s))
  and_then-IsValid m (ok a) s k h = k s h
  and_then-IsValid m (throw e) s k h = k s h
  and_then-IsValid m fault s k h = tt

  -- Any sequence of calls of the methods of a vault object that begins with a valid one, as a
  -- new one is, and that meets no undefined behaviour leaves it valid, whatever the libraries,
  -- the files and the disk do: an unlocked vault has both keys of 32 bytes, one that is not
  -- unlocked holds no entry, and the entries are in order under their own ids.
  pub run-IsValid : (cs : List Call) (s : Session) → Valid s → After Valid (run cs s)
  unfolding run
  run-IsValid [] s v = v
  run-IsValid (c ∷ cs) s v =
      and_then-IsValid (run cs) (perform c s).0 (perform c s).1 (run-IsValid cs)
        (perform-IsValid c s v)

pub new_vault-IsValid : IsValid new_vault
new_vault-IsValid = record {
  keys = λ e. absurd (ground arith);
  closed = λ _. refl;
  sorted = tt;
  keyed = tt;
}
