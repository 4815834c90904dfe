-- ===== src/Vault/Invariant/CreateMethod.antt =====
-- `create` keeps the invariant of the vault, whatever libsodium and the disk do.
use passdoq.Prelude.{
  ◌≡◌, refl, some, [], length, arith, replicate, Bool-cases, Option-cases, inl, inr,
}
use passdoq.Prelude.Exec.Keeps.{After}
use passdoq.Prelude.Text.{Text, Bytes}
use passdoq.Platform.{Platform}
use passdoq.Crypto.{DerivedKey, encrypt, derive_master_key, generate_data_key, EncryptedData}
use passdoq.Vault.{uninitialized, Session, is_uninitialized_state}
use passdoq.Vault.Keys.{
  copy_into, set_path, set_master_key, set_data_key, store_new_keys, store_new_key, finish_create,
  create, create_new,
}
use passdoq.Vault.Invariant.Methods.{Valid, on_world-bind, save-IsValid}
use passdoq.Vault.Invariant.KeyMethods.{length-copy_into, uninitialized→eq}

module _ ⦃p : Platform⦄ where
  finish_create-IsValid :
      (m k : Bytes) (d : DerivedKey) (e : EncryptedData) (s : Session)
      → Valid s
      → s.master_key ≡ some m
      → s.data_key ≡ some k
      → length m ≡ 32
      → length k ≡ 32
      → After Valid (finish_create d e s)
  unfolding finish_create
  finish_create-IsValid m k d e s v hm hk lm lk = save-IsValid _ (record {
    keys = λ _. (m, k, hm, hk, lm, lk);
    closed = λ n. absurd (n refl);
    sorted = v.sorted;
    keyed = v.keyed;
  })

  store_new_key-IsValid :
      (m k : Bytes) (d : DerivedKey) (s : Session)
      → Valid s
      → s.state ≡ uninitialized
      → s.master_key ≡ some m
      → length m ≡ 32
      → After Valid (store_new_key d k s)
  unfolding store_new_key
  store_new_key-IsValid m k d s v hs hm lm = elim (Option-cases (copy_into k (replicate 32 0))) [
    | inl f ↦ rw f tt
    | inr (b, f) ↦ rw f (
        let u = set_data_key (some b) s in
        let w : Valid u = record {
          keys = λ e. absurd (ground arith);
          closed = v.closed;
          sorted = v.sorted;
          keyed = v.keyed;
        } in
        on_world-bind (encrypt b d.key) (finish_create d) u w (λ e x.
          finish_create-IsValid m b d e (record u { world = x })
            (record { keys = w.keys; closed = v.closed; sorted = v.sorted; keyed = v.keyed }) hm
            refl lm (length-copy_into k (replicate 32 0) f)))
  ]

  store_new_keys-IsValid :
      (d : DerivedKey) (s : Session)
      → Valid s
      → s.state ≡ uninitialized
      → After Valid (store_new_keys d s)
  unfolding store_new_keys
  store_new_keys-IsValid d s v hs = elim (Option-cases (copy_into d.key (replicate 32 0))) [
    | inl f ↦ rw f tt
    | inr (b, f) ↦ rw f (
        let u = set_master_key (some b) s in
        let w : Valid u = record {
          keys = λ e. absurd (ground arith);
          closed = v.closed;
          sorted = v.sorted;
          keyed = v.keyed;
        } in
        on_world-bind generate_data_key (store_new_key d) u w (λ k x.
          store_new_key-IsValid b k d (record u { world = x })
            (record { keys = w.keys; closed = v.closed; sorted = v.sorted; keyed = v.keyed }) hs
            refl (length-copy_into d.key (replicate 32 0) f)))
  ]

  -- `create` keeps the invariant.
  pub create-IsValid :
      (path passphrase : Text) (s : Session) → Valid s → After Valid (create path passphrase s)
  unfolding create create_new
  create-IsValid path passphrase s v = elim (Bool-cases (is_uninitialized_state s.state)) [
    | inr e ↦ rw e v
    | inl e ↦ rw e (
        let u = set_path path s in
        let w : Valid u = record {
          keys = v.keys;
          closed = v.closed;
          sorted = v.sorted;
          keyed = v.keyed;
        } in
        on_world-bind (derive_master_key passphrase []) store_new_keys u w (λ d x.
          store_new_keys-IsValid d (record u { world = x })
            (record { keys = v.keys; closed = v.closed; sorted = v.sorted; keyed = v.keyed })
            (uninitialized→eq s.state e)))
  ]
