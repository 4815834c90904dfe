-- ===== src/Vault/Invariant/RekeyMethod.antt =====
-- `rekey` keeps the invariant of the vault, whatever libsodium and the disk do.
use passdoq.Prelude.{
  ◌≡◌, refl, ◌∙◌, none, some, length, arith, Bool-cases, Option-cases, inl, inr, ◌==◌,
}
use passdoq.Prelude.Exec.{fault, ◌>>=◌}
use passdoq.Prelude.Exec.Keeps.{After}
use passdoq.Prelude.Text.{Bytes}
use passdoq.Platform.{Platform}
use passdoq.Crypto.{encrypt}
use passdoq.Vault.{Session, on_world, ensure_unlocked, is_unlocked_state}
use passdoq.Vault.Keys.{copy_into, set_data_key, set_encrypted_key, finish_rekey, rekey, rekey_with}
use passdoq.Vault.Invariant.Methods.{Valid, on_world-bind, save-IsValid}
use passdoq.Vault.Invariant.KeyMethods.{length-copy_into, unlocked→eq}

module _ ⦃p : Platform⦄ where
  rekey_with_fault :
      (m k new : Bytes) (s : Session)
      → s.master_key ≡ some m
      → s.data_key ≡ some k
      → copy_into new k ≡ none
      → rekey_with new s ≡ (fault, s)
  unfolding rekey_with
  rekey_with_fault m k new s hm hk f = ground arith

  rekey_with_step :
      (m k b new : Bytes) (s : Session)
      → s.master_key ≡ some m
      → s.data_key ≡ some k
      → copy_into new k ≡ some b
      → rekey_with new s ≡ (on_world (encrypt new m) >>= finish_rekey) (set_data_key (some b) s)
  unfolding rekey_with
  rekey_with_step m k b new s hm hk f = ground arith

  rekey_with-IsValid :
      (m k new : Bytes) (s : Session)
      → Valid s
      → s.master_key ≡ some m
      → s.data_key ≡ some k
      → length m ≡ 32
      → length k ≡ 32
      → After Valid (rekey_with new s)
  unfolding finish_rekey
  rekey_with-IsValid m k new s v hm hk lm lk = elim (Option-cases (copy_into new k)) [
    | inl f ↦ rw (rekey_with_fault m k new s hm hk f) tt
    | inr (b, f) ↦
        (let u = set_data_key (some b) s in
          let w : Valid u = record {
            keys = λ e. (m, b, hm, refl, lm, length-copy_into new k f ∙ lk);
            closed = v.closed;
            sorted = v.sorted;
            keyed = v.keyed;
          } in
          rw (rekey_with_step m k b new s hm hk f) (
            on_world-bind (encrypt new m) finish_rekey u w (λ e x.
              save-IsValid (set_encrypted_key e (record u { world = x }))
                (record { keys = w.keys; closed = v.closed; sorted = v.sorted; keyed = v.keyed }))))
  ]

  -- `rekey` keeps the invariant.
  pub rekey-IsValid : (new : Bytes) (s : Session) → Valid s → After Valid (rekey new s)
  unfolding rekey ensure_unlocked
  rekey-IsValid new s v = elim (Bool-cases (is_unlocked_state s.state)) [
    | inr e ↦ rw e v
    | inl e ↦ elim (Bool-cases (length new == 32)) [
      | inr f ↦ rw (e, f) v
      | inl f ↦
          rw (e, f)
            (let (m, k, hm, hk, lm, lk) = v.keys (unlocked→eq s.state e) in
              rekey_with-IsValid m k new s v hm hk lm lk)
    ]
  ]
