-- ===== src/Vault/Invariant/KeyMethods.antt =====
-- `open`, `unlock` and `lock` keep the invariant of the vault, whatever
-- libsodium, the file and the disk do.
use passdoq.Prelude.{
  ◌≡◌, refl, ◌∙◌, Bool, true, false, some, length, drop, arith, replicate, Bool-cases, Option-cases,
  inl, inr, length-append, length-drop,
}
use passdoq.Prelude.Exec.{Result, ok, throw, fault, Exec, pure, try_catch, ◌>>=◌}
use passdoq.Prelude.Exec.Keeps.{After, Keeps-pure, handle-After}
use passdoq.Prelude.Text.{Text, Bytes}
use passdoq.Platform.{Platform}
use passdoq.Crypto.{DerivedKey, decrypt, derive_master_key}
use passdoq.Vault.{
  VaultState, unlocked, uninitialized, Session, is_unlocked_state, is_locked_state,
  is_uninitialized_state,
}
use passdoq.Vault.Storage.{load}
use passdoq.Vault.Keys.{
  copy_into, set_path, set_state, set_master_key, set_data_key, wrapped_key, store_keys, open_vault,
  unlock, unlock_with, lock, finish_open,
}
use passdoq.Vault.Invariant.{IsFramed, load-IsFramed}
use passdoq.Vault.Invariant.Methods.{IsFramed-IsValid, Valid, on_world-bind, load-IsValid}

pub length-copy_into : (a b : Bytes) {c : Bytes} → copy_into a b ≡ some c → length c ≡ length b
length-copy_into a b h =
    ground (arith, length-append a (drop (length a) b), length-drop (length a) b)

pub unlocked→eq : (t : VaultState) → is_unlocked_state t ≡ true → t ≡ unlocked
unlocked→eq t e = ground arith

pub uninitialized→eq : (t : VaultState) → is_uninitialized_state t ≡ true → t ≡ uninitialized
uninitialized→eq t e = ground arith

module _ ⦃p : Platform⦄ where
  -- The keys are stored and the vault is unlocked: it is valid.
  keys-IsValid :
      (m k : Bytes) (s : Session)
      → Valid s
      → length m ≡ 32
      → length k ≡ 32
      → Valid (set_state unlocked (set_data_key (some k) (set_master_key (some m) s)))
  keys-IsValid m k s v hm hk = record {
    keys = λ _. (m, k, refl, refl, hm, hk);
    closed = λ n. absurd (n refl);
    sorted = v.sorted;
    keyed = v.keyed;
  }

  store_keys-IsValid :
      (derived : DerivedKey) (data_key : Bytes) (s : Session)
      → Valid s
      → After Valid (store_keys derived data_key s)
  unfolding store_keys
  store_keys-IsValid derived data_key s v =
      elim (Option-cases (copy_into derived.key (replicate 32 0))) [
        | inl e ↦ rw e tt
        | inr (m, e) ↦ elim (Option-cases (copy_into data_key (replicate 32 0))) [
          | inl f ↦ rw (e, f) tt
          | inr (k, f) ↦
              rw (e, f)
                (load-IsValid
                  (set_state unlocked (set_data_key (some k) (set_master_key (some m) s)))
                  (keys-IsValid m k s v (length-copy_into derived.key (replicate 32 0) e)
                    (length-copy_into data_key (replicate 32 0) f)))
        ]
      ]

  unlock_with-IsValid :
      (derived : DerivedKey) (s : Session) → Valid s → After Valid (unlock_with derived s)
  unfolding unlock_with
  unlock_with-IsValid derived s v =
      on_world-bind (decrypt (wrapped_key s.header) derived.key) (store_keys derived) s v (λ k w.
        store_keys-IsValid derived k (record s { world = w })
          (record { keys = v.keys; closed = v.closed; sorted = v.sorted; keyed = v.keyed }))

  After-false :
      (m : Exec Session Bool) (s : Session)
      → After Valid (m s)
      → After Valid (try_catch m (pure false) s)
  After-false m s h = handle-After (pure false) (Keeps-pure false) (m s).0 (m s).1 h

  -- `unlock` keeps the invariant.
  pub unlock-IsValid :
      (passphrase : Text) (s : Session) → Valid s → After Valid (unlock passphrase s)
  unfolding unlock
  unlock-IsValid passphrase s v = elim (Bool-cases (is_locked_state s.state)) [
    | inr e ↦ rw e v
    | inl e ↦ rw e (
        on_world-bind (derive_master_key passphrase s.header.salt)
          (λ derived. try_catch (unlock_with derived) (pure false)) s v
          (λ d w.
            After-false (unlock_with d) (record s { world = w })
              (unlock_with-IsValid d (record s { world = w })
                (record { keys = v.keys; closed = v.closed; sorted = v.sorted; keyed = v.keyed }))))
  ]

  -- `lock` keeps the invariant.
  pub lock-IsValid : (s : Session) → Valid s → Valid (lock s).1
  unfolding lock
  lock-IsValid s v = record {
    keys = ground (arith, v.keys);
    closed = ground (arith, v.closed);
    sorted = ground (arith, v.sorted);
    keyed = ground (arith, v.keyed);
  }

  finish_open-IsValid :
      (r : Result Bool) (s : Session)
      → After (λ t. Valid t × (t.state ≡ uninitialized)) (r, s)
      → After Valid (((λ (_ : Session). (r, s)) >>= finish_open) s)
  finish_open-IsValid (ok true) s v = record {
    keys = λ e. absurd (ground arith);
    closed = λ _. v.0.closed (λ e. ground arith);
    sorted = v.0.sorted;
    keyed = v.0.keyed;
  }
  finish_open-IsValid (ok false) s v = v.0
  finish_open-IsValid (throw e) s v = v.0
  finish_open-IsValid fault s v = tt

  framed_open :
      {A : Type 0} (path : Text) (s : Session) (r : Result A) (t : Session)
      → Valid s
      → s.state ≡ uninitialized
      → After (IsFramed s.state s.master_key s.data_key) (r, t)
      → After (λ t. Valid t × (t.state ≡ uninitialized)) (r, t)
  framed_open path s (ok a) t v e h = (IsFramed-IsValid s (ok a) t v h, h.same_state ∙ e)
  framed_open path s (throw x) t v e h =
      (IsFramed-IsValid {A = Unit {0}} s (throw x) t v h, h.same_state ∙ e)
  framed_open path s fault t v e h = tt

  -- `open` keeps the invariant.
  pub open_vault-IsValid : (path : Text) (s : Session) → Valid s → After Valid (open_vault path s)
  unfolding open_vault
  open_vault-IsValid path s v = elim (Bool-cases (is_uninitialized_state s.state)) [
    | inr e ↦ rw e v
    | inl e ↦ rw e (
        let u = set_path path s in
        let w : Valid u = record {
          keys = v.keys;
          closed = v.closed;
          sorted = v.sorted;
          keyed = v.keyed;
        } in
        finish_open-IsValid (load u).0 (load u).1 (
          framed_open path u (load u).0 (load u).1 w (uninitialized→eq s.state e) (
            (load-IsFramed u.state u.master_key u.data_key).at u (record {
              same_state = refl;
              same_master = refl;
              same_data = refl;
              sorted = v.sorted;
              keyed = v.keyed;
              closed = v.closed;
            }))))
  ]
