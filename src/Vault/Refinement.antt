-- ===== src/Vault/Refinement.antt =====
-- The vault as a client sees it: a function from ids to entries that is open or closed. Order and
-- representation are forgotten, and the methods of src/vault.cpp on entries implement it.
use passdoq.Prelude.{
  ℕ, ◌+◌, ◌≡◌, refl, ap, Bool, true, false, Option, none, some, List, [], ◌∷◌, if◌then◌else◌,
  is_set, Bool-cases, Option-cases, inl, inr, fun_ext,
}
use passdoq.Prelude.Exec.{Result, ok, throw, fault, runtime_error}
use passdoq.Prelude.Text.{Text, codes, eq_text}
use passdoq.StdMap.{StdMap, find, contains_key, insert, erase}
use passdoq.StdMap.Laws.{find-insert, find-erase}
use passdoq.Platform.{Platform}
use passdoq.Crypto.{random_bytes}
use passdoq.Vault.{Entry, Session, is_unlocked_state, ensure_unlocked}
use passdoq.Vault.Entries.{hex, add_entry, update_entry, delete_entry, get_entry}

-- The abstract vault; `drawn` counts the ids that were drawn.
pub record Book : Type 0 where
  pub is_open : Bool
  pub lookup : Text → Option Entry
  pub drawn : ℕ

pub data Request : Type 0 where
  add : Entry → Request
  update : Text → Entry → Request
  delete get : Text → Request

pub data Reply : Type 0 where
  new_id : Text → Reply
  done : Bool → Reply
  found : Entry → Reply

-- A function, changed at one id.
abbrev pub change : Text → Option Entry → (Text → Option Entry) → Text → Option Entry
change id e f k = if eq_text id k then e else f k

abbrev set_entry : Text → Entry → Book → Book
set_entry id e b = record b { lookup = change id (some e) b.lookup }

abbrev update_known : Text → Entry → ℕ → Option Entry → Book → Result Reply × Book
update_known id e now none b = (ok (done false), b)
update_known id e now (some old) b =
    (ok (done true), set_entry id (record e { id = id; created = old.created; modified = now }) b)

abbrev get_known : Option Entry → Book → Result Reply × Book
get_known none b = (throw (runtime_error (codes "Entry not found")), b)
get_known (some e) b = (ok (found e), b)

-- What an open vault replies; `ids` are the ids that will be drawn, `now` is the time.
abbrev book_reply : (ℕ → Text) → ℕ → Request → Book → Result Reply × Book
book_reply ids now (add e) b = (
  ok (new_id (ids b.drawn)),
  record (set_entry (ids b.drawn) (record e { id = ids b.drawn; created = now; modified = now })
      b) { drawn = b.drawn + 1 },
)
book_reply ids now (update id e) b = update_known id e now (b.lookup id) b
book_reply ids now (delete id) b =
    (ok (done (is_set (b.lookup id))), record b { lookup = change id none b.lookup })
book_reply ids now (get id) b = get_known (b.lookup id) b

abbrev pub book_serve : (ℕ → Text) → ℕ → Request → Book → Result Reply × Book
book_serve ids now r b =
    if b.is_open
    then book_reply ids now r b
    else (throw (runtime_error (codes "Vault is locked")), b)

-- The replies to requests in turn, and the last state.
pub book_all : (ℕ → Text) → ℕ → List Request → Book → List (Result Reply) × Book
book_all ids now [] b = ([], b)
book_all ids now (r ∷ rs) b =
    let (a, c) = book_serve ids now r b in let (as_, d) = book_all ids now rs c in (a ∷ as_, d)

abbrev map_result : {A B : Type 0} → (A → B) → Result A × Session → Result B × Session
map_result f (ok a, s) = (ok (f a), s)
map_result f (throw e, s) = (throw e, s)
map_result f (fault, s) = (fault, s)

module _ ⦃p : Platform⦄ where
  abbrev pub serve : Request → Session → Result Reply × Session
  serve (add e) s = map_result new_id (add_entry e s)
  serve (update id e) s = map_result done (update_entry id e s)
  serve (delete id) s = map_result done (delete_entry id s)
  serve (get id) s = map_result found (get_entry id s)

  pub serve_all : List Request → Session → List (Result Reply) × Session
  serve_all [] s = ([], s)
  serve_all (r ∷ rs) s = let (a, t) = serve r s in let (as_, u) = serve_all rs t in (a ∷ as_, u)

  abbrev pub ids_of : ℕ → Text
  ids_of n = hex (p.randombytes_buf n 16)

  -- What a client sees of a session.
  abbrev pub view : Session → Book
  view s = record {
    is_open = is_unlocked_state s.state;
    lookup = λ k. find k s.entries;
    drawn = s.draws;
  }

  -- One request: the reply and the view afterwards are those of the abstract vault.
  Implements : Request → Session → Type 0
  Implements r s =
      ((serve r s).0 ≡ (book_serve ids_of s.now r (view s)).0)
      × (view (serve r s).1 ≡ (book_serve ids_of s.now r (view s)).1)
      × ((serve r s).1.now ≡ s.now)

  serve-locked : (r : Request) (s : Session) → is_unlocked_state s.state ≡ false → Implements r s
  unfolding Implements add_entry update_entry delete_entry get_entry ensure_unlocked
  serve-locked (add e) s h = rw h (refl, rw h refl, refl)
  serve-locked (update id e) s h = rw h (refl, rw h refl, refl)
  serve-locked (delete id) s h = rw h (refl, rw h refl, refl)
  serve-locked (get id) s h = rw h (refl, rw h refl, refl)

  find-change :
      (id : Text) (e : Entry) (m : StdMap Entry)
      → ◌≡◌ {A = Text → Option Entry}
          (λ k. find k (insert id e m))
          (change id (some e) (λ k. find k m))
  find-change id e m = fun_ext λ k. find-insert id k e m

  find-change_none :
      (id : Text) (m : StdMap Entry)
      → ◌≡◌ {A = Text → Option Entry} (λ k. find k (erase id m)) (change id none (λ k. find k m))
  find-change_none id m = fun_ext λ k. find-erase id k m

  serve-open : (r : Request) (s : Session) → is_unlocked_state s.state ≡ true → Implements r s
  unfolding Implements add_entry update_entry delete_entry get_entry ensure_unlocked contains_key
      random_bytes
  serve-open (add e) s h =
      let f =
        find-change (ids_of s.draws)
          (record e { id = ids_of s.draws; created = s.now; modified = s.now }) s.entries in
      rw h
        (refl, rw h (ap (λ g. record { is_open = true; lookup = g; drawn = s.draws + 1 }) f), refl)
  serve-open (update id e) s h = elim (Option-cases (find id s.entries)) [
    | inl f ↦ rw (h, f) (refl, rw h refl, refl)
    | inr (old, f) ↦
        let g =
          find-change id (record e { id = id; created = old.created; modified = s.now })
            s.entries in
        rw (h, f)
          (refl, rw h (ap (λ g. record { is_open = true; lookup = g; drawn = s.draws }) g), refl)
  ]
  serve-open (delete id) s h = rw h (
    refl,
    rw h (
        ap (λ g. record { is_open = true; lookup = g; drawn = s.draws })
          (find-change_none id s.entries)),
    refl,
  )
  serve-open (get id) s h = elim (Option-cases (find id s.entries)) [
    | inl f ↦ rw (h, f) (refl, rw h refl, refl)
    | inr (e, f) ↦ rw (h, f) (refl, rw h refl, refl)
  ]

  serve-Implements : (r : Request) (s : Session) → Implements r s
  serve-Implements r s = elim (Bool-cases (is_unlocked_state s.state)) [
    | inl h ↦ serve-open r s h
    | inr h ↦ serve-locked r s h
  ]

  -- Whatever requests to add, update, delete and get entries a client makes, of any session, the
  -- vault gives the replies of the abstract one, a function from ids to entries that is open or
  -- closed, and they look the same afterwards; the time is taken not to pass in between.
  pub serve_all-refines :
      (rs : List Request) (s : Session)
      → let (replies, t) = serve_all rs s in
        let (expected, b) = book_all ids_of s.now rs (view s) in (replies ≡ expected) × (view t ≡ b)
  unfolding Implements serve_all book_all
  serve_all-refines [] s = (refl, refl)
  serve_all-refines (r ∷ rs) s =
      let (a, v, n) = serve-Implements r s in
      let (replies, last) = rw (n, v) at (serve_all-refines rs (serve r s).1) in (cc, last)
