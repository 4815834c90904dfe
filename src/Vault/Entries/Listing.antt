-- ===== src/Vault/Entries/Listing.antt =====
-- What `list_entries` and the searches return.
use passdoq.Prelude.{
  ◌≡◌, ◌↔◌, ◌⊎◌, inl, inr, true, some, List, [], ◌∷◌, ◌++◌, arith, filter_by, Bool-cases, In,
  In-filter_by→, In-filter_by←,
}
use passdoq.Prelude.Exec.{ok}
use passdoq.Prelude.Text.{
  Text, eq_text, lt_text, eq_text_iff, contains, contains-split, contains-append,
}
use passdoq.StdMap.{StdMap, find, values}
use passdoq.StdMap.Laws.{IsSorted, find-Below}
use passdoq.Platform.{Platform}
use passdoq.Vault.{Entry, Session, unlocked, ensure_unlocked}
use passdoq.Vault.Codec.Roundtrip.{IsKeyed}
use passdoq.Vault.Invariant.Methods.{Valid}
use passdoq.Vault.Entries.{
  has_tag, matches_query, matches_tag, get_entry, list_entries, search_entries, search_by_tag,
}

-- The ids ascend.
abbrev pub IdsAscend : List Entry → Type 0
IdsAscend [] = Unit
IdsAscend (x ∷ []) = Unit
IdsAscend (x ∷ y ∷ l) = (lt_text x.id y.id ≡ true) × IdsAscend (y ∷ l)

ascend : (m : StdMap Entry) → IsSorted m → IsKeyed m → IdsAscend (values m)
unfolding values
ascend [] s k = tt
ascend ((i, e) ∷ []) s k = tt
ascend ((i, e) ∷ (j, f) ∷ m) s k = (ground arith, ascend ((j, f) ∷ m) s.1 k.1)

pub In→find :
    (e : Entry) (m : StdMap Entry) → IsSorted m → IsKeyed m → In e (values m) → find e.id m ≡ some e
unfolding values find
In→find e [] s k h = absurd h
In→find e ((j, x) ∷ m) s k (inl h) = ground (arith, eq_text_iff e.id j)
In→find e ((j, x) ∷ m) s k (inr h) =
    ground (arith, eq_text_iff e.id j, In→find e m s.1 k.1 h, find-Below j m s.0)

find→In : (e : Entry) (k : Text) (m : StdMap Entry) → find k m ≡ some e → In e (values m)
unfolding values find
find→In e k [] h = ground arith
find→In e k ((j, x) ∷ m) h = elim (Bool-cases (eq_text k j)) [
  | inl f ↦ inl (ground arith)
  | inr f ↦ inr (find→In e k m (ground arith))
]

-- `q` stands somewhere in the text.
abbrev pub HasPart : Text → Text → Type 0
HasPart q s = (a b : Text) × (s ≡ a ++ q ++ b)

HasPart-contains : (q s : Text) → HasPart q s → contains q s ≡ true
HasPart-contains q s (a, b, e) = rw e (contains-append q a b)

matches_query→ :
    (q : Text) (e : Entry) → matches_query q e ≡ true → HasPart q e.name ⊎ HasPart q e.username
unfolding matches_query
matches_query→ q e h = elim (Bool-cases (contains q e.name)) [
  | inl f ↦ inl (contains-split q e.name f)
  | inr f ↦ inr (contains-split q e.username (ground arith))
]

matches_query← :
    (q : Text) (e : Entry) → HasPart q e.name ⊎ HasPart q e.username → matches_query q e ≡ true
unfolding matches_query
matches_query← q e (inl h) = ground (arith, HasPart-contains q e.name h)
matches_query← q e (inr h) = ground (arith, HasPart-contains q e.username h)

has_tag→ : (t : Text) (l : List Text) → has_tag t l ≡ true → In t l
unfolding has_tag
has_tag→ t [] h = cc
has_tag→ t (x ∷ l) h = elim (Bool-cases (eq_text x t)) [
  | inl e ↦ inl ((eq_text_iff x t).0 e)
  | inr e ↦ inr (has_tag→ t l (ground arith))
]

has_tag← : (t : Text) (l : List Text) → In t l → has_tag t l ≡ true
unfolding has_tag
has_tag← t [] h = absurd h
has_tag← t (x ∷ l) (inl e) = ground (arith, eq_text_iff x t)
has_tag← t (x ∷ l) (inr h) = ground (arith, has_tag← t l h)

module _ ⦃p : Platform⦄ where
  -- `list_entries` of an unlocked valid vault returns, in ascending order of the ids, the entries
  -- that `get_entry` returns for their own id, and no other.
  list_entries_lem :
      (s : Session) (e : Entry)
      → s.state ≡ unlocked
      → Valid s
      → ((list_entries s).0 ≡ ok (values s.entries))
        × IdsAscend (values s.entries)
        × (In e (values s.entries) ↔ ((get_entry e.id s).0 ≡ ok e))
  unfolding list_entries get_entry ensure_unlocked
  list_entries_lem s e h v = (
    ground arith,
    ascend s.entries v.sorted v.keyed,
    (
      (λ i. ground (arith, In→find e s.entries v.sorted v.keyed i)),
      (λ g. find→In e e.id s.entries (ground arith)),
    ),
  )

  -- `search` of an unlocked valid vault finds exactly the entries that it holds and in whose name
  -- or user name the query stands; `search_by_tag` those that it holds and that have the tag.
  pub search_exact :
      (s : Session) (q : Text) (e : Entry)
      → s.state ≡ unlocked
      → Valid s
      → let found = filter_by (matches_query q) (values s.entries) in
        let tagged = filter_by (matches_tag q) (values s.entries) in
        ((search_entries q s).0 ≡ ok found)
        × ((search_by_tag q s).0 ≡ ok tagged)
        × (In e found ↔ (((get_entry e.id s).0 ≡ ok e) × (HasPart q e.name ⊎ HasPart q e.username)))
        × (In e tagged ↔ (((get_entry e.id s).0 ≡ ok e) × In q e.tags))
  unfolding search_entries search_by_tag ensure_unlocked
  search_exact s q e h v =
      let l = values s.entries in
      let (_, _, listed) = list_entries_lem s e h v in
      (
        ground arith,
        ground arith,
        (
          (λ i.
              let (j, f) = In-filter_by→ (matches_query q) e l i in
              (listed.0 j, matches_query→ q e f)),
          (λ g. In-filter_by← (matches_query q) e l (listed.1 g.0) (matches_query← q e g.1)),
        ),
        (
          (λ i.
              let (j, f) = In-filter_by→ (matches_tag q) e l i in
              (listed.0 j, has_tag→ q e.tags f)),
          (λ g. In-filter_by← (matches_tag q) e l (listed.1 g.0) (has_tag← q e.tags g.1)),
        ),
      )
