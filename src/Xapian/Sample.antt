-- ===== src/Xapian/Sample.antt =====
-- A small index library that meets the laws of Xapian, so that theorems can be applied at concrete
-- inputs. It stands for no real library.
use passdoq.Prelude.{
  ◌⊎◌, inl, inr, ℕ, zero, suc, ◌≡◌, ◌≤◌, ◌↔◌, refl, ap, Bool, true, false, not, ◌&&◌, ◌||◌, Option,
  some, List, [], ◌∷◌, ◌++◌, map, length, take, filter_by, In, In-filter_by→, In-filter_by←,
  if◌then◌else◌, arith, length-map, ltb,
}
use passdoq.Prelude.Text.{Text, eq_text, eq_text_iff}
use passdoq.Xapian.{Xapian}
use passdoq.Xapian.Laws.{ChangeLaws, XapianLaws, IsUsable, is_prefixed, any_match, all_match}

pub record ToyDocument : Type 0 where
  pub terms : List Text
  pub content : Text

abbrev has_text : Text → List Text → Bool
has_text t [] = false
has_text t (u ∷ l) = eq_text u t || has_text t l

abbrev pub toy_has : Text → ToyDocument → Bool
toy_has t d = has_text t d.terms

-- A text is one term, unless it is long or begins with a capital letter.
abbrev is_ignored : Text → Bool
is_ignored s = is_prefixed s || ltb 64 (length s)

abbrev toy_generates : Text → Text → Bool
toy_generates t s = eq_text s t && not (is_ignored s)

-- A query for one term; the empty one finds every document.
abbrev toy_term : Text → ToyDocument → Bool
toy_term [] d = true
toy_term (c ∷ t) d = toy_has (c ∷ t) d

abbrev add_toy_term : Text → ToyDocument → ToyDocument
add_toy_term t d = record d { terms = t ∷ d.terms }

abbrev toy_index : Text → ToyDocument → ToyDocument
toy_index s d = if is_ignored s then d else add_toy_term s d

abbrev toy_any : List (ToyDocument → Bool) → ToyDocument → Bool
toy_any [] d = false
toy_any (q ∷ l) d = q d || toy_any l d

abbrev toy_all : List (ToyDocument → Bool) → ToyDocument → Bool
toy_all [] d = true
toy_all (q ∷ l) d = q d && toy_all l d

abbrev with_percent : ToyDocument → ToyDocument × ℕ
with_percent d = (d, 100)

abbrev toy_mset : (ToyDocument → Bool) → ℕ → List ToyDocument → Option (List (ToyDocument × ℕ))
toy_mset q n b = some (take n (map with_percent (filter_by q b)))

abbrev toy_others : Text → List ToyDocument → List ToyDocument
toy_others t b = filter_by (λ d. not (toy_has t d)) b

instance abbrev pub toy_xapian : Xapian
toy_xapian = record {
  Document = ToyDocument;
  new_document = record { terms = []; content = [] };
  index_text = λ s w d. toy_index s d;
  add_boolean_term = add_toy_term;
  add_value = λ n v d. d;
  set_data = λ s d. record d { content = s };
  get_data = λ d. d.content;
  Database = List ToyDocument;
  empty_database = [];
  add_document = λ d b. some (b ++ d ∷ []);
  replace_document = λ t d b. some (toy_others t b ++ d ∷ []);
  delete_document = λ t b. some (toy_others t b);
  can_open = λ q. true;
  can_commit = λ q. true;
  allterms = λ q b. some [];
  Query = ToyDocument → Bool;
  term_query = λ t wqf pos. toy_term t;
  match_all = λ d. true;
  op_or = toy_any;
  op_and = toy_all;
  op_filter = λ q f d. q d && f d;
  parse_query = λ b t. some (toy_has t);
  get_mset = toy_mset;
  can_create_directories = λ q. true;
  can_remove_all = λ q. true;
  has_term = toy_has;
  generates = toy_generates;
  documents = λ b. b;
  is_match = λ q d. q d;
}

toy_any_lem :
    (qs : List (ToyDocument → Bool)) (d : ToyDocument) → toy_any qs d ≡ any_match toy_xapian qs d
toy_any_lem [] d = refl
toy_any_lem (q ∷ qs) d = ap (λ b. q d || b) (toy_any_lem qs d)

toy_all_lem :
    (qs : List (ToyDocument → Bool)) (d : ToyDocument) → toy_all qs d ≡ all_match toy_xapian qs d
toy_all_lem [] d = refl
toy_all_lem (q ∷ qs) d = ap (λ b. q d && b) (toy_all_lem qs d)

toy_has-index :
    (t s : Text) (d : ToyDocument) → toy_has t (toy_index s d) ≡ toy_has t d || toy_generates t s
toy_has-index t s d = ground arith

toy_plain : (t s : Text) → toy_generates t s ≡ true → is_prefixed t ≡ false
toy_plain t s h = let e : s ≡ t = (eq_text_iff s t).0 (ground arith) in rw (← e) (ground arith)

toy_short : (t s : Text) → toy_generates t s ≡ true → length t ≤ 64
toy_short t s h = let e : s ≡ t = (eq_text_iff s t).0 (ground arith) in rw (← e) (ground arith)

take_all : {A : Type 0} (n : ℕ) (l : List A) → length l ≤ n → take n l ≡ l
take_all zero [] h = refl
take_all zero (a ∷ l) h = absurd (omega arith)
take_all (suc n) [] h = refl
take_all (suc n) (a ∷ l) h = ap (λ k. a ∷ k) (take_all n l (omega arith))

length-filter_by : {A : Type 0} (f : A → Bool) (l : List A) → length (filter_by f l) ≤ length l
length-filter_by f [] = omega arith
length-filter_by f (a ∷ l) = ground (arith, length-filter_by f l)

strip : (l : List ToyDocument) → map (λ m. m.0) (map with_percent l) ≡ l
strip [] = refl
strip (d ∷ l) = ap (λ k. d ∷ k) (strip l)

toy_mset-exact :
    (q : ToyDocument → Bool) (n : ℕ) (b : List ToyDocument) (d : ToyDocument)
    {l : List (ToyDocument × ℕ)}
    → toy_mset q n b ≡ some l
    → length b ≤ n
    → In d (map (λ m. m.0) l) ↔ (In d b × (q d ≡ true))
toy_mset-exact q n b d {l} e room =
    let kept = filter_by q b in
    let few : length (map with_percent kept) ≤ n =
      omega (arith, length-map with_percent kept, length-filter_by q b) in
    let whole : l ≡ map with_percent kept =
      let g = take_all n (map with_percent kept) few in ground (arith, g) in
    rw whole (rw (strip kept) ((λ i. In-filter_by→ q d b i), λ (i, h). In-filter_by← q d b i h))

pub toy_xapian-laws : XapianLaws toy_xapian
toy_xapian-laws = record {
  has-new = λ t. refl;
  has-index_text = λ t s w d. toy_has-index t s d;
  has-boolean = λ t c u d. refl;
  has-value = λ t v n d. refl;
  has-set_data = λ t s d. refl;
  generates-plain = toy_plain;
  generates-short = toy_short;
  get-set_data = λ s d. refl;
  get-boolean = λ t d. refl;
  documents-empty = refl;
  documents-add = λ d b e. ground arith;
  match-term = λ c t wqf pos d. refl;
  match-empty_term = λ wqf pos d. refl;
  match-match_all = λ d. refl;
  match-op_or = λ q qs d. toy_any_lem (q ∷ qs) d;
  match-op_and = λ q qs d. toy_all_lem (q ∷ qs) d;
  match-op_filter = λ q f d. refl;
  mset-exact = toy_mset-exact;
}

pub toy-IsUsable : (path parent : Text) → IsUsable toy_xapian path parent
toy-IsUsable path parent = record {
  opens = refl;
  commits = refl;
  creates = refl;
  removes = refl;
  adds = λ d b short. (b ++ d ∷ [], refl);
  finds = λ q n b. (take n (map with_percent (filter_by q b)), refl);
}

In-snoc : (k d : ToyDocument) (l : List ToyDocument) → In k (l ++ d ∷ []) ↔ ((d ≡ k) ⊎ In k l)
In-snoc k d [] = ((λ i. i), λ i. i)
In-snoc k d (e ∷ l) = (
  (λ i. elim i [
    | inl f ↦ inr (inl f)
    | inr j ↦ elim ((In-snoc k d l).0 j) [ inl f ↦ inl f | inr m ↦ inr (inr m) ]
  ]),
  λ i. elim i [
    | inl f ↦ inr ((In-snoc k d l).1 (inl f))
    | inr j ↦ elim j [ inl f ↦ inl f | inr m ↦ inr ((In-snoc k d l).1 (inr m)) ]
  ],
)

In-toy_others :
    (t : Text) (k : ToyDocument) (b : List ToyDocument)
    → In k (toy_others t b) ↔ (In k b × (toy_has t k ≡ false))
In-toy_others t k b = (
  (λ i. let (j, n) = In-filter_by→ (λ d. not (toy_has t d)) k b i in (j, ground arith)),
  λ p. In-filter_by← (λ d. not (toy_has t d)) k b p.0 (rw (p.1) refl),
)

toy_replace-exact :
    (t : Text) (d k : ToyDocument) (b c : List ToyDocument)
    → toy_others t b ++ d ∷ [] ≡ c
    → In k c ↔ ((d ≡ k) ⊎ (In k b × (toy_has t k ≡ false)))
toy_replace-exact t d k b c e = rw⁻¹ e (
  (λ i. elim ((In-snoc k d (toy_others t b)).0 i) [
    | inl f ↦ inl f
    | inr j ↦ inr ((In-toy_others t k b).0 j)
  ]),
  λ i.
      (In-snoc k d (toy_others t b)).1
        (elim i [ inl f ↦ inl f | inr j ↦ inr ((In-toy_others t k b).1 j) ]),
)

toy_delete-exact :
    (t : Text) (k : ToyDocument) (b c : List ToyDocument)
    → toy_others t b ≡ c
    → In k c ↔ (In k b × (toy_has t k ≡ false))
toy_delete-exact t k b c e = rw⁻¹ e (In-toy_others t k b)

pub toy-ChangeLaws : ChangeLaws toy_xapian
toy-ChangeLaws = record {
  documents-replace = λ t d k b {c} e. toy_replace-exact t d k b c (ground arith);
  documents-delete = λ t k b {c} e. toy_delete-exact t k b c (ground arith);
}
