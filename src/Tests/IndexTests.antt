-- ===== src/Tests/IndexTests.antt =====
-- The theorems on the index and the search at concrete inputs.
use passdoq.Prelude.{
  some, filter_by, ◌++◌, ◌≡◌, ◌↔◌, refl, true, false, not, ◌||◌, ◌&&◌, none, List, [], ◌∷◌, map, In,
  arith, Bool-cases, inl, inr,
}
use passdoq.Prelude.Exec.{ok}
use passdoq.Prelude.Text.{Text, codes, eq_text, eq_text_iff}
use passdoq.StdMap.{values}
use passdoq.Platform.Sample.{toy}
use passdoq.Xapian.Sample.{
  toy-ChangeLaws, toy_has, toy_xapian, toy_xapian-laws, toy-IsUsable, ToyDocument,
}
use passdoq.Vault.Entries.{list_entries, search_by_tag}
use passdoq.Indexing.Sync.{Describes, others, update_indexed-Describes}
use passdoq.Indexing.{
  entry_to_document, get_doc_id, update_indexed, remove_entry, IndexManager, rebuild_index,
}
use passdoq.Search.{new_engine, open_engine, build, new_builder, search_tag, search_metadata}
use passdoq.Search.Laws.{search_tag-rebuilt, search_metadata-empty}
use passdoq.Search.Builder.{
  Part, with_term, with_tag, add_parts, asks, has_one, has_all, match-build,
}
use passdoq.Vault.{Entry}
use passdoq.Tests.Sessions.{mail, bank, two, ready}

abbrev manager : IndexManager (List ToyDocument)
manager = record { index_path = codes "/i/x"; db = none; stored = λ q. none }

search_tag-rebuilt_example :
    let (r, u) = rebuild_index (values two) manager in
    let (o, engine) = open_engine u.stored (new_engine (codes "/i/x")) in
    ((list_entries ready).0 ≡ ok (values two))
    × (r ≡ ok true)
    × (o ≡ true)
    × ((es : List _) × ((search_by_tag (codes "home") ready).0 ≡ ok es)
        × (In (codes "0a") (map (λ r. r.entry_id) (search_tag (codes "home") 5 engine))
            ↔ In (codes "0a") (map (λ e. e.id) es)))
unfolding values
search_tag-rebuilt_example =
    search_tag-rebuilt toy_xapian-laws ready manager (codes "home") 5 (codes "0a") refl
      (toy-IsUsable _ _) (omega arith) (omega arith)

plain_metadata : (s : Text) → toy_xapian.generates (codes "Url:Example") s ≡ false
plain_metadata s = elim (Bool-cases (eq_text s (codes "Url:Example"))) [
  | inl e ↦
      let f : s ≡ codes "Url:Example" = (eq_text_iff s (codes "Url:Example")).0 e in
      rw f (unfold eq_text in refl)
  | inr e ↦ rw e refl
]

search_metadata-empty_example :
    let (r, u) = rebuild_index (mail ∷ bank ∷ []) manager in
    let (o, engine) = open_engine u.stored (new_engine (codes "/i/x")) in
    (r ≡ ok true)
    × (o ≡ true)
    × ¬ (
        In
          (codes "0a")
          (map (λ r. r.entry_id) (search_metadata (codes "Url") (codes "Example") 5 engine)))
search_metadata-empty_example =
    search_metadata-empty toy_xapian-laws (mail ∷ bank ∷ []) manager (codes "Url") (codes "Example")
      5 (codes "0a") (toy-IsUsable _ _) (omega arith) (omega arith) refl plain_metadata

abbrev asked : List Part
asked = with_tag (codes "home") ∷ with_term (codes "mail") ∷ []

abbrev some_document : ToyDocument
some_document = record { terms = codes "mail" ∷ codes "TAG:home" ∷ []; content = codes "0a" }

match-build_example :
    toy_xapian.is_match (build (add_parts toy_xapian-laws asked new_builder)) some_document ≡ (
      (not (asks toy_xapian-laws asked) || has_one toy_xapian-laws asked some_document)
      && has_all toy_xapian-laws asked some_document)
match-build_example = match-build toy_xapian-laws asked some_document

-- The index of the two entries, of which one is changed and one is removed.
abbrev filled : List ToyDocument
filled = map entry_to_document (values two)

abbrev filled_manager : IndexManager (List ToyDocument)
filled_manager = record manager { db = some filled }

abbrev changed_mail : Entry
changed_mail = record mail { name = codes "post" }

update_indexed-Describes_example :
    let c =
      filter_by (λ d. not (toy_has (get_doc_id (codes "0a")) d)) filled
      ++ entry_to_document changed_mail ∷ [] in
    let d = filter_by (λ d. not (toy_has (get_doc_id (codes "0b")) d)) filled in
    let (r, u) = update_indexed changed_mail filled_manager in
    let (q, v) = remove_entry (codes "0b") filled_manager in
    (r ≡ ok true)
    × (u.stored (codes "/i/x") ≡ some c)
    × Describes toy_xapian-laws (changed_mail ∷ others (codes "0a") (values two)) c
    × (q ≡ ok true)
    × (v.stored (codes "/i/x") ≡ some d)
    × Describes toy_xapian-laws (others (codes "0b") (values two)) d
update_indexed-Describes_example =
    update_indexed-Describes toy_xapian-laws toy-ChangeLaws (values two) changed_mail (codes "0b")
      filled_manager filled _ _ refl (λ k. ((λ i. i), λ i. i)) refl refl refl
