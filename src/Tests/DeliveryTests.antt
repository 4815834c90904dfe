-- ===== src/Tests/DeliveryTests.antt =====
-- The theorems on the delivery of secrets, and on the vault as a client sees it, at concrete inputs.
use passdoq.Prelude.{◌≡◌, refl, true, ltb, none, some, List, [], ◌∷◌, ◌++◌}
use passdoq.Prelude.Exec.{throw, fault, library_error}
use passdoq.Prelude.Text.{Text, Bytes, codes, eq_text}
use passdoq.Platform.Sample.{toy, toy_world}
use passdoq.Delivery.{
  clipboard, memory, null, allocated, method_name, Outside, deliver, destroy_manager,
  DeliveryManager,
}
use passdoq.Delivery.Laws.{Clean, deliver_each, deliver_each-Clean, deliver_failed-dangling}
use passdoq.Vault.Refinement.{
  Request, add, update, delete, get, serve_all, book_all, ids_of, view, serve_all-refines,
}
use passdoq.Tests.Sessions.{mail, ready}

abbrev outside : Outside
outside = record {
  world = toy_world;
  output = [];
  freed = [];
  allocations = 0;
  can_allocate = λ n size. true;
}

-- Only one array can be allocated.
abbrev full : Outside
full = record outside { allocations = 1; can_allocate = λ n size. ltb n 1 }

abbrev methods : DeliveryManager
methods = clipboard ∷ memory null 0 ∷ []

abbrev secrets : List (Text × Bytes)
secrets =
    (codes "memory", codes "s3cret") ∷ (codes "memory", codes "pw") ∷ (codes "file", codes "x") ∷ []

deliver_each-Clean_example :
    let (r, ns, q) = deliver_each secrets methods outside in
    (r ≡ true) × ((e : Outside) × (destroy_manager ns q ≡ some e) × Clean e)
deliver_each-Clean_example =
    deliver_each-Clean secrets methods outside (tt, (tt, tt)) tt (λ n size. refl)

deliver_failed-dangling_example :
    let ms = (clipboard ∷ []) ++ memory (allocated (codes "pw")) 2 ∷ [] in
    let (r, ns, q) = deliver (codes "memory") (codes "s3cret") ms full in
    (r ≡ throw library_error)
    × ((deliver (codes "memory") (codes "x") ns q).0 ≡ fault)
    × (destroy_manager ns q ≡ none)
unfolding method_name eq_text
deliver_failed-dangling_example =
    deliver_failed-dangling (clipboard ∷ []) [] (codes "pw") (codes "s3cret") (codes "x") full
      (refl, tt) refl

abbrev requests : List Request
requests =
    add mail
    ∷ update (codes "0b") mail
    ∷ delete (codes "0a")
    ∷ get (codes "0a")
    ∷ get (codes "0b")
    ∷ []

serve_all-refines_example :
    let (replies, t) = serve_all requests ready in
    let (expected, b) = book_all ids_of ready.now requests (view ready) in
    (replies ≡ expected) × (view t ≡ b)
serve_all-refines_example = serve_all-refines requests ready
