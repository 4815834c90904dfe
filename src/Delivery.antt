-- ===== src/Delivery.antt =====
-- src/delivery.cpp and src/delivery.hpp: the methods that hand a secret over, and their manager.
pub mod Laws
use passdoq.Prelude.{
  ℕ, ◌+◌, Bool, true, false, Option, none, some, List, [], ◌∷◌, ◌++◌, if◌then◌else◌, map, length,
  take, drop, ltb,
}
use passdoq.Prelude.Exec.{Result, ok, throw, fault, library_error}
use passdoq.Prelude.Text.{Text, Bytes, codes, eq_text}
use passdoq.Platform.{Platform, World}
use passdoq.Crypto.{secure_zero}

-- The pointer `data_` of the memory method: null, to an array with its bytes, or to an array that was
-- freed.
pub data Buffer : Type 0 where
  null dangling : Buffer
  allocated : Bytes → Buffer

-- The classes that implement the interface. The memory method has `data_` and `size_`. The clipboard
-- is not filled yet: the method only prints a message.
pub data DeliveryMethod : Type 0 where
  clipboard stdout : DeliveryMethod
  file : Text → DeliveryMethod
  memory : Buffer → ℕ → DeliveryMethod

-- What is delivered to: the files and the standard output; the arrays of the memory methods that were
-- freed, the first one first, with their content at that time; how many `new[]` there were, and
-- whether one of a number and a size gets its array.
pub record Outside : Type 0 where
  pub world : World
  pub output : Bytes
  pub freed : List Bytes
  pub allocations : ℕ
  pub can_allocate : ℕ → ℕ → Bool

-- `name()`
unfoldable pub method_name : DeliveryMethod → Text
method_name clipboard = codes "clipboard"
method_name stdout = codes "stdout"
method_name (file path) = codes "file"
method_name (memory buffer size) = codes "memory"

-- `if (data_) { secure_zero(data_, size_); delete[] data_; }`; `none` is undefined behaviour: an array
-- that was freed, or a size past the end of the array.
unfoldable pub free_buffer : Buffer → ℕ → Outside → Option Outside
unfolding secure_zero
free_buffer null size o = some o
free_buffer dangling size o = none
free_buffer (allocated bytes) size o =
    if ltb (length bytes) size
    then none
    else some
        (record o { freed = o.freed ++ (secure_zero (take size bytes) ++ drop size bytes) ∷ [] })

-- The pointer once its array was freed.
abbrev pub after_free : Buffer → Buffer
after_free null = null
after_free dangling = dangling
after_free (allocated bytes) = dangling

abbrev print_text : Text → Outside → Outside
print_text t o = record o { output = o.output ++ t }

abbrev set_content : Text → Bytes → Outside → Outside
set_content path bytes o = record o {
  world = record (o.world) { files = λ q. if eq_text path q then some bytes else o.world.files q };
}

-- `~MemoryDelivery`, `~ClipboardDelivery`, and the destructors that do nothing; `none` is undefined
-- behaviour.
unfoldable pub destroy_method : DeliveryMethod → Outside → Option Outside
unfolding free_buffer
destroy_method clipboard o = some (print_text (codes "[Clipboard] Clipboard cleared\n") o)
destroy_method stdout o = some o
destroy_method (file path) o = some o
destroy_method (memory buffer size) o = free_buffer buffer size o

-- `std::unique_ptr<DeliveryMethod>`s, in the order in which they were registered.
abbrev pub DeliveryManager : Type 0
DeliveryManager = List DeliveryMethod

unfoldable pub register_method : DeliveryMethod → DeliveryManager → DeliveryManager
register_method m ms = ms ++ m ∷ []

unfoldable pub list_methods : DeliveryManager → List Text
unfolding method_name
list_methods ms = map method_name ms

-- The methods are destroyed with the manager.
unfoldable pub destroy_manager : DeliveryManager → Outside → Option Outside
unfolding destroy_method
destroy_manager [] o = some o
destroy_manager (m ∷ ms) o = elim (destroy_method m o) [
  | none ↦ none
  | some q ↦ destroy_manager ms q
]

module _ ⦃p : Platform⦄ where
  -- `FileDelivery::deliver`
  abbrev pub write_secret : Text → Bytes → Outside → Bool × Outside
  write_secret path secret o =
      if p.can_write path
      then (let (left, good) = p.write path secret in
          if good
          then (
            true,
            print_text (codes "[File] Secret written to: " ++ path ++ codes "\n")
                (set_content path left o),
          )
          else (false, set_content path left o))
      else (false, o)

  abbrev keep_file : Text → Bool × Outside → Result Bool × DeliveryMethod × Outside
  keep_file path (b, o) = (ok b, file path, o)

  -- `MemoryDelivery::deliver` once the old array was freed: where `new[]` throws, `size_` is set and
  -- `data_` is not. The exception, `std::bad_alloc`, is `library_error`.
  abbrev pub store_secret : Buffer → Bytes → Outside → Result Bool × DeliveryMethod × Outside
  store_secret buffer secret o =
      let size = length secret in
      let q = record o { allocations = o.allocations + 1 } in
      if o.can_allocate o.allocations size
      then (
        ok true,
        memory (allocated secret) size,
        print_text (codes "[Memory] Secret stored in secure memory\n") q,
      )
      else (throw library_error, memory (after_free buffer) size, q)

  -- From the freeing of the old array on.
  abbrev pub deliver_freed :
      Buffer → ℕ → Bytes → Option Outside → Outside → Result Bool × DeliveryMethod × Outside
  deliver_freed buffer size secret none o = (fault, memory buffer size, o)
  deliver_freed buffer size secret (some q) o = store_secret buffer secret q

  -- `deliver` of each class: its outcome, the method afterwards, and the world outside.
  unfoldable pub deliver_by :
      DeliveryMethod → Bytes → Outside → Result Bool × DeliveryMethod × Outside
  unfolding free_buffer
  deliver_by clipboard secret o =
      (ok true, clipboard, print_text (codes "[Clipboard] Secret copied to clipboard\n") o)
  deliver_by stdout secret o = (ok true, stdout, print_text (secret ++ codes "\n") o)
  deliver_by (file path) secret o = keep_file path (write_secret path secret o)
  deliver_by (memory buffer size) secret o =
      deliver_freed buffer size secret (free_buffer buffer size o) o

  -- `DeliveryManager::deliver`
  unfoldable pub deliver :
      Text → Bytes → DeliveryManager → Outside → Result Bool × DeliveryManager × Outside
  unfolding method_name deliver_by
  deliver name secret [] o = (ok false, [], o)
  deliver name secret (m ∷ ms) o =
      if eq_text (method_name m) name
      then (let (b, n, q) = deliver_by m secret o in (b, n ∷ ms, q))
      else (let (b, ns, q) = deliver name secret ms o in (b, m ∷ ns, q))
