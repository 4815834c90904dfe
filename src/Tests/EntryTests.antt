-- ===== src/Tests/EntryTests.antt =====
-- The theorems on entries, encryption and the remote handlers at concrete inputs.
use passdoq.Prelude.{In, ◌≡◌, ◌↔◌, ◌⊎◌, refl, true, not, [], arith, filter_by}
use passdoq.Prelude.Exec.{ok, ◌>>=◌}
use passdoq.Prelude.Text.{codes, eq_text}
use passdoq.StdMap.{values}
use passdoq.Platform.Sample.{toy, toy_world, toy_sodium-laws}
use passdoq.Tests.Sessions.{dkey, mail, two, ready, closed, ready-IsValid}
use passdoq.Crypto.{encrypt, decrypt}
use passdoq.Crypto.Laws.{decrypt-encrypt, drawn}
use passdoq.Vault.Keys.{rekey}
use passdoq.Vault.Entries.{
  add_entry, update_entry, delete_entry, get_entry, list_entries, search_entries, search_by_tag,
  matches_query, matches_tag,
}
use passdoq.Vault.Entries.Access.{refused, next_id, locked_refuses}
use passdoq.Vault.Entries.Listing.{HasPart, search_exact}
use passdoq.Vault.{is_unlocked}
use passdoq.Remote.{RpcServer, handle_add_entry, handle_get_entry, client_get_entry}
use passdoq.Remote.Laws.{rpc-get-add}

decrypt-encrypt_example :
    (encrypt (codes "hello") dkey >>= λ e. decrypt e dkey) toy_world
    ≡ (ok (codes "hello"), drawn toy_world)
decrypt-encrypt_example = decrypt-encrypt toy_sodium-laws (codes "hello") dkey toy_world refl

locked_refuses_example :
    (add_entry mail closed ≡ refused closed)
    × (update_entry (codes "0a") mail closed ≡ refused closed)
    × (delete_entry (codes "0a") closed ≡ refused closed)
    × (get_entry (codes "0a") closed ≡ refused closed)
    × (list_entries closed ≡ refused closed)
    × (search_entries (codes "0a") closed ≡ refused closed)
    × (search_by_tag (codes "0a") closed ≡ refused closed)
    × (rekey dkey closed ≡ refused closed)
locked_refuses_example = locked_refuses closed mail (codes "0a") dkey (ground arith)

search_exact_example :
    let found = filter_by (matches_query (codes "ai")) (values two) in
    let tagged = filter_by (matches_tag (codes "ai")) (values two) in
    ((search_entries (codes "ai") ready).0 ≡ ok found)
    × ((search_by_tag (codes "ai") ready).0 ≡ ok tagged)
    × (In mail found ↔ (
        ((get_entry (codes "0a") ready).0 ≡ ok mail)
        × (HasPart (codes "ai") mail.name ⊎ HasPart (codes "ai") mail.username)))
    × (In mail tagged ↔ (((get_entry (codes "0a") ready).0 ≡ ok mail) × In (codes "ai") mail.tags))
search_exact_example = search_exact ready (codes "ai") mail refl ready-IsValid

abbrev server : RpcServer
server = record { port = 8080; is_running = true; bound = true }

-- An entry with an empty name.
rpc-get-add_example :
    let (id, t) = handle_add_entry server [] (codes "u") (codes "s") ready in
    (id ≡ ok (next_id ready))
    × ((handle_get_entry server (next_id ready) t).0 ≡ ok ([], codes "u", codes "s"))
    × (client_get_entry ([], [], []) (handle_get_entry server (next_id ready) t).0
        ≡ (not (eq_text [] []), ([], codes "u", codes "s")))
unfolding is_unlocked
rpc-get-add_example =
    rpc-get-add server [] (codes "u") (codes "s") ([], [], []) ready refl ready-IsValid
