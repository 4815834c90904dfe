-- ===== src/Tests/ScriptTests.antt =====
-- The theorems on scripts at concrete inputs.
use passdoq.Prelude.{ℕ, ◌+◌, ◌≡◌, refl, true, none, List, [], ◌∷◌, ◌++◌, map, In}
use passdoq.Prelude.Exec.{ok, modify, pure, try_catch}
use passdoq.Prelude.Text.{Text, codes}
use passdoq.StdMap.{find, values}
use passdoq.Platform.Sample.{toy}
use passdoq.Lua.{
  LuaEngine, new_engine, Action, init_addon, on, request, defer, raise_error, list_addons,
  load_script, call_each, trigger_event, entry_table, secret_table, get_entry, list_entries,
}
use passdoq.Runcom.{negsuc}
use passdoq.Lua.Laws.{
  reads_vault, trigger-load, before_error, no_error, registered, handed_in, printed, handlers_of,
}
use passdoq.Tests.Sessions.{mail, ready, ready-IsValid}

reads_vault_example :
    (list_entries true ready ≡ (ok (map entry_table (values ready.entries)), ready))
    × (In mail (values ready.entries)
        → get_entry true mail.id ready ≡ (ok (secret_table mail), ready))
    × (find (codes "0z") ready.entries ≡ none → get_entry true (codes "0z") ready ≡ (ok [], ready))
reads_vault_example = reads_vault ready mail (codes "0z") refl ready-IsValid

-- A script of two functions for an event, which fails then; the functions add their number.
abbrev script : Text → List (Action ℕ)
script code =
    init_addon []
    ∷ on (codes "unlock") 3
    ∷ request (defer (negsuc 4) 5)
    ∷ on (codes "unlock") 4
    ∷ raise_error
    ∷ []

abbrev engine : LuaEngine ℕ
engine = record new_engine { has_state = true }

trigger-load_example :
    let (r, k) = load_script script [] engine in
    let done = before_error (script []) in
    (r ≡ no_error (script []))
    × (list_addons k ≡ [] ++ handed_in done)
    × (k.output ≡ [] ++ printed done)
    × (trigger_event {W = ℕ} (λ l. l) (λ n a. modify (λ w. w + n)) (codes "unlock") none k 0
        ≡ try_catch
            (call_each
              (λ l. l)
              (λ n a. modify (λ w. w + n))
              none
              (handlers_of (codes "unlock") engine ++ registered (codes "unlock") done))
            (pure tt)
            0)
trigger-load_example =
    trigger-load (λ l. l) (λ n a. modify (λ w. w + n)) script [] (codes "unlock") none engine 0 refl
      refl
