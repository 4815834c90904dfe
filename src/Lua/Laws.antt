-- ===== src/Lua/Laws.antt =====
-- What scripts read of the vault, and what an event calls.
use passdoq.Prelude.{
  ◌≡◌, ◌∙◌, refl, sym, append-nil, append_assoc, Bool, true, false, Option, none, List, [], ◌∷◌,
  ◌++◌, map, if◌then◌else◌, arith, In, Bool-cases, Option-cases, inl, inr,
}
use passdoq.Prelude.Exec.{Exec, ok, pure, try_catch}
use passdoq.Prelude.Text.{Text, eq_text, eq_text_iff}
use passdoq.StdMap.{find, values}
use passdoq.StdMap.Laws.{find-insert}
use passdoq.Platform.{Platform}
use passdoq.Vault.{Entry, Session, unlocked, is_unlocked, ensure_unlocked}
use passdoq.Vault.Entries
use passdoq.Vault.Entries.Listing.{In→find}
use passdoq.Vault.Invariant.Methods.{Valid}
use passdoq.Lua.{
  AddonInfo, addon_of, LuaEngine, Action, init_addon, on, request, raise_error, request_line,
  serve_request, list_addons, or_empty, register_handler, add_addon, run_script, load_script,
  call_each, trigger_event, Table, entry_table, secret_table, get_entry, list_entries,
}

module _ ⦃p : Platform⦄ where
  -- Without a vault, or while it is not unlocked, a script gets empty tables and changes nothing.
  closed_engine :
      (bound : Bool) (id : Text) (s : Session)
      → (bound ≡ true → is_unlocked s.vault ≡ false)
      → (get_entry bound id s ≡ (ok [], s)) × (list_entries bound s ≡ (ok [], s))
  unfolding get_entry list_entries
  closed_engine false id s h = (refl, refl)
  closed_engine true id s h = rw (h refl) (refl, refl)

  -- While the bound vault is unlocked and valid, a script's list has the tables of all entries, in
  -- the order of the vault, without a secret; the table that it gets of an id is that of the entry
  -- in the list that has this id, its secret included, or empty where none has; and neither
  -- changes anything.
  pub reads_vault :
      (s : Session) (e : Entry) (id : Text)
      → s.state ≡ unlocked
      → Valid s
      → (list_entries true s ≡ (ok (map entry_table (values s.entries)), s))
        × (In e (values s.entries) → get_entry true e.id s ≡ (ok (secret_table e), s))
        × (find id s.entries ≡ none → get_entry true id s ≡ (ok [], s))
  unfolding get_entry list_entries Entries.get_entry Entries.list_entries ensure_unlocked
      is_unlocked
  reads_vault s e id h v =
      rw h (refl, (λ i. rw (In→find e s.entries v.sorted v.keyed i) refl), λ n. rw n refl)

module _ {H : Type 0} where
  -- The functions that are registered for an event.
  abbrev pub handlers_of : Text → LuaEngine H → List H
  handlers_of event g = or_empty (find event (or_empty g.events))

  -- The actions up to the first error, and whether there is none.
  abbrev pub before_error : List (Action H) → List (Action H)
  before_error [] = []
  before_error (init_addon info ∷ l) = init_addon info ∷ before_error l
  before_error (on event h ∷ l) = on event h ∷ before_error l
  before_error (request r ∷ l) = request r ∷ before_error l
  before_error (raise_error ∷ l) = []

  abbrev pub no_error : List (Action H) → Bool
  no_error [] = true
  no_error (init_addon info ∷ l) = no_error l
  no_error (on event h ∷ l) = no_error l
  no_error (request r ∷ l) = no_error l
  no_error (raise_error ∷ l) = false

  -- The functions that actions register for an event, and the add-ons that they hand in.
  abbrev pub registered : Text → List (Action H) → List H
  registered event [] = []
  registered event (init_addon info ∷ l) = registered event l
  registered event (on e h ∷ l) =
      let rest = registered event l in if eq_text e event then h ∷ rest else rest
  registered event (request r ∷ l) = registered event l
  registered event (raise_error ∷ l) = registered event l

  abbrev pub handed_in : List (Action H) → List AddonInfo
  handed_in [] = []
  handed_in (init_addon info ∷ l) = addon_of info ∷ handed_in l
  handed_in (on e h ∷ l) = handed_in l
  handed_in (request r ∷ l) = handed_in l
  handed_in (raise_error ∷ l) = handed_in l

  -- The lines that their requests print.
  abbrev pub printed : List (Action H) → List Text
  printed [] = []
  printed (init_addon info ∷ l) = printed l
  printed (on e h ∷ l) = printed l
  printed (request r ∷ l) = request_line r ∷ printed l
  printed (raise_error ∷ l) = printed l

  append-if :
      (e event : Text) (l : List H) (h : H) (rest : List H)
      → (l ++ (if eq_text e event then h ∷ [] else [])) ++ rest
        ≡ l ++ (if eq_text e event then h ∷ rest else rest)
  append-if e event l h rest = elim (Bool-cases (eq_text e event)) [
    | inl q ↦ rw q (append_assoc l (h ∷ []) rest)
    | inr q ↦ rw q (append_assoc l [] rest)
  ]

  handlers_of-register_handler :
      (event e : Text) (h : H) (g : LuaEngine H)
      → handlers_of event (register_handler e h g)
        ≡ handlers_of event g ++ (if eq_text e event then h ∷ [] else [])
  unfolding register_handler
  handlers_of-register_handler event e h g = elim (Bool-cases (eq_text e event)) [
    | inl q ↦
        let same : e ≡ event = (eq_text_iff e event).0 q in
        let f =
          find-insert e event (or_empty (find e (or_empty g.events)) ++ h ∷ [])
            (or_empty g.events) in
        rw (f, q) (rw same refl)
    | inr q ↦
        let f =
          find-insert e event (or_empty (find e (or_empty g.events)) ++ h ∷ [])
            (or_empty g.events) in
        rw (f, q) (sym (append-nil _))
  ]

  run_script_lem :
      (l : List (Action H)) (event : Text) (g : LuaEngine H)
      → let (r, k) = run_script l g in
        (r ≡ no_error l)
        × (handlers_of event k ≡ handlers_of event g ++ registered event (before_error l))
        × (k.addons ≡ g.addons ++ handed_in (before_error l))
        × (k.output ≡ g.output ++ printed (before_error l))
        × (k.has_state ≡ g.has_state)
  unfolding run_script add_addon register_handler serve_request
  run_script_lem [] event g =
      (refl, sym (append-nil _), sym (append-nil _), sym (append-nil _), refl)
  run_script_lem (init_addon info ∷ l) event g =
      let (r, hs, as_, ps, c) = run_script_lem l event (add_addon info g) in
      (r, hs, as_ ∙ append_assoc g.addons (addon_of info ∷ []) (handed_in (before_error l)), ps, c)
  run_script_lem (on e h ∷ l) event g =
      let (r, hs, as_, ps, c) = run_script_lem l event (register_handler e h g) in
      (
        r,
        (hs
            ∙ (rw (handlers_of-register_handler event e h g)
                (append-if e event (handlers_of event g) h (registered event (before_error l))))),
        as_,
        ps,
        c,
      )
  run_script_lem (request q ∷ l) event g =
      let (r, hs, as_, ps, c) = run_script_lem l event (serve_request q g) in
      (r, hs, as_, ps ∙ append_assoc g.output (request_line q ∷ []) (printed (before_error l)), c)
  run_script_lem (raise_error ∷ l) event g =
      (refl, sym (append-nil _), sym (append-nil _), sym (append-nil _), refl)

  load_script-run :
      (script : Text → List (Action H)) (code : Text) (g : LuaEngine H)
      → g.has_state ≡ true
      → load_script script code g ≡ run_script (script code) g
  unfolding load_script
  load_script-run script code g h = ground arith

  module _ {W : Type 0} (order : List H → List H)
      (call : H → Option Table → Exec W (Unit {0})) where
    trigger_event-handlers :
        (event : Text) (argument : Option Table) (g : LuaEngine H) (w : W)
        → g.has_state ≡ true
        → order [] ≡ []
        → trigger_event order call event argument g w
          ≡ try_catch (call_each order call argument (order (handlers_of event g))) (pure tt) w
    unfolding trigger_event call_each
    trigger_event-handlers event argument g w h n =
        elim (Option-cases (find event (or_empty g.events))) [
          | inl f ↦ simp (h, f, n)
          | inr (l, f) ↦ simp (h, f)
        ]

    -- A script is loaded up to its first error, and the result is whether there was none; what it
    -- did before stays: its add-ons are listed after those that there were, its requests have each
    -- printed their line, and a later event calls the functions that were registered for it before and those that the script registered,
    -- in the order in which the interpreter goes through them, up to the first that throws.
    pub trigger-load :
        (script : Text → List (Action H)) (code event : Text) (argument : Option Table)
        (g : LuaEngine H) (w : W)
        → g.has_state ≡ true
        → order [] ≡ []
        → let (r, k) = load_script script code g in
          let done = before_error (script code) in
          (r ≡ no_error (script code))
          × (list_addons k ≡ g.addons ++ handed_in done)
          × (k.output ≡ g.output ++ printed done)
          × (trigger_event order call event argument k w
              ≡ try_catch
                  (call_each order call argument
                    (order (handlers_of event g ++ registered event done)))
                  (pure tt)
                  w)
    unfolding list_addons
    trigger-load script code event argument g w h n =
        let (r, hs, as_, ps, c) = run_script_lem (script code) event g in
        let t = trigger_event-handlers event argument (run_script (script code) g).1 w (c ∙ h) n in
        rw (load_script-run script code g h) (r, as_, ps, rw⁻¹ hs t)
