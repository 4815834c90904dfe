-- ===== src/Lua.antt =====
-- src/lua.cpp and src/lua.hpp: the engine for scripts of add-ons. The Lua interpreter behind sol2 is
-- a parameter: a script is the list of the calls of the interface `lpassdoq` that it makes, and a
-- function that is registered for an event is a value with a call that may throw.
pub mod Laws
use passdoq.Prelude.{
  ◌+◌, Bool, true, false, not, ◌&&◌, Option, none, some, List, [], ◌∷◌, ◌++◌, if◌then◌else◌, map,
}
use passdoq.Prelude.Exec.{library_error, Exec, pure, raise, try_catch, ◌>>=◌, ◌>>◌}
use passdoq.Prelude.Text.{Text, Bytes, codes}
use passdoq.StdMap.{StdMap, find, insert}
use passdoq.Platform.{Platform, World}
use passdoq.Crypto.{random_bytes}
use passdoq.Runcom.{ℤ, pos, negsuc}
use passdoq.Vault.Time.{decimal}
use passdoq.Vault.{Entry, Session, is_unlocked}
use passdoq.Vault.Entries

-- A table of texts, in the order in which its fields were set.
abbrev pub Table : Type 0
Table = List (Text × Text)

pub record AddonInfo : Type 0 where
  pub name : Text
  pub author : Text
  pub maintainer : Text
  pub version : Text

-- The engine; `H` are the functions of the interpreter. Without a state of the interpreter
-- (`lua_` is null) there are no events.
pub record LuaEngine (H : Type 0) : Type 0 where
  pub has_state : Bool
  -- the table `_passdoq_events`; `none` is nil
  pub events : Option (StdMap (List H))
  pub addons : List AddonInfo
  -- whether a vault was bound
  pub bound : Bool
  -- the lines on the standard output
  pub output : List Text

-- `print`, `clipboard_set`, `clipboard_clear` and `defer` of the interface of an add-on.
pub data Request (H : Type 0) : Type 0 where
  print_text clipboard_set : Text → Request H
  clipboard_clear : Request H
  defer : ℤ → H → Request H

-- What a script does with the interface: it hands in its name and the like, it registers a
-- function for an event, it makes a request, or it raises an error.
pub data Action (H : Type 0) : Type 0 where
  init_addon : StdMap Text → Action H
  on : Text → H → Action H
  request : Request H → Action H
  raise_error : Action H

abbrev value_or : Text → Option Text → Text
value_or d none = d
value_or d (some t) = t

-- `info.get_or`
abbrev get_or : Text → Text → StdMap Text → Text
get_or key d info = value_or d (find key info)

unfoldable pub addon_of : StdMap Text → AddonInfo
addon_of info = record {
  name = get_or (codes "name") (codes "Unknown") info;
  author = get_or (codes "author") (codes "Unknown") info;
  maintainer = get_or (codes "maintainer") (codes "Unknown") info;
  version = get_or (codes "version") (codes "1.0.0") info;
}

abbrev or_empty : {A : Type 0} → Option (List A) → List A
or_empty none = []
or_empty (some l) = l

-- `std::cout << seconds`
unfoldable pub print_int : ℤ → Text
print_int (pos n) = decimal n
print_int (negsuc n) = codes "-" ++ decimal (n + 1)

module _ {H : Type 0} where
  abbrev pub new_engine : LuaEngine H
  new_engine = record { has_state = false; events = none; addons = []; bound = false; output = [] }

  -- `LuaEngine::init`: whether the state can be made, and whether the libraries and the bindings
  -- can be set up in it. A state that there was is destroyed, with its table of events.
  unfoldable pub init : Bool → Bool → LuaEngine H → Bool × LuaEngine H
  init made set_up g =
      if made then (set_up, record g { has_state = true; events = none }) else (false, g)

  -- `api["on"]`
  unfoldable pub register_handler : Text → H → LuaEngine H → LuaEngine H
  register_handler event h g =
      let events = or_empty g.events in
      record g { events = some (insert event (or_empty (find event events) ++ h ∷ []) events) }

  unfoldable pub add_addon : StdMap Text → LuaEngine H → LuaEngine H
  unfolding addon_of
  add_addon info g = record g { addons = g.addons ++ addon_of info ∷ [] }

  -- `bind_vault`, with a null pointer or a vault.
  unfoldable pub bind_vault : Bool → LuaEngine H → LuaEngine H
  bind_vault given g = record g { bound = given }

  unfoldable pub list_addons : LuaEngine H → List AddonInfo
  list_addons g = g.addons

  -- The line that a request prints, which is all that it does.
  unfoldable pub request_line : Request H → Text
  unfolding print_int
  request_line (print_text message) = codes "[Passdoq] " ++ message
  request_line (clipboard_set value) = codes "[Clipboard] Set value"
  request_line clipboard_clear = codes "[Clipboard] Cleared"
  request_line (defer seconds callback) =
      codes "[Defer] Scheduled callback for " ++ print_int seconds ++ codes " seconds"

  unfoldable pub serve_request : Request H → LuaEngine H → LuaEngine H
  unfolding request_line
  serve_request r g = record g { output = g.output ++ request_line r ∷ [] }

  -- A script runs up to its first error.
  unfoldable pub run_script : List (Action H) → LuaEngine H → Bool × LuaEngine H
  unfolding register_handler add_addon serve_request
  run_script [] g = (true, g)
  run_script (init_addon info ∷ l) g = run_script l (add_addon info g)
  run_script (on event h ∷ l) g = run_script l (register_handler event h g)
  run_script (request r ∷ l) g = run_script l (serve_request r g)
  run_script (raise_error ∷ l) g = (false, g)

  -- `load_file` and `load_string`; `script` is what the interpreter runs for a path or a code.
  unfoldable pub load_script : (Text → List (Action H)) → Text → LuaEngine H → Bool × LuaEngine H
  unfolding run_script
  load_script script code g = if not g.has_state then (false, g) else run_script (script code) g

  abbrev call_valid : Option (List (Action H)) → LuaEngine H → Bool × LuaEngine H
  call_valid none g = (false, g)
  call_valid (some body) g = run_script body g

  -- `call_function`; `functions` are the global functions of the state.
  unfoldable pub call_function :
      (Text → Option (List (Action H))) → Text → LuaEngine H → Bool × LuaEngine H
  unfolding run_script
  call_function functions name g =
      if not g.has_state then (false, g) else call_valid (functions name) g

  -- Events: `order` is the order in which the interpreter goes through a table, and `call` the call
  -- of a function with its argument, in a world `W`.
  module _ {W : Type 0} (order : List H → List H)
      (call : H → Option Table → Exec W (Unit {0})) where
    unfoldable pub call_each : Option Table → List H → Exec W (Unit {0})
    call_each argument [] = pure tt
    call_each argument (h ∷ l) = do call h argument; call_each argument l

    abbrev call_found : Option Table → Option (List H) → Exec W (Unit {0})
    call_found argument none = pure tt
    call_found argument (some handlers) = call_each argument (order handlers)

    -- Both `trigger_event`s; an error of a function ends the loop.
    unfoldable pub trigger_event : Text → Option Table → LuaEngine H → Exec W (Unit {0})
    unfolding call_each
    trigger_event event argument g w =
        if not g.has_state
        then pure tt w
        else try_catch (call_found argument (find event (or_empty g.events))) (pure tt) w

-- The table of an entry, in a list and as the argument of an event.
unfoldable pub entry_table : Entry → Table
entry_table e = (codes "id", e.id) ∷ (codes "name", e.name) ∷ (codes "username", e.username) ∷ []

-- The table with the secret.
unfoldable pub secret_table : Entry → Table
unfolding entry_table
secret_table e = entry_table e ++ (codes "value", e.secret) ∷ []

module _ ⦃p : Platform⦄ where
  -- `lpassdoq.random_bytes`: a negative size becomes one that no vector can have.
  unfoldable pub random_text : ℤ → Exec World Text
  random_text (pos n) = random_bytes n
  random_text (negsuc n) = raise library_error

  -- `!vault_ || !vault_->is_unlocked()`, negated.
  abbrev can_read : Bool → Session → Bool
  can_read bound s = bound && is_unlocked s.vault

  -- `lpassdoq.get_entry`; `bound` tells whether a vault was bound.
  unfoldable pub get_entry : Bool → Text → Exec Session Table
  unfolding is_unlocked secret_table
  get_entry bound id s =
      if not (can_read bound s)
      then pure [] s
      else try_catch (do entry ← Entries.get_entry id; pure (secret_table entry)) (pure []) s

  -- `lpassdoq.list_entries`
  unfoldable pub list_entries : Bool → Exec Session (List Table)
  unfolding is_unlocked entry_table
  list_entries bound s =
      if not (can_read bound s)
      then pure [] s
      else try_catch (do entries ← Entries.list_entries; pure (map entry_table entries)) (pure []) s
