-- ===== src/Modules.antt =====
-- src/modules.cpp and src/modules.hpp: the plugins that are loaded, and the calls of their hooks.
-- libltdl is a parameter: what `lt_dlopen` and the entry point of a file give.
pub mod Counts
pub mod Laws
pub mod Ending
pub mod Api
pub mod Handles
use passdoq.Prelude.{
  Bool, true, false, not, Option, none, some, List, [], ◌∷◌, ◌++◌, if◌then◌else◌, is_set,
}
use passdoq.Prelude.Exec.{Exec, pure, ◌>>=◌, ◌>>◌}
use passdoq.Prelude.Text.{Text, Bytes}
use passdoq.StdMap.{StdMap, find, contains_key, insert, erase, keys}
use passdoq.Platform.{Platform}
use passdoq.Vault.{Session}
use passdoq.Vault.Keys

-- A hook that is there returns whether it succeeds; `deinit` has no result.
pub record Module : Type 0 where
  pub name : Text
  pub init : Option Bool
  pub deinit : Bool
  pub on_vault_unlock : Option Bool
  pub on_vault_lock : Option Bool
  pub on_config : Option Bool

-- The calls into libltdl and into the plugins; `exited` is `lt_dlexit`.
pub data Event : Type 0 where
  opened closed : Text → Event
  init_called deinit_called unlock_called lock_called : Text → Event
  config_called : Text → Text → Text → Event
  exited : Event

-- What `lt_dlopen` gives for a path, after the calls so far: `none` where it fails, and else what
-- the entry point of the file gives. `no_entry` is a file without one, `no_module` a null pointer.
pub data Library : Type 0 where
  no_entry no_module : Library
  with_module : Module → Library

pub record Ltdl : Type 0 where
  pub dlinit : Bool
  pub dlopen : List Event → Text → Option Library

-- `handle_` is kept by the path that it was opened from.
pub record ModuleHandle : Type 0 where
  pub handle : Text
  pub descriptor : Module

pub record ModuleManager : Type 0 where
  pub ltdl_initialized : Bool
  pub modules : StdMap ModuleHandle
  pub log : List Event

abbrev log_event : Event → ModuleManager → ModuleManager
log_event e m = record m { log = m.log ++ e ∷ [] }

-- `ModuleManager::ModuleManager` and `init_ltdl`
unfoldable pub new_manager : Ltdl → ModuleManager
new_manager l = record { ltdl_initialized = l.dlinit; modules = []; log = [] }

-- `ModuleHandle::~ModuleHandle`
unfoldable pub destroy : ModuleHandle → List Event
destroy h =
    if h.descriptor.deinit
    then deinit_called h.descriptor.name ∷ closed h.handle ∷ []
    else closed h.handle ∷ []

unfoldable pub is_loaded : Text → ModuleManager → Bool
unfolding contains_key
is_loaded name m = contains_key name m.modules

unfoldable pub list_modules : ModuleManager → List Text
list_modules m = keys m.modules

abbrev module_of : Option ModuleHandle → Option Module
module_of none = none
module_of (some h) = some h.descriptor

unfoldable pub get_module : Text → ModuleManager → Option Module
get_module name m = module_of (find name m.modules)

-- `lt_dlclose(handle); return false;`
abbrev pub close_and_fail : Text → ModuleManager → Bool × ModuleManager
close_and_fail path m = (false, log_event (closed path) m)

abbrev pub store : Text → Module → ModuleManager → Bool × ModuleManager
store path md m = (
  true,
  record m { modules = insert md.name (record { handle = path; descriptor = md }) m.modules },
)

-- From the call of the `init` hook on.
abbrev pub run_init : Text → Module → Option Bool → ModuleManager → Bool × ModuleManager
run_init path md none m = store path md m
run_init path md (some true) m = store path md (log_event (init_called md.name) m)
run_init path md (some false) m = close_and_fail path (log_event (init_called md.name) m)

-- From the lookup of the entry point on.
unfoldable pub load_opened : Text → Library → ModuleManager → Bool × ModuleManager
unfolding is_loaded
load_opened path no_entry m = close_and_fail path m
load_opened path no_module m = close_and_fail path m
load_opened path (with_module md) m =
    if is_loaded md.name m then close_and_fail path m else run_init path md md.init m

abbrev pub load_found : Text → Option Library → ModuleManager → Bool × ModuleManager
load_found path none m = (false, m)
load_found path (some l) m = load_opened path l (log_event (opened path) m)

unfoldable pub load_module : Ltdl → Text → ModuleManager → Bool × ModuleManager
unfolding load_opened
load_module l path m =
    if not m.ltdl_initialized then (false, m) else load_found path (l.dlopen m.log path) m

abbrev pub unload_found : Text → Option ModuleHandle → ModuleManager → Bool × ModuleManager
unload_found name none m = (false, m)
unload_found name (some h) m =
    (true, record m { modules = erase name m.modules; log = m.log ++ destroy h })

unfoldable pub unload_module : Text → ModuleManager → Bool × ModuleManager
unfolding destroy
unload_module name m = unload_found name (find name m.modules) m

-- The handles are destroyed in the order of the names; the standard leaves it open.
unfoldable pub destroy_all : StdMap ModuleHandle → List Event
unfolding destroy
destroy_all [] = []
destroy_all ((name, h) ∷ m) = destroy h ++ destroy_all m

unfoldable pub unload_all : ModuleManager → ModuleManager
unfolding destroy_all
unload_all m = record m { modules = []; log = m.log ++ destroy_all m.modules }

unfoldable pub cleanup_ltdl : ModuleManager → ModuleManager
cleanup_ltdl m =
    if m.ltdl_initialized
    then record m { ltdl_initialized = false; log = m.log ++ exited ∷ [] }
    else m

-- `ModuleManager::~ModuleManager`
unfoldable pub destroy_manager : ModuleManager → ModuleManager
unfolding unload_all cleanup_ltdl
destroy_manager m = cleanup_ltdl (unload_all m)

-- The loops over the modules that have a hook.
unfoldable pub hook_calls :
    (Module → Option Bool) → (Text → Event) → StdMap ModuleHandle → List Event
hook_calls hook event [] = []
hook_calls hook event ((name, h) ∷ m) =
    let rest = hook_calls hook event m in
    if is_set (hook h.descriptor) then event h.descriptor.name ∷ rest else rest

unfoldable pub on_vault_unlock : ModuleManager → ModuleManager
unfolding hook_calls
on_vault_unlock m = record m {
  log = m.log ++ hook_calls (λ x. x.on_vault_unlock) unlock_called m.modules;
}

unfoldable pub on_vault_lock : ModuleManager → ModuleManager
unfolding hook_calls
on_vault_lock m = record m {
  log = m.log ++ hook_calls (λ x. x.on_vault_lock) lock_called m.modules;
}

unfoldable pub on_config : Text → Text → ModuleManager → ModuleManager
unfolding hook_calls
on_config key value m = record m {
  log = m.log ++ hook_calls (λ x. x.on_config) (λ name. config_called name key value) m.modules;
}

-- `passdoq_vault_rekey` with a context, or with a null pointer as the context or as its vault: true
-- is the result 0, false the result -1.
unfoldable pub vault_rekey : ⦃p : Platform⦄ → Bool → Bool → Bytes → Exec Session Bool
vault_rekey has_ctx has_vault new_key s =
    if not has_ctx
    then pure false s
    else if not has_vault
    then pure false s
    else Keys.rekey new_key s
