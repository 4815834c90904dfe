-- ===== src/Modules/Laws.antt =====
-- Every library that is opened is closed again: at once where loading it fails, or with its module.
use passdoq.Prelude.{
  ◌+◌, ◌≡◌, refl, Bool, true, false, not, Option, none, some, List, [], ◌∷◌, ◌++◌, if◌then◌else◌,
  is_set, arith,
}
use passdoq.Prelude.Text.{Text, eq_text}
use passdoq.StdMap.{find, contains_key}
use passdoq.StdMap.Laws.{IsSorted, insert-IsSorted, erase-IsSorted}
use passdoq.Modules.{
  Module, Event, opened, closed, init_called, Library, no_entry, no_module, with_module, Ltdl,
  ModuleHandle, ModuleManager, new_manager, destroy, is_loaded, close_and_fail, store, run_init,
  load_found, unload_found, load_opened, load_module, unload_module, destroy_all, unload_all,
}
use passdoq.Modules.Counts.{
  opens, closes, held, opens-append, closes-append, held-insert, held-erase, destroy_lem,
  destroy_all_lem,
}

-- Each path was opened as often as it was closed, apart from the modules that are held by a handle
-- for it; and the modules are in order.
pub record IsBalanced (m : ModuleManager) : Type 0 where
  pub sorted : IsSorted m.modules
  pub balanced : (path : Text) → opens path m.log ≡ closes path m.log + held path m.modules

-- A load, an unload, and the unloading of all.
pub data Step : Type 0 where
  load unload : Text → Step
  clear : Step

unfoldable pub perform_step : Ltdl → Step → ModuleManager → ModuleManager
perform_step l (load path) m = (load_module l path m).1
perform_step l (unload name) m = (unload_module name m).1
perform_step l clear m = unload_all m

unfoldable pub run_steps : Ltdl → List Step → ModuleManager → ModuleManager
unfolding perform_step
run_steps l [] m = m
run_steps l (s ∷ ss) m = run_steps l ss (perform_step l s m)

-- Balanced but for one handle for `path` that is open besides.
record IsPending (path : Text) (m : ModuleManager) : Type 0 where
  sorted : IsSorted m.modules
  balanced :
      (q : Text)
      → opens q m.log ≡ closes q m.log + held q m.modules + (if eq_text q path then 1 else 0)

abbrev with_event : Event → ModuleManager → ModuleManager
with_event e m = record m { log = m.log ++ e ∷ [] }

opened-IsPending :
    (path : Text) (m : ModuleManager) → IsBalanced m → IsPending path (with_event (opened path) m)
opened-IsPending path m b = record {
  sorted = b.sorted;
  balanced = λ q. omega (
    arith,
    b.balanced q,
    opens-append q m.log (opened path ∷ []),
    closes-append q m.log (opened path ∷ []),
  );
}

closed-IsBalanced :
    (path : Text) (m : ModuleManager) → IsPending path m → IsBalanced (with_event (closed path) m)
closed-IsBalanced path m b = record {
  sorted = b.sorted;
  balanced = λ q. omega (
    arith,
    b.balanced q,
    opens-append q m.log (closed path ∷ []),
    closes-append q m.log (closed path ∷ []),
  );
}

init-IsPending :
    (path name : Text) (m : ModuleManager)
    → IsPending path m
    → IsPending path (with_event (init_called name) m)
init-IsPending path name m b = record {
  sorted = b.sorted;
  balanced = λ q. omega (
    arith,
    b.balanced q,
    opens-append q m.log (init_called name ∷ []),
    closes-append q m.log (init_called name ∷ []),
  );
}

stored-IsBalanced :
    (path : Text) (md : Module) (m : ModuleManager)
    → IsPending path m
    → find md.name m.modules ≡ none
    → IsBalanced (store path md m).1
stored-IsBalanced path md m b f =
    let h : ModuleHandle = record { handle = path; descriptor = md } in
    record {
      sorted = insert-IsSorted md.name h m.modules b.sorted;
      balanced = λ q. omega (arith, b.balanced q, held-insert q md.name h m.modules f);
    }

run_init-IsBalanced :
    (path : Text) (md : Module) (hook : Option Bool) (m : ModuleManager)
    → IsPending path m
    → find md.name m.modules ≡ none
    → IsBalanced (run_init path md hook m).1
run_init-IsBalanced path md none m b f = stored-IsBalanced path md m b f
run_init-IsBalanced path md (some true) m b f =
    stored-IsBalanced path md (with_event (init_called md.name) m) (init-IsPending path md.name m b)
      f
run_init-IsBalanced path md (some false) m b f =
    closed-IsBalanced path (with_event (init_called md.name) m) (init-IsPending path md.name m b)

either-IsBalanced :
    (c : Bool) (x y : Bool × ModuleManager)
    → (c ≡ true → IsBalanced x.1)
    → (c ≡ false → IsBalanced y.1)
    → IsBalanced (if c then x else y).1
either-IsBalanced true x y h k = h refl
either-IsBalanced false x y h k = k refl

load_opened-IsBalanced :
    (path : Text) (lib : Library) (m : ModuleManager)
    → IsPending path m
    → IsBalanced (load_opened path lib m).1
unfolding load_opened is_loaded contains_key
load_opened-IsBalanced path no_entry m b = closed-IsBalanced path m b
load_opened-IsBalanced path no_module m b = closed-IsBalanced path m b
load_opened-IsBalanced path (with_module md) m b =
    either-IsBalanced (is_set (find md.name m.modules)) (close_and_fail path m)
      (run_init path md md.init m) (λ e. closed-IsBalanced path m b)
      (λ e. run_init-IsBalanced path md md.init m b (ground arith))

load_found-IsBalanced :
    (path : Text) (o : Option Library) (m : ModuleManager)
    → IsBalanced m
    → IsBalanced (load_found path o m).1
load_found-IsBalanced path none m b = b
load_found-IsBalanced path (some lib) m b =
    load_opened-IsBalanced path lib (with_event (opened path) m) (opened-IsPending path m b)

load_module-IsBalanced :
    (l : Ltdl) (path : Text) (m : ModuleManager)
    → IsBalanced m
    → IsBalanced (load_module l path m).1
unfolding load_module
load_module-IsBalanced l path m b =
    either-IsBalanced (not m.ltdl_initialized) (false, m) (load_found path (l.dlopen m.log path) m)
      (λ e. b) (λ e. load_found-IsBalanced path (l.dlopen m.log path) m b)

unload_found-IsBalanced :
    (name : Text) (o : Option ModuleHandle) (m : ModuleManager)
    → IsBalanced m
    → find name m.modules ≡ o
    → IsBalanced (unload_found name o m).1
unload_found-IsBalanced name none m b f = b
unload_found-IsBalanced name (some h) m b f = record {
  sorted = erase-IsSorted name m.modules b.sorted;
  balanced = λ q. omega (
    arith,
    b.balanced q,
    opens-append q m.log (destroy h),
    closes-append q m.log (destroy h),
    (destroy_lem q h).0,
    (destroy_lem q h).1,
    held-erase q name h m.modules b.sorted f,
  );
}

unload_module-IsBalanced :
    (name : Text) (m : ModuleManager) → IsBalanced m → IsBalanced (unload_module name m).1
unfolding unload_module
unload_module-IsBalanced name m b = unload_found-IsBalanced name (find name m.modules) m b refl

unload_all-IsBalanced : (m : ModuleManager) → IsBalanced m → IsBalanced (unload_all m)
unfolding unload_all
unload_all-IsBalanced m b = record {
  sorted = tt;
  balanced = λ q. omega (
    arith,
    b.balanced q,
    opens-append q m.log (destroy_all m.modules),
    closes-append q m.log (destroy_all m.modules),
    (destroy_all_lem q m.modules).0,
    (destroy_all_lem q m.modules).1,
  );
}

run_steps-IsBalanced :
    (l : Ltdl) (steps : List Step) (m : ModuleManager)
    → IsBalanced m
    → IsBalanced (run_steps l steps m)
unfolding run_steps
run_steps-IsBalanced l [] m b = b
run_steps-IsBalanced l (load path ∷ ss) m b =
    run_steps-IsBalanced l ss (load_module l path m).1 (load_module-IsBalanced l path m b)
run_steps-IsBalanced l (unload name ∷ ss) m b =
    run_steps-IsBalanced l ss (unload_module name m).1 (unload_module-IsBalanced name m b)
run_steps-IsBalanced l (clear ∷ ss) m b =
    run_steps-IsBalanced l ss (unload_all m) (unload_all-IsBalanced m b)

-- After any loads and unloads of a new manager, each path was opened as often as it was closed,
-- apart from the loaded modules that are held by a handle for it, whatever the libraries, their
-- entry points and their hooks do; and the modules are in the order of their names.
run_steps-balance :
    (l : Ltdl) (steps : List Step) (path : Text)
    → let m = run_steps l steps (new_manager l) in
      IsSorted m.modules × (opens path m.log ≡ closes path m.log + held path m.modules)
unfolding new_manager
run_steps-balance l steps path =
    let b =
      run_steps-IsBalanced l steps (new_manager l) (record { sorted = tt; balanced = λ q. refl }) in
    (b.sorted, b.balanced path)

-- When at last all modules are unloaded, as the destructor of the manager does, no handle is left
-- open: each path was closed as often as it was opened.
pub unload_all-closes :
    (l : Ltdl) (steps : List Step) (path : Text)
    → let m = unload_all (run_steps l steps (new_manager l)) in
      (m.modules ≡ []) × (opens path m.log ≡ closes path m.log)
unfolding new_manager unload_all
unload_all-closes l steps path =
    let b = unload_all-IsBalanced (run_steps l steps (new_manager l)) (
      run_steps-IsBalanced l steps (new_manager l)
        (record { sorted = tt; balanced = λ q. refl })) in
    (refl, omega (arith, b.balanced path))
