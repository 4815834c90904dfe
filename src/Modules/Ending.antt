-- ===== src/Modules/Ending.antt =====
-- The destructor of the manager: no library is left open when libltdl is left, and nothing can be
-- loaded by this manager afterwards.
use passdoq.Prelude.{◌≡◌, refl, ◌∙◌, true, false, List, [], ◌∷◌, ◌++◌, arith}
use passdoq.Prelude.Text.{Text}
use passdoq.Modules.{
  Ltdl, Event, exited, ModuleManager, new_manager, load_opened, load_module, unload_module,
  unload_all, destroy_manager,
}
use passdoq.Modules.Counts.{opens, closes}
use passdoq.Modules.Laws.{Step, load, unload, clear, perform_step, run_steps, unload_all-closes}

-- Only the destructor leaves libltdl.
perform_step-initialized :
    (l : Ltdl) (s : Step) (m : ModuleManager)
    → (perform_step l s m).ltdl_initialized ≡ m.ltdl_initialized
unfolding perform_step load_module load_opened unload_module unload_all
perform_step-initialized l (load path) m = ground arith
perform_step-initialized l (unload name) m = ground arith
perform_step-initialized l clear m = refl

run_steps-initialized :
    (l : Ltdl) (steps : List Step) (m : ModuleManager)
    → (run_steps l steps m).ltdl_initialized ≡ m.ltdl_initialized
unfolding run_steps
run_steps-initialized l [] m = refl
run_steps-initialized l (s ∷ ss) m =
    run_steps-initialized l ss (perform_step l s m) ∙ perform_step-initialized l s m

load-uninitialized :
    (l : Ltdl) (path : Text) (m : ModuleManager)
    → m.ltdl_initialized ≡ false
    → load_module l path m ≡ (false, m)
unfolding load_module
load-uninitialized l path m e = ground arith

-- When a manager that has initialised libltdl is destroyed, after any loads and unloads, leaving
-- libltdl is the last call, and before it each path was closed as often as it was opened; no module
-- is left, and the manager can load nothing from then on.
pub destroy_manager-closes :
    (l : Ltdl) (steps : List Step) (path : Text)
    → l.dlinit ≡ true
    → let m = destroy_manager (run_steps l steps (new_manager l)) in
      (m.modules ≡ [])
      × ((before : List Event) × (m.log ≡ before ++ exited ∷ [])
          × (opens path before ≡ closes path before))
      × (load_module l path m ≡ (false, m))
unfolding destroy_manager unload_all new_manager
destroy_manager-closes l steps path init =
    let m = run_steps l steps (new_manager l) in
    let ready : m.ltdl_initialized ≡ true = run_steps-initialized l steps (new_manager l) ∙ init in
    let (none_left, closed_all) = unload_all-closes l steps path in
    (
      rw ready refl,
      ((unload_all m).log, rw ready refl, closed_all),
      load-uninitialized l path (destroy_manager m) (rw ready refl),
    )
