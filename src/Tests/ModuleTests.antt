-- ===== src/Tests/ModuleTests.antt =====
-- The theorems on plugins and on secure buffers at concrete inputs.
use passdoq.Prelude.{
  ℕ, ◌≤◌, ◌≡◌, ◌↔◌, refl, true, false, Option, none, some, List, [], ◌∷◌, ◌++◌, if◌then◌else◌,
  replicate,
}
use passdoq.Prelude.Exec.{throw, runtime_error}
use passdoq.Prelude.Text.{Text, codes, eq_text}
use passdoq.Platform.Sample.{toy}
use passdoq.Modules.{
  Module, Library, with_module, no_entry, Ltdl, Event, exited, new_manager, load_module,
  destroy_manager,
}
use passdoq.Modules.Ending.{destroy_manager-closes}
use passdoq.Modules.Handles.{Store, empty_store, construct, move_construct, move_assign, destroy}
use passdoq.Modules.Handles.Laws.{
  Steps, start, constructed, destroyed, moved, assigned, count, closes_handle, closed-once,
}
use passdoq.Modules.Laws.{Step, load, unload, run_steps}
use passdoq.Modules.Counts.{opens, closes}
use passdoq.Memory.{TimeLimitedBuffer, lock_buffer, read_data, destroy_buffer}
use passdoq.Memory.Laws.{Use, write, refresh, lock, use_all, lock_buffer-final}

abbrev plugin : Module
plugin = record {
  name = codes "p";
  init = some true;
  deinit = true;
  on_vault_unlock = none;
  on_vault_lock = none;
  on_config = none;
}

-- The plugin at `a` and at `b`, and a file without an entry point elsewhere.
abbrev dlopen_of : List Event → Text → Option Library
dlopen_of log q =
    if eq_text q (codes "a")
    then some (with_module plugin)
    else if eq_text q (codes "b")
    then some (with_module plugin)
    else some no_entry

abbrev ltdl : Ltdl
ltdl = record { dlinit = true; dlopen = dlopen_of }

-- The second load finds the name taken, the third no entry point.
abbrev steps : List Step
steps =
    load (codes "a")
    ∷ load (codes "b")
    ∷ load (codes "c")
    ∷ unload (codes "p")
    ∷ load (codes "b")
    ∷ []

destroy_manager-closes_example :
    let m = destroy_manager (run_steps ltdl steps (new_manager ltdl)) in
    (m.modules ≡ [])
    × ((before : List Event) × (m.log ≡ before ++ exited ∷ [])
        × (opens (codes "b") before ≡ closes (codes "b") before))
    × (load_module ltdl (codes "b") m ≡ (false, m))
destroy_manager-closes_example = destroy_manager-closes ltdl steps (codes "b") refl

-- A handle of library 7 is moved from the object 0 to 1, and assigned to 2, which is destroyed.
abbrev moved_store : Store
moved_store =
    destroy 2
      (move_assign 2 1 (move_construct 1 0 (construct 0 (some 7) (some plugin) empty_store)))

moved-Steps : Steps (7 ∷ []) moved_store
unfolding construct move_construct
moved-Steps = destroyed _ _ 2 (
    assigned _ _ 2 1
      (moved _ _ 1 0 (constructed [] empty_store 0 7 (some plugin) start refl refl) refl))

closed-once_example :
    (closes_handle 7 moved_store.calls ≤ 1)
    × (count 7 (7 ∷ []) ≡ 0 → closes_handle 7 moved_store.calls ≡ 0)
    × (count 7 (7 ∷ []) ≡ 1
        → (closes_handle 7 moved_store.calls ≡ 0)
          ↔ ((i : ℕ) × ((moved_store.slots i).handle ≡ some 7)))
    × ((i j : ℕ)
        → (moved_store.slots i).handle ≡ some 7
        → (moved_store.slots j).handle ≡ some 7
        → i ≡ j)
closed-once_example = closed-once (7 ∷ []) moved_store 7 moved-Steps

abbrev secret_buffer : TimeLimitedBuffer
secret_buffer = record { buffer = codes "key"; expiry = 10; timeout = 5; is_locked = false }

abbrev uses : List Use
uses = refresh 3 ∷ write 4 (codes "x") ∷ lock ∷ refresh 5 ∷ []

lock_buffer-final_example :
    let c = use_all uses (lock_buffer secret_buffer) in
    (c.buffer ≡ replicate 3 0)
    × (read_data 6 c ≡ throw (runtime_error (codes "Buffer is locked or expired")))
    × (destroy_buffer secret_buffer ≡ replicate 3 0)
lock_buffer-final_example = lock_buffer-final uses 6 secret_buffer
