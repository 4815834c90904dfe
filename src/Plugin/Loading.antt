-- ===== src/Plugin/Loading.antt =====
-- The plugin in the module manager: it is loaded, and its hooks are called.
use passdoq.Prelude.{
  ◌≡◌, Bool, true, false, Option, some, List, [], ◌∷◌, ◌++◌, arith, In, is_set, inl, inr,
  Bool-cases, refl, if◌then◌else◌,
}
use passdoq.Prelude.Text.{Text, eq_text}
use passdoq.StdMap.{StdMap, find, contains_key}
use passdoq.StdMap.Laws.{find-insert_self}
use passdoq.Modules.{
  Module, ModuleManager, ModuleHandle, Ltdl, Event, unlock_called, config_called, load_module,
  load_opened, is_loaded, on_vault_unlock, on_config, hook_calls,
}
use passdoq.Plugin.{descriptor, passdoq_module_init}

In-append : {A : Type 0} (x : A) (l k : List A) → In x k → In x (l ++ k)
In-append x [] k h = h
In-append x (y ∷ l) k h = inr (In-append x l k h)

In-if : {A : Type 0} (b : Bool) (x y : A) (l : List A) → In y l → In y (if b then x ∷ l else l)
In-if true x y l h = inr h
In-if false x y l h = h

-- The hook of a module that is loaded is called.
hook_calls-find :
    (hook : Module → Option Bool) (event : Text → Event) (key : Text) (h : ModuleHandle)
    (m : StdMap ModuleHandle)
    → find key m ≡ some h
    → is_set (hook h.descriptor) ≡ true
    → In (event h.descriptor.name) (hook_calls hook event m)
unfolding hook_calls find
hook_calls-find hook event key h [] e there = absurd (ground arith)
hook_calls-find hook event key h ((j, g) ∷ m) e there = elim (Bool-cases (eq_text key j)) [
  | inl q ↦
      let same : some g ≡ some h = rw q at e in let f : g ≡ h = cc in rw f (rw there (inl refl))
  | inr q ↦
      In-if (is_set (hook g.descriptor)) (event g.descriptor.name) _ _
        (hook_calls-find hook event key h m (rw q at e) there)
]

-- Where libltdl is up, the file is that of the plugin and no module of its name is loaded, it is
-- loaded, and from then on its hooks are called when the vault is unlocked and for a setting.
load_module-descriptor :
    (l : Ltdl) (path key value : Text) (m : ModuleManager)
    → m.ltdl_initialized ≡ true
    → l.dlopen m.log path ≡ some passdoq_module_init
    → is_loaded descriptor.name m ≡ false
    → let (r, k) = load_module l path m in
      (r ≡ true)
      × (is_loaded descriptor.name k ≡ true)
      × In (unlock_called descriptor.name) (on_vault_unlock k).log
      × In (config_called descriptor.name key value) (on_config key value k).log
unfolding load_module load_opened is_loaded contains_key on_vault_unlock on_config
load_module-descriptor l path key value m up file fresh =
    let h : ModuleHandle = record { handle = path; descriptor = descriptor } in
    let found = find-insert_self descriptor.name h m.modules in
    rw (up, file, fresh)
      (
        refl,
        rw found refl,
        In-append _ _ _
            (hook_calls-find (λ x. x.on_vault_unlock) unlock_called descriptor.name h _ found refl),
        In-append _ _ _ (
            hook_calls-find (λ x. x.on_config) (λ name. config_called name key value)
              descriptor.name h _ found refl),
      )
