-- ===== src/Modules/Handles.antt =====
-- `ModuleHandle` of src/modules.cpp as an object that owns an open library: construction, the two
-- moves and destruction, with the calls that they make of the plugin and of libltdl.
pub mod Laws
use passdoq.Prelude.{
  at_number, ℕ, ◌==◌, Bool, true, false, Option, none, some, List, [], ◌∷◌, ◌++◌, if◌then◌else◌,
}
use passdoq.Prelude.Text.{Text}
use passdoq.Modules.{Module}

-- The fields of an object. The libraries are numbered as they are opened; `none` is a null pointer.
pub record Slot : Type 0 where
  pub handle : Option ℕ
  pub descriptor : Option Module

abbrev pub empty_slot : Slot
empty_slot = record { handle = none; descriptor = none }

-- `deinit` with the name of the module, and `lt_dlclose`.
pub data Call : Type 0 where
  deinit_called : Text → Call
  dlclose : ℕ → Call

pub record Store : Type 0 where
  pub slots : ℕ → Slot
  pub calls : List Call

abbrev pub empty_store : Store
empty_store = record { slots = λ i. empty_slot; calls = [] }

abbrev pub set_slot : ℕ → Slot → Store → Store
set_slot i x s = record s { slots = at_number i x s.slots }

-- `ModuleHandle::ModuleHandle`, of the object `i`.
unfoldable pub construct : ℕ → Option ℕ → Option Module → Store → Store
construct i handle descriptor s = set_slot i (record { handle = handle; descriptor = descriptor }) s

-- `if (module_ && module_->deinit) module_->deinit(nullptr)`
abbrev pub deinit_calls : Option Module → List Call
deinit_calls none = []
deinit_calls (some m) = if m.deinit then deinit_called m.name ∷ [] else []

-- The calls of the destructor, and of a move assignment for the object that is assigned.
abbrev pub close_calls : Option ℕ → Option Module → List Call
close_calls none descriptor = []
close_calls (some h) descriptor = deinit_calls descriptor ++ dlclose h ∷ []

abbrev with_closed : ℕ → Store → Store
with_closed i s =
    let x = s.slots i in record s { calls = s.calls ++ close_calls x.handle x.descriptor }

-- `ModuleHandle::~ModuleHandle`; the object is gone afterwards.
unfoldable pub destroy : ℕ → Store → Store
destroy i s = set_slot i empty_slot (with_closed i s)

-- `ModuleHandle::ModuleHandle(ModuleHandle&&)`: the object `i` from `j`.
unfoldable pub move_construct : ℕ → ℕ → Store → Store
move_construct i j s = set_slot j empty_slot (set_slot i (s.slots j) s)

-- `ModuleHandle::operator=(ModuleHandle&&)`: the object `i` from `j`.
unfoldable pub move_assign : ℕ → ℕ → Store → Store
unfolding move_construct
move_assign i j s = if i == j then s else move_construct i j (with_closed i s)
