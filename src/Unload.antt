-- ===== src/Unload.antt =====
-- unload.c: a module that, when it is loaded, sets a module that cannot be removed back to life.
-- `modules` is the kernel's list of modules, whose head is at the address that the parameter addr
-- gives.
pub mod Last
mod Tests
use lkm_practice.Base.{
  ℕ, zero, suc, ◌+◌, Bool, true, false, Option, none, some, List, [], ◌∷◌, if◌then◌else◌,
}
use lkm_practice.Kernel.{strcmp_eq}

-- struct module, the fields that are read or written
pub record Module : Type 0 where
  pub name : List ℕ
  pub state : ℕ
  pub refcnt : ℕ

-- The loop: the index of the module that `mod` points to, from the `i`-th module on.
pub find_mod : List ℕ → Option ℕ → ℕ → List Module → Option ℕ
find_mod module_name mod_ i [] = mod_
find_mod module_name mod_ i (list_mod ∷ rest) =
    find_mod module_name (if strcmp_eq list_mod.name module_name then some i else mod_) (i + 1) rest

-- What is written to the module; `live` is MODULE_STATE_LIVE.
abbrev pub revive : ℕ → Module → Module
revive live m = record m { state = live; refcnt = 1 }

-- The module with the index `i` changed.
pub at_index : (Module → Module) → ℕ → List Module → List Module
at_index f i [] = []
at_index f zero (m ∷ rest) = f m ∷ rest
at_index f (suc i) (m ∷ rest) = m ∷ at_index f i rest

-- unload_init: the modules after it, or `none` where it writes through the null pointer.
pub init : ℕ → List ℕ → List Module → Option (List Module)
init live module_name modules = elim (find_mod module_name none 0 modules) [
  | none ↦ none
  | some i ↦ some (at_index (revive live) i modules)
]
