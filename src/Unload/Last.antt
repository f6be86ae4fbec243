-- ===== src/Unload/Last.antt =====
-- unload.c: which module is set back to life.
use lkm_practice.Base.{
  ℕ, ◌+◌, ◌≡◌, refl, ap, ◌∙◌, true, false, Option, none, some, List, [], ◌∷◌, ◌++◌, if◌then◌else◌,
  arith, ◌⊎◌, inl, inr, length, Bool-cases,
}
use lkm_practice.Kernel.{strcmp_eq}
use lkm_practice.Unload.{Module, find_mod, revive, at_index, init}

-- No module of the list has the name.
pub data Absent (name : List ℕ) : List Module → Type 0 where
  nobody : Absent name []
  other :
      {m : Module} {rest : List Module}
      → strcmp_eq m.name name ≡ false
      → Absent name rest
      → Absent name (m ∷ rest)

-- The list as what is before the last module with the name, that module, and what is behind it.
pub record Split (name : List ℕ) (modules : List Module) : Type 0 where
  pub before : List Module
  pub last : Module
  pub behind : List Module
  pub whole : modules ≡ before ++ (last ∷ behind)
  pub named : strcmp_eq last.name name ≡ true
  pub later : Absent name behind

find_mod-Absent :
    (name : List ℕ) (found : Option ℕ) (i : ℕ) {modules : List Module}
    → Absent name modules
    → find_mod name found i modules ≡ found
unfolding find_mod
find_mod-Absent name found i nobody = refl
find_mod-Absent name found i (other {rest = rest} differs absent) =
    rw (find_mod, differs) (find_mod-Absent name found (i + 1) absent)

find_mod-Split :
    (name : List ℕ) (found : Option ℕ) (i : ℕ) (before : List Module) (last : Module)
    (behind : List Module)
    → strcmp_eq last.name name ≡ true
    → Absent name behind
    → find_mod name found i (before ++ (last ∷ behind)) ≡ some (i + length before)
unfolding find_mod
find_mod-Split name found i [] last behind named later =
    rw (find_mod, named) (find_mod-Absent name (some i) (i + 1) later ∙ ap some (omega arith))
find_mod-Split name found i (m ∷ before) last behind named later =
    find_mod-Split name (if strcmp_eq m.name name then some i else found) (i + 1) before last behind
      named later
    ∙ ap some (omega arith)

find_last : (name : List ℕ) (modules : List Module) → Absent name modules ⊎ Split name modules
find_last name [] = inl nobody
find_last name (m ∷ rest) = elim (find_last name rest) [
  | inr s ↦ inr (record {
    before = m ∷ s.before;
    last = s.last;
    behind = s.behind;
    whole = ap (λ r. m ∷ r) s.whole;
    named = s.named;
    later = s.later;
  })
  | inl absent ↦ elim (Bool-cases (strcmp_eq m.name name)) [
    | inl same ↦ inr (record {
      before = [];
      last = m;
      behind = rest;
      whole = refl;
      named = same;
      later = absent;
    })
    | inr differs ↦ inl (other differs absent)
  ]
]

at_index-append :
    (f : Module → Module) (before : List Module) (last : Module) (behind : List Module)
    → at_index f (length before) (before ++ (last ∷ behind)) ≡ before ++ (f last ∷ behind)
unfolding at_index
at_index-append f [] last behind = refl
at_index-append f (m ∷ before) last behind = ap (λ r. m ∷ r) (at_index-append f before last behind)

-- For every list of modules: either none has the name, and loading writes through the null pointer, or
-- the last module with the name, and no other, becomes live with one reference, and stays where it is.
pub init_lem :
    (live : ℕ) (name : List ℕ) (modules : List Module)
    → (Absent name modules × (init live name modules ≡ none))
      ⊎ ((s : Split name modules) × (init live name modules
            ≡ some (s.before ++ (revive live s.last ∷ s.behind))))
unfolding init
init_lem live name modules = elim (find_last name modules) [
  | inl absent ↦ inl (absent, rw (init, find_mod-Absent name none 0 absent) refl)
  | inr s ↦
      let found : find_mod name none 0 modules ≡ some (length s.before) =
        ap (find_mod name none 0) s.whole
        ∙ find_mod-Split name none 0 s.before s.last s.behind s.named s.later
        ∙ ap some (omega arith) in
      inr (
        s,
        rw (init, found)
            (ap some (
              ap (at_index (revive live) (length s.before)) s.whole
              ∙ at_index-append (revive live) s.before s.last s.behind)),
      )
]
