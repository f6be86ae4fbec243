-- ===== src/Expfs/Names.antt =====
-- expfs.c: what creating and removing a name does to the other names of a directory.
use lkm_practice.Base.{
  ℕ, ◌<◌, ◌≡◌, ◌≢◌, refl, sym, ap, ap₂, ◌∙◌, true, false, none, some, List, [], ◌∷◌, ◌++◌, arith,
  ==_iff, length, Bool-cases, Option-cases, inl, inr,
}
use mathlib.Core.Option.{or_else}
use lkm_practice.Kernel.{strcmp_eq}
use lkm_practice.Expfs.{DirBlock, Entry, lookup, add_entry, erase_entry}
use lkm_practice.Expfs.Entries.{
  IsValid, entries, find, delete, Added, add_entry-append, lookup-find, erase_entry-delete,
}

pub strcmp_eq_refl : (a : List ℕ) → strcmp_eq a a ≡ true
strcmp_eq_refl [] = refl
strcmp_eq_refl (x ∷ a) = ground (arith, strcmp_eq_refl a)

pub strcmp_eq_sound : (a b : List ℕ) → strcmp_eq a b ≡ true → a ≡ b
strcmp_eq_sound [] [] h = refl
strcmp_eq_sound [] (y ∷ b) h = absurd (ground arith)
strcmp_eq_sound (x ∷ a) [] h = absurd (ground arith)
strcmp_eq_sound (x ∷ a) (y ∷ b) h =
    let heads : x ≡ y = ground (arith, ==_iff x y) in
    let tails : strcmp_eq a b ≡ true = ground (arith, ==_iff x y) in
    ap₂ ◌∷◌ heads (strcmp_eq_sound a b tails)

strcmp_eq-differs : (a b : List ℕ) → a ≢ b → strcmp_eq a b ≡ false
strcmp_eq-differs a b h = elim (Bool-cases (strcmp_eq a b)) [
  | inl same ↦ absurd (h (strcmp_eq_sound a b same))
  | inr other ↦ other
]

pub find-append_new :
    (name : List ℕ) (idx : ℕ) (es : List Entry)
    → find name es ≡ none
    → (find name (es ++ record { name = name; index = idx } ∷ []) ≡ some idx)
      × (delete name (es ++ record { name = name; index = idx } ∷ []) ≡ es)
find-append_new name idx [] h = rw (strcmp_eq_refl name) (refl, refl)
find-append_new name idx (e ∷ es) h = elim (Bool-cases (strcmp_eq e.name name)) [
  | inl same ↦ absurd (ground (arith, same))
  | inr other ↦
      let (found, back) = find-append_new name idx es (ground (arith, other)) in
      rw other (found, ap (λ r. e ∷ r) back)
]

find-append_other :
    (name other : List ℕ) (idx : ℕ) (es : List Entry)
    → strcmp_eq name other ≡ false
    → find other (es ++ record { name = name; index = idx } ∷ []) ≡ find other es
find-append_other name other idx [] h = rw h refl
find-append_other name other idx (e ∷ es) h = elim (Bool-cases (strcmp_eq e.name other)) [
  | inl same ↦ rw same refl
  | inr differs ↦ rw differs (find-append_other name other idx es h)
]

-- An entry at the end is found where its name was not found before.
pub find-append_last :
    (name : List ℕ) (idx : ℕ) (es : List Entry)
    → find name (es ++ record { name = name; index = idx } ∷ []) ≡ or_else (find name es) (some idx)
unfolding or_else
find-append_last name idx [] = rw (strcmp_eq_refl name) refl
find-append_last name idx (e ∷ es) = elim (Bool-cases (strcmp_eq e.name name)) [
  | inl same ↦ rw same refl
  | inr differs ↦ rw differs (find-append_last name idx es)
]

-- Where one name was erased, another is found as before.
pub find-delete_other :
    (name other : List ℕ) (es : List Entry)
    → name ≢ other
    → find other (delete name es) ≡ find other es
find-delete_other name other [] h = refl
find-delete_other name other (e ∷ es) h = elim (Bool-cases (strcmp_eq e.name name)) [
  | inl same ↦
      let differs : strcmp_eq e.name other ≡ false =
        strcmp_eq-differs e.name other (λ p. h (sym (strcmp_eq_sound e.name name same) ∙ p)) in
      rw (same, differs) refl
  | inr other_name ↦ elim (Bool-cases (strcmp_eq e.name other)) [
    | inl here ↦ rw (other_name, here) refl
    | inr there ↦ rw (other_name, there) (find-delete_other name other es h)
  ]
]

-- Where there is room, a name of less than 50 bytes that the directory does not have can be added:
-- it is found at its number then, every other name at the number it had, and erasing the name gives
-- the entries that were there before.
pub create-lookup-erase :
    (name other : List ℕ) (idx : ℕ) {d : DirBlock}
    → IsValid d
    → d.dir_children < 4
    → length name < 50
    → lookup name d ≡ none
    → name ≢ other
    → (d' : DirBlock) × (add_entry name idx d ≡ some d')
      × IsValid d'
      × (lookup name d' ≡ some idx)
      × (lookup other d' ≡ lookup other d)
      × (entries (erase_entry name d') ≡ entries d)
create-lookup-erase name other idx {d} v room short fresh differs =
    let none_yet : find name (entries d) ≡ none = sym (lookup-find name v) ∙ fresh in
    let (found, back) = find-append_new name idx (entries d) none_yet in
    elim (Option-cases (add_entry name idx d)) [
      | inl e ↦
          let refused : Added name idx d none = rw e at (add_entry-append name idx v) in
          absurd (ground arith)
      | inr (d', e) ↦
          let (free, fits, appended, v') : Added name idx d (some d') =
            rw e at (add_entry-append name idx v) in
          (
            d',
            e,
            v',
            lookup-find name v' ∙ ap (find name) appended ∙ found,
            lookup-find other v'
                ∙ ap (find other) appended
                ∙ find-append_other name other idx (entries d)
                    (strcmp_eq-differs name other differs)
                ∙ sym (lookup-find other v),
            (erase_entry-delete name v').0 ∙ ap (delete name) appended ∙ back,
          )
    ]
