-- ===== src/Expfs/Entries.antt =====
-- expfs.c: the entries of a directory, as the list of names and inode numbers that they stand for.
use lkm_practice.Base.{
  ℕ, zero, suc, ◌+◌, ◌-◌, ◌⊎◌, ◌≤◌, ◌<◌, ◌≡◌, refl, sym, ap, ap₂, ◌∙◌, false, ◌||◌, Option, none,
  some, List, [], ◌∷◌, ◌++◌, arith, leb, if◌then◌else◌, blit, window, length, take, drop, get_elem?,
  Bool-cases, dec_lt, Option-cases, inl, inr, length-blit, length-window, take-blit_end,
  drop-blit_after, take-add, drop-add, append_assoc, append-nil,
}
use lkm_practice.Kernel.{strcmp_eq}
use lkm_practice.Expfs.{
  DirBlock, Entry, max_entries, max_name, search, lookup, add_entry, shift, erase_entry,
}

-- The entries that are in use.
abbrev pub entries : DirBlock → List Entry
entries d = take d.dir_children d.slots

pub record IsValid (d : DirBlock) : Type 0 where
  pub full_buffer : length d.slots ≡ max_entries
  pub within : d.dir_children ≤ max_entries

-- The inode number at the first entry of a name, and the entries without that one.
abbrev pub find : List ℕ → List Entry → Option ℕ
find name [] = none
find name (e ∷ es) = if strcmp_eq e.name name then some e.index else find name es

abbrev pub delete : List ℕ → List Entry → List Entry
delete name [] = []
delete name (e ∷ es) = if strcmp_eq e.name name then es else e ∷ delete name es

pub elem_in :
    (slots : List Entry) (i : ℕ) → i < length slots → (e : Entry) × (get_elem? slots i ≡ some e)
elem_in [] i h = absurd (omega arith)
elem_in (x ∷ slots) zero h = (x, refl)
elem_in (x ∷ slots) (suc i) h = elem_in slots i (omega arith)

pub window-next :
    (slots : List Entry) (i n : ℕ) (e : Entry)
    → get_elem? slots i ≡ some e
    → window i (suc n) slots ≡ e ∷ window (i + 1) n slots
window-next [] i n e h = absurd (ground arith)
window-next (x ∷ slots) zero n e h = ground arith
window-next (x ∷ slots) (suc i) n e h =
    let shorter : suc i + 1 ≡ suc (i + 1) = omega arith in rw shorter (window-next slots i n e h)

search-none :
    (left i : ℕ) (name : List ℕ) (slots : List Entry)
    → i + left ≤ length slots
    → search left i name slots ≡ none
    → (find name (window i left slots) ≡ none)
      × (delete name (window i left slots) ≡ window i left slots)
unfolding search
search-none zero i name slots h missed = (refl, refl)
search-none (suc left) i name slots h missed =
    let (e, at_i) = elem_in slots i (omega arith) in
    elim (Bool-cases (strcmp_eq e.name name)) [
      | inl same ↦ absurd (ground (arith, at_i, same))
      | inr other ↦
          let (lost, kept) =
            search-none left (i + 1) name slots (omega arith) (ground (arith, at_i, other)) in
          rw (window-next slots i left e at_i, other) (lost, ap (λ es. e ∷ es) kept)
    ]

search-some :
    (left i : ℕ) (name : List ℕ) (slots : List Entry) (j : ℕ)
    → i + left ≤ length slots
    → search left i name slots ≡ some j
    → (i ≤ j)
      × (j < i + left)
      × (e : Entry) × (get_elem? slots j ≡ some e)
      × (find name (window i left slots) ≡ some e.index)
      × (delete name (window i left slots)
          ≡ window i (j - i) slots ++ window (j + 1) (i + left - 1 - j) slots)
unfolding search
search-some zero i name slots j h found = absurd (ground arith)
search-some (suc left) i name slots j h found =
    let (e, at_i) = elem_in slots i (omega arith) in
    elim (Bool-cases (strcmp_eq e.name name)) [
      | inl same ↦
          let here : j ≡ i = ground (arith, at_i, same) in
          let none_before : i - i ≡ 0 = omega arith in
          let others : i + suc left - 1 - i ≡ left = omega arith in
          rw here (
            omega arith,
            omega arith,
            e,
            at_i,
            rw (window-next slots i left e at_i, same) refl,
            rw (window-next slots i left e at_i, same, none_before, others) refl,
          )
      | inr other ↦
          let (above, below, e', at_j, known, kept) =
            search-some left (i + 1) name slots j (omega arith) (ground (arith, at_i, other)) in
          let before : j - i ≡ suc (j - (i + 1)) = omega arith in
          let after : i + suc left - 1 - j ≡ i + 1 + left - 1 - j = omega arith in
          (
            omega arith,
            omega arith,
            e',
            at_j,
            rw (window-next slots i left e at_i, other) known,
            rw
                (
                  window-next slots i left e at_i,
                  other,
                  before,
                  after,
                  window-next slots i (j - (i + 1)) e at_i,
                )
                (ap (λ es. e ∷ es) kept),
          )
    ]

shift_lem :
    (left j : ℕ) (slots : List Entry)
    → j + left < length slots
    → (length (shift left j slots) ≡ length slots)
      × (take (j + left) (shift left j slots) ≡ take j slots ++ window (j + 1) left slots)
unfolding shift
shift_lem zero j slots h =
    let same : j + 0 ≡ j = omega arith in (refl, rw same (sym (append-nil (take j slots))))
shift_lem (suc left) j slots h =
    let one : length (window (j + 1) 1 slots) ≡ 1 =
      omega (arith, length-window (j + 1) 1 slots (omega arith)) in
    let slots' = blit slots j (window (j + 1) 1 slots) in
    let len : length slots' ≡ length slots =
      length-blit slots j (window (j + 1) 1 slots) (omega (arith, one)) in
    let (kept, moved) = shift_lem left (j + 1) slots' (omega (arith, len)) in
    let front : take (j + 1) slots' ≡ take j slots ++ window (j + 1) 1 slots =
      ap (λ n. take (j + n) slots') (sym one)
      ∙ take-blit_end slots j (window (j + 1) 1 slots) (omega arith) in
    let back : drop (j + 1) slots' ≡ drop (j + 1) slots =
      ap (λ n. drop (j + n) slots') (sym one)
      ∙ drop-blit_after slots j (window (j + 1) 1 slots) (omega arith)
      ∙ ap (λ n. drop (j + n) slots) one in
    let far : drop (j + 1 + 1) slots' ≡ drop (j + 1 + 1) slots =
      drop-add (j + 1) 1 slots' ∙ ap (drop 1) back ∙ sym (drop-add (j + 1) 1 slots) in
    let amount : j + suc left ≡ j + 1 + left = omega arith in
    let pieces : window (j + 1) (suc left) slots
        ≡ window (j + 1) 1 slots ++ window (j + 1 + 1) left slots =
      ap (λ n. take n (drop (j + 1) slots)) {x = suc left} (omega arith)
      ∙ take-add 1 left (drop (j + 1) slots)
      ∙ ap (λ r. window (j + 1) 1 slots ++ take left r) (sym (drop-add (j + 1) 1 slots)) in
    (
      kept ∙ len,
      rw (amount, pieces)
          (moved
            ∙ ap₂ ◌++◌ front (ap (take left) far)
            ∙ append_assoc (take j slots) (window (j + 1) 1 slots) (window (j + 1 + 1) left slots)),
    )

-- Erasing a name takes its first entry out, keeps the others in their order, and keeps the block
-- well formed; a name that is not there changes nothing.
pub erase_entry-delete :
    (name : List ℕ) {d : DirBlock}
    → IsValid d
    → (entries (erase_entry name d) ≡ delete name (entries d)) × IsValid (erase_entry name d)
unfolding erase_entry
erase_entry-delete name {d} v = elim (Option-cases (search d.dir_children 0 name d.slots)) [
  | inl missed ↦
      let (lost, kept) = search-none d.dir_children 0 name d.slots (omega (arith, v)) missed in
      rw (erase_entry, missed) (sym kept, v)
  | inr (j, found) ↦
      let (above, below, e, at_j, known, kept) =
        search-some d.dir_children 0 name d.slots j (omega (arith, v)) found in
      let (len, moved) = shift_lem (d.dir_children - 1 - j) j d.slots (omega (arith, v)) in
      let amount : d.dir_children - 1 ≡ j + (d.dir_children - 1 - j) = omega arith in
      let first : j - 0 ≡ j = omega arith in
      let others : 0 + d.dir_children - 1 - j ≡ d.dir_children - 1 - j = omega arith in
      let erased : delete name (entries d)
          ≡ take j d.slots ++ window (j + 1) (d.dir_children - 1 - j) d.slots =
        kept ∙ ap₂ (λ a b. take a d.slots ++ window (j + 1) b d.slots) first others in
      rw (erase_entry, found)
        (
          ap (λ n. take n (shift (d.dir_children - 1 - j) j d.slots)) amount ∙ moved ∙ sym erased,
          record { full_buffer = len ∙ v.full_buffer; within = omega (arith, v) },
        )
]

-- Looking a name up finds the number at its first entry, or nothing where the name has none.
pub lookup-find : (name : List ℕ) {d : DirBlock} → IsValid d → lookup name d ≡ find name (entries d)
unfolding lookup
lookup-find name {d} v = elim (Option-cases (search d.dir_children 0 name d.slots)) [
  | inl missed ↦
      let (lost, kept) = search-none d.dir_children 0 name d.slots (omega (arith, v)) missed in
      rw (lookup, missed) (sym lost)
  | inr (j, found) ↦
      let (above, below, e, at_j, known, kept) =
        search-some d.dir_children 0 name d.slots j (omega (arith, v)) found in
      rw (lookup, found, at_j) (sym known)
]

abbrev pub Added : List ℕ → ℕ → DirBlock → Option DirBlock → Type 0
Added name idx d none = (4 ≤ d.dir_children) ⊎ (50 ≤ length name)
Added name idx d (some d') =
    (d.dir_children < 4)
    × (length name < 50)
    × (entries d' ≡ entries d ++ record { name = name; index = idx } ∷ [])
    × IsValid d'

-- A new entry is refused only when four entries are in use or the name has 50 bytes or more; else
-- fewer are in use and the name is shorter, the entry comes after the others, and the block stays
-- well formed.
pub add_entry-append :
    (name : List ℕ) (idx : ℕ) {d : DirBlock} → IsValid d → Added name idx d (add_entry name idx d)
unfolding add_entry
add_entry-append name idx {d} v = elim (dec_lt d.dir_children 4) [
  | no full ↦ ground (arith, full)
  | yes room ↦ elim (dec_lt (length name) 50) [
    | no long ↦ ground (arith, room, long)
    | yes short ↦
        let e : Entry = record { name = name; index = idx } in
        let fits : (leb max_entries d.dir_children || leb max_name (length name)) ≡ false =
          ground arith in
        rw (add_entry, fits)
          (
            room,
            short,
            take-blit_end d.slots d.dir_children (e ∷ []) (omega (arith, v)),
            record {
              full_buffer =
                  length-blit d.slots d.dir_children (e ∷ []) (omega (arith, v)) ∙ v.full_buffer;
              within = omega arith;
            },
          )
  ]
]

pub add_entry-some :
    (name : List ℕ) (idx : ℕ) {d d' : DirBlock}
    → IsValid d
    → add_entry name idx d ≡ some d'
    → (entries d' ≡ entries d ++ record { name = name; index = idx } ∷ []) × IsValid d'
add_entry-some name idx {d} {d'} v added =
    let (room, short, appended, v') : Added name idx d (some d') =
      rw added at (add_entry-append name idx v) in
    (appended, v')
