-- ===== src/Expfs/Blocks/Valid.antt =====
-- expfs.c: the well-formedness of the array of blocks, and the operations that keep it.
use lkm_practice.Base.{
  ℕ, ◌+◌, ◌≤◌, ◌<◌, ◌≡◌, ◌≢◌, refl, sym, ap, ◌∙◌, true, ◌&&◌, Option, none, some, List, arith, leb,
  ◌==◌, ==_iff, if◌then◌else◌, get_elem?, length, Bool-cases, Option-cases, inl, inr,
}
use lkm_practice.Expfs.{DirBlock, add_entry, lookup}
use lkm_practice.Expfs.Entries
use lkm_practice.Expfs.Entries.{
  entries, find, delete, Added, add_entry-append, add_entry-some, lookup-find, erase_entry-delete,
}
use lkm_practice.Expfs.Blocks.{is_dir, Block, Fs, update, set_dir, erase_in}
use lkm_practice.Expfs.Blocks.Array.{update_at, update_elsewhere}
use lkm_practice.Expfs.Blocks.Count.{
  count, in_block, names_of, count-append, count-delete, in_block-le-names_of, count-found,
}

-- The number of entries that a block should have: one if it is in use and is not one of the first
-- two, and else none.
abbrev pub expected : ℕ → Option Block → ℕ
expected j none = 0
expected j (some b) = if leb 2 j && b.used then 1 else 0

pub record BlockValid (b : Block) : Type 0 where
  pub full_buffer : length b.dir.slots ≡ 4
  pub within : b.used ≡ true → is_dir b.mode ≡ true → b.dir.dir_children ≤ 4

-- Block p is a directory in use, with this content.
pub record IsDir (blks : List Block) (p : ℕ) (b : Block) : Type 0 where
  pub at : get_elem? blks p ≡ some b
  pub used : b.used ≡ true
  pub directory : is_dir b.mode ≡ true

-- The array has fifty blocks; a directory in use has at most four entries; the root is a directory
-- in use; and each block in use but the first two is named by exactly one entry of the directories
-- in use, and no other number is.
pub record IsValid (fs : Fs) : Type 0 where
  pub full : length fs.blks ≡ 50
  pub blocks : (i : ℕ) (b : Block) → get_elem? fs.blks i ≡ some b → BlockValid b
  pub root : (b : Block) × IsDir fs.blks 1 b
  pub once : (j : ℕ) → names_of j fs.blks ≡ expected j (get_elem? fs.blks j)

-- The blocks after one of them has changed.
pub blocks-update :
    (f : Block → Block) (i : ℕ) (blks : List Block) (old : Block)
    → ((j : ℕ) (b : Block) → get_elem? blks j ≡ some b → BlockValid b)
    → get_elem? blks i ≡ some old
    → BlockValid (f old)
    → (j : ℕ) (b : Block) → get_elem? (update f i blks) j ≡ some b
    → BlockValid b
blocks-update f i blks old valid at_i new j b at_j = elim (Bool-cases (i == j)) [
  | inl here ↦
      let same : i ≡ j = (==_iff i j).0 here in
      let found : get_elem? (update f i blks) i ≡ some b =
        ap (get_elem? (update f i blks)) same ∙ at_j in
      let changed : b ≡ f old = ground (arith, update_at f i blks old at_i, found) in rw changed new
  | inr there ↦
      let apart : i ≢ j = ground (arith, ==_iff i j) in
      valid j b (sym (update_elsewhere f i j blks apart) ∙ at_j)
]

pub expected-update :
    (f : Block → Block) (i : ℕ) (blks : List Block) (old : Block) (j : ℕ)
    → get_elem? blks i ≡ some old
    → expected j (get_elem? (update f i blks) j)
      ≡ (if i == j then expected j (some (f old)) else expected j (get_elem? blks j))
expected-update f i blks old j at_i = elim (Bool-cases (i == j)) [
  | inl here ↦
      let same : i ≡ j = (==_iff i j).0 here in
      rw here (
        ap (expected j) (ap (get_elem? (update f i blks)) (sym same) ∙ update_at f i blks old at_i))
  | inr there ↦
      let apart : i ≢ j = ground (arith, ==_iff i j) in
      rw there (ap (expected j) (update_elsewhere f i j blks apart))
]

pub expected_keep :
    (f : Block → Block) (i : ℕ) (blks : List Block) (old : Block) (j : ℕ)
    → get_elem? blks i ≡ some old
    → (f old).used ≡ old.used
    → expected j (get_elem? (update f i blks) j) ≡ expected j (get_elem? blks j)
expected_keep f i blks old j at_i kept = elim (Bool-cases (i == j)) [
  | inr there ↦ ground (arith, there, expected-update f i blks old j at_i)
  | inl here ↦
      let same : get_elem? blks j ≡ some old =
        ap (get_elem? blks) (sym ((==_iff i j).0 here)) ∙ at_i in
      ground (arith, here, same, expected-update f i blks old j at_i)
]

pub IsDir-update :
    (q : ℕ) (f : Block → Block) (i : ℕ) (blks : List Block) (b old : Block)
    → IsDir blks q b
    → get_elem? blks i ≡ some old
    → (i ≡ q → ((f old).used ≡ true) × (is_dir (f old).mode ≡ true))
    → (b' : Block) × IsDir (update f i blks) q b'
IsDir-update q f i blks b old dir at_i keep = elim (Bool-cases (i == q)) [
  | inl here ↦
      let same : i ≡ q = (==_iff i q).0 here in
      (
        f old,
        record {
          at = ap (get_elem? (update f i blks)) (sym same) ∙ update_at f i blks old at_i;
          used = (keep same).0;
          directory = (keep same).1;
        },
      )
  | inr there ↦
      let apart : i ≢ q = ground (arith, ==_iff i q) in
      (
        b,
        record {
          at = update_elsewhere f i q blks apart ∙ dir.at;
          used = dir.used;
          directory = dir.directory;
        },
      )
]

pub in_block-dir :
    (j : ℕ) (b : Block)
    → b.used ≡ true
    → is_dir b.mode ≡ true
    → in_block j b ≡ count j (entries b.dir)
in_block-dir j b used dir = rw (used, dir) refl

pub dir-IsValid :
    (b : Block) → BlockValid b → b.used ≡ true → is_dir b.mode ≡ true → Entries.IsValid b.dir
dir-IsValid b v used dir = record { full_buffer = v.full_buffer; within = v.within used dir }

-- A directory with one entry more names that entry's block once more, and the others as often.
pub in_block-add :
    (name : List ℕ) (idx j : ℕ) (b : Block) (d : DirBlock)
    → BlockValid b
    → b.used ≡ true
    → is_dir b.mode ≡ true
    → add_entry name idx b.dir ≡ some d
    → in_block j (set_dir d b) ≡ in_block j b + (if idx == j then 1 else 0)
in_block-add name idx j b d v used dir added =
    let (appended, v') = add_entry-some name idx (dir-IsValid b v used dir) added in
    rw (used, dir, appended, count-append j (entries b.dir)) (omega arith)

pub set_dir-BlockValid :
    (name : List ℕ) (idx : ℕ) (b : Block) (d : DirBlock)
    → BlockValid b
    → b.used ≡ true
    → is_dir b.mode ≡ true
    → add_entry name idx b.dir ≡ some d
    → BlockValid (set_dir d b)
set_dir-BlockValid name idx b d v used dir added =
    let (appended, v') = add_entry-some name idx (dir-IsValid b v used dir) added in
    record { full_buffer = v'.full_buffer; within = λ used dir. v'.within }

-- A directory with a name less names that name's block once less.
pub in_block-erase :
    (name : List ℕ) (i j : ℕ) (b : Block)
    → BlockValid b
    → b.used ≡ true
    → is_dir b.mode ≡ true
    → lookup name b.dir ≡ some i
    → in_block j (erase_in name b) + (if i == j then 1 else 0) ≡ in_block j b
in_block-erase name i j b v used dir known =
    let v' = dir-IsValid b v used dir in
    let found : find name (entries b.dir) ≡ some i = sym (lookup-find name v') ∙ known in
    rw (used, dir, (erase_entry-delete name v').0) (count-delete j name i (entries b.dir) found)

pub erase_in-BlockValid :
    (name : List ℕ) (b : Block)
    → BlockValid b
    → b.used ≡ true
    → is_dir b.mode ≡ true
    → BlockValid (erase_in name b)
erase_in-BlockValid name b v used dir =
    let v' = (erase_entry-delete name (dir-IsValid b v used dir)).1 in
    record { full_buffer = v'.full_buffer; within = λ used dir. v'.within }

-- What a directory in use names is a block in use, and none of the first two.
pub named-used :
    (name : List ℕ) (p i : ℕ) {fs : Fs} (b : Block)
    → IsValid fs
    → IsDir fs.blks p b
    → lookup name b.dir ≡ some i
    → (2 ≤ i) × (bi : Block) × (get_elem? fs.blks i ≡ some bi) × (bi.used ≡ true)
named-used name p i {fs} b v dir known =
    let bv = v.blocks p b dir.at in
    let found : find name (entries b.dir) ≡ some i =
      sym (lookup-find name (dir-IsValid b bv dir.used dir.directory)) ∙ known in
    let some_name = count-found name i (entries b.dir) found in
    let here = in_block-dir i b dir.used dir.directory in
    let below = in_block-le-names_of i p fs.blks b dir.at in
    let one : 0 < expected i (get_elem? fs.blks i) = omega (arith, v.once i) in
    elim (Option-cases (get_elem? fs.blks i)) [
      | inl missing ↦ absurd (ground (arith, missing))
      | inr (bi, at_i) ↦
          let counted : 0 < expected i (some bi) = rw at_i at one in
          (ground arith, bi, at_i, ground arith)
    ]
