-- ===== src/Expfs/Directories.antt =====
-- expfs.c: a file system seen as its directories, each a list of names with numbers, whatever blocks
-- and buffers they are kept in.
pub mod Effects
pub mod Refine
use lkm_practice.Base.{
  ℕ, ◌+◌, ◌≡◌, ◌≢◌, refl, sym, ap, ◌∙◌, Bool, true, false, ◌&&◌, Option, none, some, List, [], ◌∷◌,
  ◌++◌, arith, ◌==◌, ==_iff, if◌then◌else◌, get_elem?, length, take, Bool-cases, inl, inr,
}
use lkm_practice.Expfs.{DirBlock, Entry, lookup, add_entry, erase_entry}
use lkm_practice.Expfs.Entries
use lkm_practice.Expfs.Entries.{
  entries, find, delete, lookup-find, erase_entry-delete, add_entry-some,
}
use lkm_practice.Expfs.Blocks.{
  Mode, directory, regular, symlink, other, is_dir, Block, Fs, update, erase_in, free_block,
  fill_block, set_dir,
}
use lkm_practice.Expfs.Blocks.Array.{update_at, update_elsewhere}
use lkm_practice.Expfs.Blocks.Valid.{BlockValid, IsDir, dir-IsValid}

abbrev pub dir_names : Block → List Entry
dir_names b = if b.used && is_dir b.mode then entries b.dir else []

-- The names in the directory of block `q`; none if it is no directory in use.
pub names : List Block → ℕ → List Entry
names blks q = elim (get_elem? blks q) [ none ↦ [] | some b ↦ dir_names b ]

-- The directories with that of `p` replaced.
abbrev pub put : (ℕ → List Entry) → ℕ → List Entry → ℕ → List Entry
put m p es q = if p == q then es else m q

-- The directories with a name added at the end of one, and with a name's first entry taken out.
abbrev pub with_name : (ℕ → List Entry) → ℕ → List ℕ → ℕ → ℕ → List Entry
with_name m p name idx = put m p (m p ++ record { name = name; index = idx } ∷ [])

abbrev pub without_name : (ℕ → List Entry) → ℕ → List ℕ → ℕ → List Entry
without_name m p name = put m p (delete name (m p))

pub names_at :
    (blks : List Block) (q : ℕ) (b : Block) → get_elem? blks q ≡ some b → names blks q ≡ dir_names b
unfolding names
names_at blks q b h = rw (names, h) refl

pub names-update :
    (f : Block → Block) (i : ℕ) (blks : List Block) (old : Block)
    → get_elem? blks i ≡ some old
    → (q : ℕ) → names (update f i blks) q ≡ put (names blks) i (dir_names (f old)) q
unfolding names
names-update f i blks old at_i q = elim (Bool-cases (i == q)) [
  | inl here ↦
      let at_q : get_elem? (update f i blks) q ≡ some (f old) =
        ap (get_elem? (update f i blks)) (sym ((==_iff i q).0 here))
        ∙ update_at f i blks old at_i in
      rw (names, here, at_q) refl
  | inr there ↦
      let apart : i ≢ q = ground (arith, ==_iff i q) in
      rw (names, there, update_elsewhere f i q blks apart) refl
]

-- A change that leaves the names of its block.
pub names_keep :
    (f : Block → Block) (i : ℕ) (blks : List Block) (old : Block)
    → get_elem? blks i ≡ some old
    → dir_names (f old) ≡ dir_names old
    → (q : ℕ) → names (update f i blks) q ≡ names blks q
unfolding names
names_keep f i blks old at_i same q = elim (Bool-cases (i == q)) [
  | inl here ↦
      let at_q : get_elem? blks q ≡ some old =
        ap (get_elem? blks) (sym ((==_iff i q).0 here)) ∙ at_i in
      ground (arith, names-update f i blks old at_i q, here, same, names_at blks q old at_q)
  | inr there ↦ ground (arith, names-update f i blks old at_i q, there)
]
