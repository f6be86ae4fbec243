-- ===== src/Expfs/Mount/Inodes.antt =====
-- expfs.c: the inode that a new name leads to.
use lkm_practice.Base.{
  ℕ, ◌≡◌, ◌≢◌, refl, sym, ap, ◌∙◌, Bool, true, none, some, List, arith, get_elem?, inl, inr, ◌⊎◌,
}
use mathlib.Core.Option.{or_else}
use lkm_practice.Kernel.{Ret}
use lkm_practice.Expfs.{lookup, add_entry}
use lkm_practice.Expfs.Entries.{entries, find, lookup-find, add_entry-some}
use lkm_practice.Expfs.Names.{find-append_last}
use lkm_practice.Expfs.Blocks.{
  Mode, directory, regular, symlink, other, Block, Fs, returned, update, fill_block, set_dir,
  do_create,
}
use lkm_practice.Expfs.Blocks.Array.{update_at, update_elsewhere, FreeAt}
use lkm_practice.Expfs.Blocks.Valid.{IsDir, IsValid, dir-IsValid}
use lkm_practice.Expfs.Blocks.Create.{getblock-first}
use lkm_practice.Expfs.Blocks.Grow.{Created, do_create-returned}
use lkm_practice.Expfs.Mount.{Fops, dir_fops, fops, no_fops, geti, inode, lookup_inode}

-- The file operations that a file of each mode should have.
abbrev pub fops_for : Mode → Fops
fops_for directory = dir_fops
fops_for regular = fops
fops_for symlink = no_fops
fops_for other = no_fops

geti_filled :
    (mode : Mode) (idx : ℕ) (t : Fs) (old : Block)
    → get_elem? t.blks idx ≡ some (fill_block mode idx old)
    → geti true idx t ≡ some (record { i_ino = idx; i_fop = fops_for mode })
unfolding geti
geti_filled directory idx t old h = rw (geti, h) refl
geti_filled regular idx t old h = rw (geti, h) refl
geti_filled symlink idx t old h = rw (geti, h) refl
geti_filled other idx t old h = rw (geti, h) refl

Created-lookup_inode :
    {p : ℕ} {name : List ℕ} {mode : Mode} {s t : Fs} (b : Block)
    → IsValid s
    → IsDir s.blks p b
    → lookup name b.dir ≡ none
    → (c : Created p name mode s t)
    → FreeAt s.blks c.idx
      × (lookup_inode true p name t ≡ inode (record { i_ino = c.idx; i_fop = fops_for mode }))
unfolding lookup_inode or_else
Created-lookup_inode {p} {name} {mode} {s} {t} b v dir fresh c =
    let (two, fifty, (old, at_idx, unused), before) = getblock-first s.blks c.idx c.free_one in
    let fill = fill_block mode c.idx in
    let blks = update fill c.idx s.blks in
    let apart : c.idx ≢ p = λ e. absurd (ground (arith, dir.at, dir.used, at_idx, unused)) in
    let at_p : get_elem? blks p ≡ some b = update_elsewhere fill c.idx p s.blks apart ∙ dir.at in
    let same : c.pblk ≡ b = ground (arith, at_p, c.at_p) in
    let added : add_entry name c.idx b.dir ≡ some c.dir =
      ap (λ x. add_entry name c.idx x.dir) (sym same) ∙ c.added in
    let bv = dir-IsValid b (v.blocks p b dir.at) dir.used dir.directory in
    let (appended, v') = add_entry-some name c.idx bv added in
    let none_yet : find name (entries b.dir) ≡ none = sym (lookup-find name bv) ∙ fresh in
    let known : lookup name c.dir ≡ some c.idx =
      lookup-find name v'
      ∙ ap (find name) appended
      ∙ find-append_last name c.idx (entries b.dir)
      ∙ ap (λ o. or_else o (some c.idx)) none_yet in
    let result : t.blks ≡ update (set_dir c.dir) p blks = ap (λ x. x.blks) c.result in
    let at_p' : get_elem? t.blks p ≡ some (set_dir c.dir b) =
      ap (λ l. get_elem? l p) result ∙ update_at (set_dir c.dir) p blks b at_p in
    let at_idx' : get_elem? t.blks c.idx ≡ some (fill old) =
      ap (λ l. get_elem? l c.idx) result
      ∙ update_elsewhere (set_dir c.dir) p c.idx blks (λ e. apart (sym e))
      ∙ update_at fill c.idx s.blks old at_idx in
    (
      (old, at_idx, unused),
      rw (lookup_inode, at_p', known, geti_filled mode c.idx t old at_idx') refl,
    )

-- After a creation in a directory that did not have the name, if it changed anything, the name leads
-- to an inode, given memory for it: it has the number of a block that was free, and the file
-- operations of a directory or of a regular file if it was created as one, and else none.
pub do_create-lookup_inode :
    (memory : Bool) (p : ℕ) (name : List ℕ) (mode : Mode) (s t : Fs) (r : Ret) (b : Block)
    → IsValid s
    → IsDir s.blks p b
    → lookup name b.dir ≡ none
    → do_create memory p name mode s ≡ returned r t
    → (t ≡ s)
      ⊎ ((idx : ℕ) × FreeAt s.blks idx
          × (lookup_inode true p name t ≡ inode (record { i_ino = idx; i_fop = fops_for mode })))
do_create-lookup_inode memory p name mode s t r b v dir fresh h =
    elim (do_create-returned memory p name mode s t r h) [
      | inl same ↦ inl same
      | inr (fine, c) ↦
          let (free, found) = Created-lookup_inode b v dir fresh c in inr (c.idx, free, found)
    ]
