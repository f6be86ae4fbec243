-- ===== src/Expfs/Contents.antt =====
-- expfs.c: what the operations do to the files that they are not about.
use lkm_practice.Base.{
  ℕ, ◌≡◌, ◌≢◌, ap, ◌∙◌, Bool, true, false, some, List, arith, inl, inr, get_elem?,
}
use lkm_practice.Kernel.{Ret}
use lkm_practice.Expfs.Blocks.{
  Mode, symlink, is_dir, Block, Fs, returned, update, do_create, rmdir, fill_block, set_dir,
  erase_in, free_block,
}
use lkm_practice.Expfs.Blocks.Array.{update_elsewhere}
use lkm_practice.Expfs.Blocks.Valid.{IsDir}
use lkm_practice.Expfs.Blocks.Create.{getblock-first}
use lkm_practice.Expfs.Blocks.Grow.{do_create-returned}
use lkm_practice.Expfs.Blocks.Shrink.{unlink-Removed, rmdir-returned}
use lkm_practice.Expfs.Blocks.Rename.{rename-returned}
use lkm_practice.Expfs.Blocks.Symlink.{symlink_in-do_create}
use lkm_practice.Expfs.Tree.{Step, creates, links, unlinks, removes, renames, writes}

-- Block `i` holds a file that is in use.
pub record IsFile (s : Fs) (i : ℕ) (b : Block) : Type 0 where
  pub at : get_elem? s.blks i ≡ some b
  pub used : b.used ≡ true
  pub plain : is_dir b.mode ≡ false

-- The operation is neither a write to the file of block `i` nor its removal.
abbrev pub Spares : (i : ℕ) {s t : Fs} → Step s t → Type 0
Spares i (creates memory p name mode r b dir h) = Unit {0}
Spares i (links store memory memory' p name target r b dir fresh h) = Unit {0}
Spares i (unlinks simple p name j r b bj dir known at_j plain h) = j ≢ i
Spares i (removes simple p name j r b dir known h) = Unit {0}
Spares i (renames memory simple p old q new r b c dir dir' h) = Unit {0}
Spares i (writes j d b at_j plain whole) = j ≢ i

-- Changes of two other blocks.
two_elsewhere :
    (f g : Block → Block) (i j n : ℕ) (blks : List Block)
    → i ≢ n
    → j ≢ n
    → get_elem? (update f i (update g j blks)) n ≡ get_elem? blks n
two_elsewhere f g i j n blks apart apart' =
    update_elsewhere f i n (update g j blks) apart ∙ update_elsewhere g j n blks apart'

module _ {i : ℕ} {s : Fs} {b : Block} (file : IsFile s i b) where
  not_dir : (p : ℕ) (d : Block) → IsDir s.blks p d → p ≢ i
  not_dir p d dir = λ e. absurd (ground (arith, dir.at, dir.directory, file.at, file.plain, e))

  do_create_spares :
      (memory : Bool) (p : ℕ) (name : List ℕ) (mode : Mode) (r : Ret) (d : Block) {t : Fs}
      → IsDir s.blks p d
      → do_create memory p name mode s ≡ returned r t
      → get_elem? t.blks i ≡ some b
  do_create_spares memory p name mode r d {t} dir h =
      elim (do_create-returned memory p name mode s t r h) [
        | inl same ↦ ap (λ x. get_elem? x.blks i) same ∙ file.at
        | inr (fine, c) ↦
            let (two, fifty, (old, at_idx, unused), before) =
              getblock-first s.blks c.idx c.free_one in
            let apart : c.idx ≢ i =
              λ e. absurd (ground (arith, at_idx, unused, file.at, file.used, e)) in
            ap (λ x. get_elem? x.blks i) c.result
            ∙ two_elsewhere (set_dir c.dir) (fill_block mode c.idx) p c.idx i s.blks
                (not_dir p d dir) apart
            ∙ file.at
      ]

  rmdir_spares :
      (simple : Ret) (p : ℕ) (name : List ℕ) (j : ℕ) (r : Ret) (d : Block) {t : Fs}
      → IsDir s.blks p d
      → rmdir simple p name j s ≡ returned r t
      → get_elem? t.blks i ≡ some b
  rmdir_spares simple p name j r d {t} dir h = elim (rmdir-returned simple p name j r h) [
    | inl same ↦ ap (λ x. get_elem? x.blks i) same ∙ file.at
    | inr (bj, at_j, directory, result) ↦
        let apart : j ≢ i = λ e. absurd (ground (arith, at_j, directory, file.at, file.plain, e)) in
        ap (λ x. get_elem? x.blks i) result
        ∙ two_elsewhere (erase_in name) free_block p j i s.blks (not_dir p d dir) apart
        ∙ file.at
  ]

  kept_at : {t : Fs} (step : Step s t) → Spares i step → get_elem? t.blks i ≡ some b
  kept_at (creates memory p name mode r d dir h) other =
      do_create_spares memory p name mode r d dir h
  kept_at {t} (links store memory memory' p name target r d dir fresh h) other =
      do_create_spares memory p name symlink r d dir
        (symlink_in-do_create store memory memory' p name target d s t r dir fresh h)
  kept_at {t} (unlinks simple p name j r d bj dir known at_j plain h) apart =
      let m = unlink-Removed simple p name j d bj r dir at_j plain h in
      ap (λ x. get_elem? x.blks i) m.result
      ∙ two_elsewhere free_block (erase_in name) j p i s.blks apart (not_dir p d dir)
      ∙ file.at
  kept_at (removes simple p name j r d dir known h) other = rmdir_spares simple p name j r d dir h
  kept_at {t} (renames memory simple p old q new r d c dir dir' h) other =
      let m = rename-returned memory simple p old q new d s t r dir.at h in
      ap (λ x. get_elem? x.blks i) m.result
      ∙ two_elsewhere (set_dir m.dir) (erase_in old) q p i s.blks (not_dir q c dir')
          (not_dir p d dir)
      ∙ file.at
  kept_at (writes j d c at_j plain whole) apart =
      update_elsewhere (set_dir d) j i s.blks apart ∙ file.at

-- A file that is in use keeps its mode, size and bytes, whatever operation of Expfs/Tree is
-- neither a write to it nor unlinks it.
pub Step-IsFile :
    {i : ℕ} {s t : Fs} {b : Block} → IsFile s i b → (step : Step s t) → Spares i step → IsFile t i b
Step-IsFile file step other = record {
  at = kept_at file step other;
  used = file.used;
  plain = file.plain;
}
