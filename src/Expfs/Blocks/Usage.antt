-- ===== src/Expfs/Blocks/Usage.antt =====
-- expfs.c: at least as many blocks are counted as are in use.
use lkm_practice.Base.{
  ℕ, ◌≤◌, ◌≡◌, ap, ◌&&◌, List, arith, ◌==◌, get_elem?, Bool-cases, Option-cases, inl, inr,
}
use lkm_practice.Kernel.{Ret}
use lkm_practice.Expfs.{DirBlock}
use lkm_practice.Expfs.Blocks.{
  Mode, is_dir, Block, Fs, returned, update, fill_block, set_dir, erase_in, free_block, unlink,
  rmdir,
}
use lkm_practice.Expfs.Blocks.Create.{getblock-first}
use lkm_practice.Expfs.Blocks.Grow.{Created}
use lkm_practice.Expfs.Blocks.Rename.{Renamed}
use lkm_practice.Expfs.Blocks.Room.{bit, in_use, in_use-update, in_use-update-le}

abbrev pub Counted : Fs → Type 0
Counted fs = in_use fs.blks ≤ fs.used_blks

pub Created-Counted :
    {p : ℕ} {name : List ℕ} {mode : Mode} {s t : Fs}
    → Counted s
    → Created p name mode s t
    → Counted t
Created-Counted {p} {name} {mode} {s} counted c =
    let (two, fifty, (old, at_idx, unused), before) = getblock-first s.blks c.idx c.free_one in
    let fill = fill_block mode c.idx in
    let blks = update fill c.idx s.blks in
    let one = in_use-update fill c.idx s.blks old at_idx in
    let none_before : bit old.used ≡ 0 = ap bit unused in
    let kept = in_use-update-le (set_dir c.dir) p blks (λ b. omega arith) in
    rw c.result (omega arith)

pub unlink-Counted :
    (simple : Ret) (p : ℕ) (name : List ℕ) (i : ℕ) (s t : Fs) (r : Ret)
    → Counted s
    → unlink simple p name i s ≡ returned r t
    → Counted t
unfolding unlink
unlink-Counted simple p name i s t r counted h =
    let blks = update (erase_in name) p s.blks in
    let fewer = in_use-update-le free_block i blks (λ b. omega arith) in
    let kept = in_use-update-le (erase_in name) p s.blks (λ b. omega arith) in
    let result : t ≡ record s { blks = update free_block i blks } = ground arith in
    rw result (omega arith)

pub rmdir-Counted :
    (simple : Ret) (p : ℕ) (name : List ℕ) (i : ℕ) (s t : Fs) (r : Ret)
    → Counted s
    → rmdir simple p name i s ≡ returned r t
    → Counted t
unfolding rmdir
rmdir-Counted simple p name i s t r counted h = elim (Option-cases (get_elem? s.blks i)) [
  | inl missing ↦ absurd (ground (arith, missing))
  | inr (bi, at_i) ↦ elim (Bool-cases (is_dir bi.mode && (bi.dir.dir_children == 0))) [
    | inr refused ↦ let result : t ≡ s = ground (arith, at_i, refused) in rw result counted
    | inl empty ↦
        let blks = update free_block i s.blks in
        let fewer = in_use-update-le free_block i s.blks (λ b. omega arith) in
        let kept = in_use-update-le (erase_in name) p blks (λ b. omega arith) in
        let result : t ≡ record s { blks = update (erase_in name) p blks } =
          ground (arith, at_i, empty) in
        rw result (omega arith)
  ]
]

pub Renamed-Counted :
    {p : ℕ} {old : List ℕ} {q : ℕ} {new : List ℕ} {pblk : Block} {s t : Fs}
    → Counted s
    → Renamed p old q new pblk s t
    → Counted t
Renamed-Counted {p} {old} {q} {new} {pblk} {s} counted m =
    let blks = update (erase_in old) p s.blks in
    let kept = in_use-update-le (erase_in old) p s.blks (λ b. omega arith) in
    let kept' = in_use-update-le (set_dir m.dir) q blks (λ b. omega arith) in
    rw m.result (omega arith)

pub content-Counted :
    (i : ℕ) (d : DirBlock) (s : Fs)
    → Counted s
    → Counted (record s { blks = update (set_dir d) i s.blks })
content-Counted i d s counted =
    let kept = in_use-update-le (set_dir d) i s.blks (λ b. omega arith) in omega arith
