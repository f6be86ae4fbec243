-- ===== src/Expfs/Blocks/Grow.antt =====
-- expfs.c: a creation names its new block once.
use lkm_practice.Base.{
  ℕ, ◌+◌, ◌<◌, ◌≡◌, ◌≢◌, refl, sym, ap, ◌∙◌, Bool, true, not, ◌&&◌, some, List, arith, leb, ◌==◌,
  ==_iff, get_elem?, Bool-cases, Option-cases, inl, inr, ◌⊎◌,
}
use lkm_practice.Kernel.{Ret, ok}
use lkm_practice.Expfs.{DirBlock, add_entry}
use lkm_practice.Expfs.Blocks.{
  Mode, directory, regular, symlink, other, is_dir, is_reg, is_lnk, Block, Fs, returned, getblock,
  update, fill_block, set_dir, do_create, max_file,
}
use lkm_practice.Expfs.Blocks.Array.{update_elsewhere, length-update}
use lkm_practice.Expfs.Blocks.Valid.{
  expected, BlockValid, IsDir, IsValid, blocks-update, expected-update, expected_keep, IsDir-update,
  in_block-add, set_dir-BlockValid,
}
use lkm_practice.Expfs.Blocks.Create.{getblock-first}
use lkm_practice.Expfs.Blocks.Count.{in_block, names_of-update}

-- What creation does when it does not fail.
pub record Created (p : ℕ) (name : List ℕ) (mode : Mode) (s t : Fs) : Type 0 where
  pub few : s.used_blks < 50
  pub idx : ℕ
  pub free_one : getblock s.blks ≡ some idx
  pub pblk : Block
  pub at_p : get_elem? (update (fill_block mode idx) idx s.blks) p ≡ some pblk
  pub dir : DirBlock
  pub added : add_entry name idx pblk.dir ≡ some dir
  pub result : t ≡ record {
    blks = update (set_dir dir) p (update (fill_block mode idx) idx s.blks);
    used_blks = s.used_blks + 1;
  }

pub do_create-returned :
    (memory : Bool) (p : ℕ) (name : List ℕ) (mode : Mode) (s t : Fs) (r : Ret)
    → do_create memory p name mode s ≡ returned r t
    → (t ≡ s) ⊎ ((r ≡ ok 0) × Created p name mode s t)
unfolding do_create
do_create-returned memory p name mode s t r h = elim (Bool-cases (leb max_file s.used_blks)) [
  | inl many ↦ inl (ground (arith, many))
  | inr few ↦ elim (Bool-cases (not (is_dir mode) && (not (is_reg mode) && not (is_lnk mode)))) [
    | inl odd ↦ inl (ground (arith, few, odd))
    | inr known ↦ elim (Bool-cases (not memory)) [
      | inl poor ↦ inl (ground (arith, few, known, poor))
      | inr rich ↦ elim (Option-cases (getblock s.blks)) [
        | inl full ↦ absurd (ground (arith, few, known, rich, full))
        | inr (idx, free_one) ↦
            elim (Option-cases (get_elem? (update (fill_block mode idx) idx s.blks) p)) [
              | inl lost ↦ absurd (ground (arith, few, known, rich, free_one, lost))
              | inr (pblk, at_p) ↦ elim (Option-cases (add_entry name idx pblk.dir)) [
                | inl refused ↦ absurd (ground (arith, few, known, rich, free_one, at_p, refused))
                | inr (dir, added) ↦ inr (
                  ground (arith, few, known, rich, free_one, at_p, added),
                  record {
                    few = ground arith;
                    idx = idx;
                    free_one = free_one;
                    pblk = pblk;
                    at_p = at_p;
                    dir = dir;
                    added = added;
                    result = ground (arith, few, known, rich, free_one, at_p, added);
                  },
                )
              ]
            ]
      ]
    ]
  ]
]

fill_block-none :
    (j : ℕ) (mode : Mode) (idx : ℕ) (old : Block) → in_block j (fill_block mode idx old) ≡ 0
fill_block-none j directory idx old = refl
fill_block-none j regular idx old = refl
fill_block-none j symlink idx old = refl
fill_block-none j other idx old = refl

fill_block-BlockValid :
    (mode : Mode) (idx : ℕ) (old : Block) → BlockValid old → BlockValid (fill_block mode idx old)
fill_block-BlockValid directory idx old v = record {
  full_buffer = v.full_buffer;
  within = λ used dir. omega arith;
}
fill_block-BlockValid regular idx old v = record {
  full_buffer = v.full_buffer;
  within = λ used dir. omega arith;
}
fill_block-BlockValid symlink idx old v = record {
  full_buffer = v.full_buffer;
  within = λ used dir. absurd (ground arith);
}
fill_block-BlockValid other idx old v = record {
  full_buffer = v.full_buffer;
  within = λ used dir. absurd (ground arith);
}

-- A creation in a directory in use keeps the blocks well formed.
pub Created-IsValid :
    {p : ℕ} {name : List ℕ} {mode : Mode} {s t : Fs} (old_dir : Block)
    → IsValid s
    → IsDir s.blks p old_dir
    → Created p name mode s t
    → IsValid t
Created-IsValid {p} {name} {mode} {s} old_dir v parent c =
    let (two, fifty, (old, at_idx, unused), before) = getblock-first s.blks c.idx c.free_one in
    let fill = fill_block mode c.idx in
    let blks = update fill c.idx s.blks in
    let d = c.dir in
    let apart : c.idx ≢ p = λ e. absurd (ground (arith, parent.at, parent.used, at_idx, unused)) in
    let same : c.pblk ≡ old_dir =
      ground (arith, update_elsewhere fill c.idx p s.blks apart, parent.at, c.at_p) in
    let valid =
      blocks-update fill c.idx s.blks old v.blocks at_idx
        (fill_block-BlockValid mode c.idx old (v.blocks c.idx old at_idx)) in
    let pvalid = valid p c.pblk c.at_p in
    let used : c.pblk.used ≡ true = ap (λ b. b.used) same ∙ parent.used in
    let dir : is_dir c.pblk.mode ≡ true = ap (λ b. is_dir b.mode) same ∙ parent.directory in
    let (rooted, root) =
      IsDir-update 1 fill c.idx s.blks v.root.0 old v.root.1 at_idx (λ e. absurd (omega arith)) in
    rw c.result (record {
      full = length-update (set_dir d) p blks ∙ length-update fill c.idx s.blks ∙ v.full;
      blocks =
          blocks-update (set_dir d) p blks c.pblk valid c.at_p
            (set_dir-BlockValid name c.idx c.pblk d pvalid used dir c.added);
      root = IsDir-update 1 (set_dir d) p blks rooted c.pblk root c.at_p (λ e. (used, dir));
      once = λ j.
          let one_more = in_block-add name c.idx j c.pblk d pvalid used dir c.added in
          let expect = expected_keep (set_dir d) p blks c.pblk j c.at_p refl in
          let expect' = expected-update fill c.idx s.blks old j at_idx in
          let none_before : in_block j old ≡ 0 = rw unused refl in
          let named = names_of-update j fill c.idx s.blks old at_idx in
          let named' = names_of-update j (set_dir d) p blks c.pblk c.at_p in
          let none_new = fill_block-none j mode c.idx old in
          let before = v.once j in
          elim (Bool-cases (c.idx == j)) [
            | inl here ↦
                let number : c.idx ≡ j = (==_iff c.idx j).0 here in
                let at_j : get_elem? s.blks j ≡ some old =
                  ap (get_elem? s.blks) (sym number) ∙ at_idx in
                let nought : expected j (get_elem? s.blks j) ≡ 0 =
                  ap (expected j) at_j ∙ ground (arith, unused) in
                let one : expected j (get_elem? blks j) ≡ 1 =
                  (rw here at expect') ∙ ground (arith, number) in
                omega (arith, rw here at one_more)
            | inr there ↦
                let same_as_before : expected j (get_elem? blks j)
                    ≡ expected j (get_elem? s.blks j) =
                  rw there at expect' in
                omega (arith, rw there at one_more)
          ];
    })

-- A creation that succeeds has made a block.
pub do_create-ok :
    (memory : Bool) (p : ℕ) (name : List ℕ) (mode : Mode) (s t : Fs) (n : ℕ)
    → do_create memory p name mode s ≡ returned (ok n) t
    → Created p name mode s t
unfolding do_create
do_create-ok memory p name mode s t n h =
    elim (do_create-returned memory p name mode s t (ok n) h) [
      | inr (fine, c) ↦ c
      | inl same ↦ absurd (ground (arith, h, ap (λ x. x.used_blks) same))
    ]
