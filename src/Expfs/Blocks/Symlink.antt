-- ===== src/Expfs/Blocks/Symlink.antt =====
-- expfs.c: symbolic links, and what a write to a file's block leaves of the others.
use lkm_practice.Base.{
  ℕ, ◌≡◌, refl, sym, ap, ◌∙◌, Bool, false, none, some, List, arith, get_elem?, length, inl, inr,
  ◌⊎◌,
}
use lkm_practice.Kernel.{Ret, ok, err}
use lkm_practice.Expfs.{DirBlock, Entry, lookup}
use lkm_practice.Expfs.Blocks.{
  symlink, is_dir, Block, Fs, Outcome, returned, overrun, update, set_dir, do_create, symlink_in,
}
use lkm_practice.Expfs.Blocks.Array.{length-update}
use lkm_practice.Expfs.Blocks.Count.{in_block, names_of-update}
use lkm_practice.Expfs.Blocks.Grow.{do_create-returned}
use lkm_practice.Expfs.Blocks.Valid.{IsDir, IsValid, blocks-update, expected_keep, IsDir-update}

-- The content of a block that is no directory does not matter to the others: when its buffer and its
-- size change, the blocks stay well formed.
pub content-IsValid :
    (i : ℕ) (d : DirBlock) {fs : Fs} (b : Block)
    → IsValid fs
    → get_elem? fs.blks i ≡ some b
    → is_dir b.mode ≡ false
    → length d.slots ≡ 4
    → IsValid (record fs { blks = update (set_dir d) i fs.blks })
content-IsValid i d {fs} b v at_i plain whole = record {
  full = length-update (set_dir d) i fs.blks ∙ v.full;
  blocks =
      blocks-update (set_dir d) i fs.blks b v.blocks at_i
        (record { full_buffer = whole; within = λ used dir. absurd (ground arith) });
  root = IsDir-update 1 (set_dir d) i fs.blks v.root.0 b v.root.1 at_i (λ e.
      let at_1 : get_elem? fs.blks 1 ≡ some b = ap (get_elem? fs.blks) (sym e) ∙ at_i in
      absurd (ground (arith, at_1, v.root.1.at, v.root.1.directory, plain)));
  once = λ j.
      let named = names_of-update j (set_dir d) i fs.blks b at_i in
      let before : in_block j b ≡ 0 = ground (arith, plain) in
      let after : in_block j (set_dir d b) ≡ 0 = ground (arith, plain) in
      let expect = expected_keep (set_dir d) i fs.blks b j at_i refl in omega (arith, v.once j);
}

outcome-cases : (o : Outcome) → (o ≡ overrun) ⊎ ((r : Ret) × (t : Fs) × (o ≡ returned r t))
outcome-cases overrun = inl refl
outcome-cases (returned r t) = inr (r, t, refl)

module _ (store : List ℕ → List Entry → List Entry) (memory memory' : Bool) (p : ℕ)
    (name target : List ℕ) where
  after_create :
      (b : Block) (fs t : Fs) (r : Ret) (s : Fs) (r' : Ret)
      → IsDir fs.blks p b
      → lookup name b.dir ≡ none
      → do_create memory p name symlink fs ≡ returned r' s
      → symlink_in store memory memory' p name target fs ≡ returned r t
      → do_create memory p name symlink fs ≡ returned r t
  unfolding symlink_in
  after_create b fs t r s (ok n) dir fresh made h = ground (arith, made)
  after_create b fs t r s (err e) dir fresh made h =
      elim (do_create-returned memory p name symlink fs s (err e) made) [
        | inr (fine, created) ↦ absurd (ground (arith, fine))
        | inl same ↦
            let at_p : get_elem? s.blks p ≡ some b = ap (λ x. get_elem? x.blks p) same ∙ dir.at in
            absurd (ground (arith, made, at_p, fresh))
      ]

  -- A symbolic link that is created never gets its target: where the name is new, an
  -- expfs_symlink that returns has done what expfs_do_create does, and no more.
  pub symlink_in-do_create :
      (b : Block) (fs t : Fs) (r : Ret)
      → IsDir fs.blks p b
      → lookup name b.dir ≡ none
      → symlink_in store memory memory' p name target fs ≡ returned r t
      → do_create memory p name symlink fs ≡ returned r t
  unfolding symlink_in
  symlink_in-do_create b fs t r dir fresh h =
      elim (outcome-cases (do_create memory p name symlink fs)) [
        | inl over ↦ absurd (ground (arith, over))
        | inr (r', s, made) ↦ after_create b fs t r s r' dir fresh made h
      ]
