-- ===== src/Expfs/Tree.antt =====
-- expfs.c: what any sequence of operations leaves of a mounted file system.
use lkm_practice.Base.{
  ℕ, zero, suc, ◌≡◌, refl, sym, ap, ◌∙◌, Bool, true, false, none, some, List, ◌∷◌, arith, get_elem?,
  length, replicate, inl, inr, Option-cases,
}
use lkm_practice.Kernel.{Ret}
use lkm_practice.Expfs.{DirBlock, Entry, lookup}
use lkm_practice.Expfs.Blocks.{
  Mode, symlink, is_dir, Block, Fs, returned, update, set_dir, do_create, symlink_in, unlink, rmdir,
  rename,
}
use lkm_practice.Expfs.Blocks.Valid.{IsDir, IsValid, BlockValid, expected}
use lkm_practice.Expfs.Blocks.Count.{names_of, names_of-cons, names_of-replicate}
use lkm_practice.Expfs.Blocks.Grow.{do_create-returned, Created-IsValid}
use lkm_practice.Expfs.Blocks.Shrink.{Removed-IsValid, unlink-Removed, rmdir-Removed}
use lkm_practice.Expfs.Blocks.Rename.{rename-returned, rename-IsValid}
use lkm_practice.Expfs.Blocks.Symlink.{content-IsValid, symlink_in-do_create}
use lkm_practice.Expfs.Blocks.Room.{in_use-cons, in_use-replicate}
use lkm_practice.Expfs.Blocks.Usage.{
  Counted, Created-Counted, unlink-Counted, rmdir-Counted, Renamed-Counted, content-Counted,
}
use lkm_practice.Expfs.Blocks.Array.{update_second, get_elem?-replicate}
use lkm_practice.Expfs.Mount.{zero_block, root_block, init, fill_super}

-- An operation that returns, in directories in use: not unlink on a directory, and unlink and rmdir
-- only with a dentry that is bound to the block that lookup finds, which Expfs/Dcache is about.
-- Writing a file and the like changes the size and the buffer of a block that is no directory.
pub data Step (s : Fs) : Fs → Type 0 where
  creates :
      (memory : Bool) (p : ℕ) (name : List ℕ) (mode : Mode) (r : Ret) (b : Block) {t : Fs}
      → IsDir s.blks p b
      → do_create memory p name mode s ≡ returned r t
      → Step s t
  links :
      (store : List ℕ → List Entry → List Entry) (memory memory' : Bool) (p : ℕ)
      (name target : List ℕ) (r : Ret) (b : Block) {t : Fs}
      → IsDir s.blks p b
      → lookup name b.dir ≡ none
      → symlink_in store memory memory' p name target s ≡ returned r t
      → Step s t
  unlinks :
      (simple : Ret) (p : ℕ) (name : List ℕ) (i : ℕ) (r : Ret) (b bi : Block) {t : Fs}
      → IsDir s.blks p b
      → lookup name b.dir ≡ some i
      → get_elem? s.blks i ≡ some bi
      → is_dir bi.mode ≡ false
      → unlink simple p name i s ≡ returned r t
      → Step s t
  removes :
      (simple : Ret) (p : ℕ) (name : List ℕ) (i : ℕ) (r : Ret) (b : Block) {t : Fs}
      → IsDir s.blks p b
      → lookup name b.dir ≡ some i
      → rmdir simple p name i s ≡ returned r t
      → Step s t
  renames :
      (memory : Bool) (simple : Ret) (p : ℕ) (old : List ℕ) (q : ℕ) (new : List ℕ) (r : Ret)
      (b c : Block) {t : Fs}
      → IsDir s.blks p b
      → IsDir s.blks q c
      → rename memory simple p old q new s ≡ returned r t
      → Step s t
  writes :
      (i : ℕ) (d : DirBlock) (b : Block)
      → get_elem? s.blks i ≡ some b
      → is_dir b.mode ≡ false
      → length d.slots ≡ 4
      → Step s (record s { blks = update (set_dir d) i s.blks })

-- Loaded and mounted once, and then used by these operations.
pub data Reach : Fs → Type 0 where
  mounted :
      (registered r : Ret) {s t : Fs}
      → init true registered ≡ returned registered s
      → fill_super true s ≡ returned r t
      → Reach t
  next : {s t : Fs} → Reach s → Step s t → Reach t

pub record Good (s : Fs) : Type 0 where
  pub valid : IsValid s
  pub counted : Counted s

creates-Good :
    (memory : Bool) (p : ℕ) (name : List ℕ) (mode : Mode) (r : Ret) (b : Block) {s t : Fs}
    → Good s
    → IsDir s.blks p b
    → do_create memory p name mode s ≡ returned r t
    → Good t
creates-Good memory p name mode r b {s} {t} g dir h =
    elim (do_create-returned memory p name mode s t r h) [
      | inl same ↦ rw same g
      | inr (fine, c) ↦ record {
        valid = Created-IsValid b g.valid dir c;
        counted = Created-Counted g.counted c;
      }
    ]

Step-Good : {s t : Fs} → Good s → Step s t → Good t
Step-Good g (creates memory p name mode r b dir h) = creates-Good memory p name mode r b g dir h
Step-Good {s} {t} g (links store memory memory' p name target r b dir fresh h) =
    creates-Good memory p name symlink r b g dir
      (symlink_in-do_create store memory memory' p name target b s t r dir fresh h)
Step-Good {s} {t} g (unlinks simple p name i r b bi dir known at_i plain h) = record {
  valid =
      Removed-IsValid b g.valid dir known (unlink-Removed simple p name i b bi r dir at_i plain h);
  counted = unlink-Counted simple p name i s t r g.counted h;
}
Step-Good {s} {t} g (removes simple p name i r b dir known h) = record {
  valid = elim (rmdir-Removed simple p name i b r g.valid dir known h) [
    | inl same ↦ rw same g.valid
    | inr m ↦ Removed-IsValid b g.valid dir known m
  ];
  counted = rmdir-Counted simple p name i s t r g.counted h;
}
Step-Good {s} {t} g (renames memory simple p old q new r b c dir dir' h) = record {
  valid = rename-IsValid memory simple p old q new b c r g.valid dir dir' h;
  counted = Renamed-Counted g.counted (rename-returned memory simple p old q new b s t r dir.at h);
}
Step-Good {s} g (writes i d b at_i plain whole) = record {
  valid = content-IsValid i d b g.valid at_i plain whole;
  counted = content-Counted i d s g.counted;
}

-- The file system that is loaded and mounted.
abbrev fresh_blks : List Block
fresh_blks = zero_block ∷ root_block zero_block ∷ replicate 48 zero_block

fresh_once : (j : ℕ) → expected j (get_elem? fresh_blks j) ≡ 0
fresh_once zero = refl
fresh_once (suc zero) = refl
fresh_once (suc (suc k)) = elim (Option-cases (get_elem? (replicate 48 zero_block) k)) [
  | inl missing ↦ rw missing refl
  | inr (b, at_k) ↦
      let unused : b.used ≡ false = ap (λ c. c.used) (get_elem?-replicate 48 k zero_block b at_k) in
      rw (at_k, unused) (ground arith)
]

zero_block-BlockValid : BlockValid zero_block
zero_block-BlockValid = record { full_buffer = refl; within = λ used dir. omega arith }

fresh_valid : (i : ℕ) (b : Block) → get_elem? fresh_blks i ≡ some b → BlockValid b
fresh_valid zero b h = let same : b ≡ zero_block = ground arith in rw same zero_block-BlockValid
fresh_valid (suc zero) b h =
    let same : b ≡ root_block zero_block = ground arith in
    rw same (record { full_buffer = refl; within = λ used dir. omega arith })
fresh_valid (suc (suc k)) b h = rw (get_elem?-replicate 48 k zero_block b h) zero_block-BlockValid

mounted-Good :
    (registered r : Ret) {s t : Fs}
    → init true registered ≡ returned registered s
    → fill_super true s ≡ returned r t
    → Good t
unfolding init fill_super
mounted-Good registered r {s} {t} loaded filled =
    let result : t
        ≡ record { blks = update root_block 1 (replicate 50 zero_block); used_blks = 1 } =
      ground arith in
    let blks : update root_block 1 (replicate 50 zero_block) ≡ fresh_blks =
      update_second root_block zero_block zero_block (replicate 48 zero_block) in
    let rest = in_use-replicate 48 zero_block refl in
    rw (result, blks)
      (record {
        valid = record {
          full = refl;
          blocks = fresh_valid;
          root = (root_block zero_block, record { at = refl; used = refl; directory = refl });
          once = λ j.
              let none_named : names_of j fresh_blks ≡ 0 = omega (
                arith,
                names_of-cons j zero_block (root_block zero_block ∷ replicate 48 zero_block),
                names_of-cons j (root_block zero_block) (replicate 48 zero_block),
                names_of-replicate j 48 zero_block refl,
              ) in
              none_named ∙ sym (fresh_once j);
        };
        counted = omega (
          arith,
          in_use-cons zero_block (root_block zero_block ∷ replicate 48 zero_block),
          in_use-cons (root_block zero_block) (replicate 48 zero_block),
        );
      })

-- After any sequence of these operations every block in use but the root's is named by exactly one
-- entry of the directories in use and no block that is free is named; and at least as many blocks are
-- counted as are in use.
pub Reach-Good : {s : Fs} → Reach s → Good s
Reach-Good (mounted registered r loaded filled) = mounted-Good registered r loaded filled
Reach-Good (next reach step) = Step-Good (Reach-Good reach) step
