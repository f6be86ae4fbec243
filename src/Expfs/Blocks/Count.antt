-- ===== src/Expfs/Blocks/Count.antt =====
-- expfs.c: how often a block is named by the directories in use.
use lkm_practice.Base.{
  ℕ, zero, suc, ◌+◌, ◌≤◌, ◌<◌, ◌≡◌, refl, ◌&&◌, some, List, [], ◌∷◌, ◌++◌, arith, ◌==◌,
  if◌then◌else◌, get_elem?, replicate, Bool-cases, inl, inr,
}
use lkm_practice.Kernel.{strcmp_eq}
use lkm_practice.Expfs.{Entry}
use lkm_practice.Expfs.Entries.{entries, find, delete}
use lkm_practice.Expfs.Blocks.{Block, is_dir, update}

-- Among entries, those of an inode number; among blocks, those of the directories in use.
abbrev pub count : ℕ → List Entry → ℕ
count j [] = 0
count j (e ∷ es) = (if e.index == j then 1 else 0) + count j es

abbrev pub in_block : ℕ → Block → ℕ
in_block j b = if b.used && is_dir b.mode then count j (entries b.dir) else 0

pub names_of : ℕ → List Block → ℕ
names_of j [] = 0
names_of j (b ∷ blks) = in_block j b + names_of j blks

module _ (j : ℕ) where
  pub count-append : (es fs : List Entry) → count j (es ++ fs) ≡ count j es + count j fs
  count-append [] fs = omega arith
  count-append (e ∷ es) fs = omega (arith, count-append es fs)

  pub count-delete :
      (name : List ℕ) (i : ℕ) (es : List Entry)
      → find name es ≡ some i
      → count j (delete name es) + (if i == j then 1 else 0) ≡ count j es
  count-delete name i [] h = absurd (ground arith)
  count-delete name i (e ∷ es) h = elim (Bool-cases (strcmp_eq e.name name)) [
    | inl same ↦ let this : e.index ≡ i = ground (arith, same) in rw (same, this) (omega arith)
    | inr other ↦
        let later : find name es ≡ some i = ground (arith, other) in
        rw other (omega (arith, count-delete name i es later))
  ]

  pub names_of-update :
      (f : Block → Block) (i : ℕ) (blks : List Block) (b : Block)
      → get_elem? blks i ≡ some b
      → names_of j (update f i blks) + in_block j b ≡ names_of j blks + in_block j (f b)
  unfolding names_of update
  names_of-update f i [] b h = absurd (ground arith)
  names_of-update f zero (x ∷ blks) b h = let this : x ≡ b = ground arith in rw this (omega arith)
  names_of-update f (suc i) (x ∷ blks) b h = omega (arith, names_of-update f i blks b h)

  pub in_block-le-names_of :
      (i : ℕ) (blks : List Block) (b : Block)
      → get_elem? blks i ≡ some b
      → in_block j b ≤ names_of j blks
  unfolding names_of
  in_block-le-names_of i [] b h = absurd (ground arith)
  in_block-le-names_of zero (x ∷ blks) b h =
      let this : x ≡ b = ground arith in rw this (omega arith)
  in_block-le-names_of (suc i) (x ∷ blks) b h = omega (arith, in_block-le-names_of i blks b h)

-- A name that is found is counted.
pub count-found : (name : List ℕ) (i : ℕ) (es : List Entry) → find name es ≡ some i → 0 < count i es
count-found name i es h = ground (arith, count-delete i name i es h)

pub names_of-replicate : (j n : ℕ) (b : Block) → in_block j b ≡ 0 → names_of j (replicate n b) ≡ 0
unfolding names_of
names_of-replicate j zero b h = refl
names_of-replicate j (suc n) b h = omega (arith, names_of-replicate j n b h)

pub names_of-cons :
    (j : ℕ) (b : Block) (blks : List Block) → names_of j (b ∷ blks) ≡ in_block j b + names_of j blks
unfolding names_of
names_of-cons j b blks = refl
