-- ===== src/Expfs/Blocks/Room.antt =====
-- expfs.c: blocks in use, and when there is a block for a new file.
use lkm_practice.Base.{
  ℕ, zero, suc, ◌+◌, ◌≤◌, ◌≡◌, refl, ap, Bool, true, false, some, List, [], ◌∷◌, arith, get_elem?,
  replicate,
}
use lkm_practice.Expfs.Blocks.{Block, update}

abbrev pub bit : Bool → ℕ
bit true = 1
bit false = 0

-- How many blocks are in use.
pub in_use : List Block → ℕ
in_use [] = 0
in_use (b ∷ blks) = bit b.used + in_use blks

pub in_use-update :
    (f : Block → Block) (i : ℕ) (blks : List Block) (b : Block)
    → get_elem? blks i ≡ some b
    → in_use (update f i blks) + bit b.used ≡ in_use blks + bit (f b).used
unfolding in_use update
in_use-update f i [] b h = absurd (ground arith)
in_use-update f zero (x ∷ blks) b h = let this : x ≡ b = ground arith in rw this (omega arith)
in_use-update f (suc i) (x ∷ blks) b h = omega (arith, in_use-update f i blks b h)

-- A change that does not take a block into use adds none.
pub in_use-update-le :
    (f : Block → Block) (i : ℕ) (blks : List Block)
    → ((b : Block) → bit (f b).used ≤ bit b.used)
    → in_use (update f i blks) ≤ in_use blks
unfolding in_use update
in_use-update-le f i [] less = omega arith
in_use-update-le f zero (b ∷ blks) less = omega (arith, less b)
in_use-update-le f (suc i) (b ∷ blks) less = omega (arith, in_use-update-le f i blks less)

pub in_use-replicate : (n : ℕ) (b : Block) → b.used ≡ false → in_use (replicate n b) ≡ 0
unfolding in_use
in_use-replicate zero b h = refl
in_use-replicate (suc n) b h = omega (arith, ap bit h, in_use-replicate n b h)

pub in_use-cons : (b : Block) (blks : List Block) → in_use (b ∷ blks) ≡ bit b.used + in_use blks
unfolding in_use
in_use-cons b blks = refl
