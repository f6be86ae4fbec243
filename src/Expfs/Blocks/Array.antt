-- ===== src/Expfs/Blocks/Array.antt =====
-- expfs.c: the array of blocks, read after a write.
use lkm_practice.Base.{
  ℕ, zero, suc, ◌≡◌, ◌≢◌, refl, ap, true, false, some, List, [], ◌∷◌, arith, get_elem?, length,
  replicate,
}
use lkm_practice.Expfs.Blocks.{Block, update}

module _ (f : Block → Block) where
  pub update_at :
      (i : ℕ) (blks : List Block) (b : Block)
      → get_elem? blks i ≡ some b
      → get_elem? (update f i blks) i ≡ some (f b)
  unfolding update
  update_at i [] b h = absurd (ground arith)
  update_at zero (x ∷ blks) b h = ap (λ b. some (f b)) (ground arith)
  update_at (suc i) (x ∷ blks) b h = update_at i blks b h

  pub update_elsewhere :
      (i j : ℕ) (blks : List Block) → i ≢ j → get_elem? (update f i blks) j ≡ get_elem? blks j
  unfolding update
  update_elsewhere i j [] h = refl
  update_elsewhere zero zero (x ∷ blks) h = absurd (h refl)
  update_elsewhere zero (suc j) (x ∷ blks) h = refl
  update_elsewhere (suc i) zero (x ∷ blks) h = refl
  update_elsewhere (suc i) (suc j) (x ∷ blks) h = update_elsewhere i j blks (λ e. h (ap suc e))

abbrev pub UsedAt : List Block → ℕ → Type 0
UsedAt blks n = (b : Block) × (get_elem? blks n ≡ some b) × (b.used ≡ true)

abbrev pub FreeAt : List Block → ℕ → Type 0
FreeAt blks n = (b : Block) × (get_elem? blks n ≡ some b) × (b.used ≡ false)

pub length-update :
    (f : Block → Block) (i : ℕ) (blks : List Block) → length (update f i blks) ≡ length blks
unfolding update
length-update f i [] = refl
length-update f zero (b ∷ blks) = refl
length-update f (suc i) (b ∷ blks) = ap suc (length-update f i blks)

-- Changes of two blocks go in either order.
pub update_swap :
    (f g : Block → Block) (i j : ℕ) (blks : List Block)
    → i ≢ j
    → update f i (update g j blks) ≡ update g j (update f i blks)
unfolding update
update_swap f g i j [] h = refl
update_swap f g zero zero (b ∷ blks) h = absurd (h refl)
update_swap f g zero (suc j) (b ∷ blks) h = refl
update_swap f g (suc i) zero (b ∷ blks) h = refl
update_swap f g (suc i) (suc j) (b ∷ blks) h =
    ap (λ r. b ∷ r) (update_swap f g i j blks (λ e. h (ap suc e)))

pub update_second :
    (f : Block → Block) (a b : Block) (blks : List Block)
    → update f 1 (a ∷ b ∷ blks) ≡ a ∷ f b ∷ blks
unfolding update
update_second f a b blks = refl

pub get_elem?-replicate : (n i : ℕ) (a b : Block) → get_elem? (replicate n a) i ≡ some b → b ≡ a
get_elem?-replicate zero i a b h = absurd (ground arith)
get_elem?-replicate (suc n) zero a b h = ground arith
get_elem?-replicate (suc n) (suc i) a b h = get_elem?-replicate n i a b h
