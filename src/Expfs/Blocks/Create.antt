-- ===== src/Expfs/Blocks/Create.antt =====
-- expfs.c: free blocks, and a file that is created and removed again.
use lkm_practice.Base.{
  ℕ, zero, suc, ◌+◌, ◌-◌, ◌≤◌, ◌<◌, ◌≡◌, ◌≢◌, refl, sym, ap, ◌∙◌, true, false, none, some, List,
  ◌∷◌, arith, leb, get_elem?, length, Bool-cases, Option-cases, inl, inr, dec_lt,
}
use lkm_practice.Kernel.{ok}
use lkm_practice.Expfs.{lookup}
use lkm_practice.Expfs.Entries
use lkm_practice.Expfs.Entries.{entries}
use lkm_practice.Expfs.Names.{create-lookup-erase}
use lkm_practice.Expfs.Blocks.Array.{update_at, update_elsewhere, UsedAt, FreeAt}
use lkm_practice.Expfs.Blocks.{
  regular, Block, Fs, returned, first_free, getblock, update, fill_block, set_dir, erase_in,
  free_block, do_create, unlink, max_file,
}

first_free-some :
    (left i : ℕ) (blks : List Block) (j : ℕ)
    → first_free left i blks ≡ some j
    → (i ≤ j) × (j < i + left) × FreeAt blks j × ((n : ℕ) → i ≤ n → n < j → UsedAt blks n)
unfolding first_free
first_free-some zero i blks j found = absurd (ground arith)
first_free-some (suc left) i blks j found = elim (Option-cases (get_elem? blks i)) [
  | inl missing ↦ absurd (ground (arith, missing))
  | inr (b, at_i) ↦ elim (Bool-cases b.used) [
    | inr free ↦
        let here : j ≡ i = ground (arith, at_i, free) in
        rw here (omega arith, omega arith, (b, at_i, free), λ n above below. absurd (omega arith))
    | inl taken ↦
        let (above, below, there, before) =
          first_free-some left (i + 1) blks j (ground (arith, at_i, taken)) in
        (
          omega arith,
          omega arith,
          there,
          λ n from to. elim (dec_lt i n) [
            | yes later ↦ before n (omega arith) to
            | no this ↦ let same : n ≡ i = omega arith in rw same (b, at_i, taken)
          ],
        )
  ]
]

-- The block that getblock finds is free, is none of the first two, and no free block but those
-- comes before it.
pub getblock-first :
    (blks : List Block) (j : ℕ)
    → getblock blks ≡ some j
    → (2 ≤ j) × (j < 50) × FreeAt blks j × ((n : ℕ) → 2 ≤ n → n < j → UsedAt blks n)
getblock-first blks j found = first_free-some (max_file - 2) 2 blks j found

-- In a directory in use with room, a new regular file with a new name of less than 50 bytes can be
-- created while fewer than fifty blocks are counted and one is free, and can be unlinked. Then the
-- directory has the entries it had, the file's block is free, and the other blocks are as they were;
-- but one block more is counted.
pub do_create-unlink :
    (p : ℕ) (name : List ℕ) (idx : ℕ) (pblk : Block) (fs : Fs)
    → fs.used_blks < 50
    → getblock fs.blks ≡ some idx
    → get_elem? fs.blks p ≡ some pblk
    → pblk.used ≡ true
    → Entries.IsValid pblk.dir
    → pblk.dir.dir_children < 4
    → length name < 50
    → lookup name pblk.dir ≡ none
    → (fs' fs'' : Fs) × (do_create true p name regular fs ≡ returned (ok 0) fs')
      × (unlink (ok 0) p name idx fs' ≡ returned (ok 0) fs'')
      × (pblk'' : Block) × (get_elem? fs''.blks p ≡ some pblk'')
      × (entries pblk''.dir ≡ entries pblk.dir)
      × FreeAt fs''.blks idx
      × ((j : ℕ) → p ≢ j → idx ≢ j → get_elem? fs''.blks j ≡ get_elem? fs.blks j)
      × (fs''.used_blks ≡ fs.used_blks + 1)
unfolding do_create unlink
do_create-unlink p name idx pblk fs few free_one at_p in_use v room short fresh =
    let (two, fifty, (old, at_idx, unused), before) = getblock-first fs.blks idx free_one in
    let apart : idx ≢ p = λ e. absurd (ground (arith, at_idx, at_p)) in
    let blks = update (fill_block regular idx) idx fs.blks in
    let there : get_elem? blks p ≡ some pblk =
      update_elsewhere (fill_block regular idx) idx p fs.blks apart ∙ at_p in
    let (d, added, v', found, others, back) =
      create-lookup-erase name (0 ∷ name) idx v room short fresh
        (λ e. absurd (omega (arith, ap length e))) in
    let blks' = update (set_dir d) p blks in
    let blks'' = update free_block idx (update (erase_in name) p blks') in
    let with_entry : Block = set_dir d pblk in
    let filled : Block = fill_block regular idx old in
    let apart' : p ≢ idx = λ e. apart (sym e) in
    let countable : leb max_file fs.used_blks ≡ false = ground arith in
    let fs' : Fs = record { blks = blks'; used_blks = fs.used_blks + 1 } in
    (
      fs',
      record fs' { blks = blks'' },
      rw (countable, free_one, there, added) refl,
      refl,
      erase_in name with_entry,
      update_elsewhere free_block idx p (update (erase_in name) p blks') apart
          ∙ update_at (erase_in name) p blks' with_entry (update_at (set_dir d) p blks pblk there),
      back,
      (
        free_block filled,
        update_at free_block idx (update (erase_in name) p blks') filled (
            update_elsewhere (erase_in name) p idx blks' apart'
            ∙ update_elsewhere (set_dir d) p idx blks apart'
            ∙ update_at (fill_block regular idx) idx fs.blks old at_idx),
        refl,
      ),
      λ j not_p not_idx.
          update_elsewhere free_block idx j (update (erase_in name) p blks') not_idx
          ∙ update_elsewhere (erase_in name) p j blks' not_p
          ∙ update_elsewhere (set_dir d) p j blks not_p
          ∙ update_elsewhere (fill_block regular idx) idx j fs.blks not_idx,
      refl,
    )
