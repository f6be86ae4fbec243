-- ===== src/Expfs/Blocks/Shrink.antt =====
-- expfs.c: a removal leaves no name of the block that it frees.
use lkm_practice.Base.{
  ℕ, ◌≡◌, ◌≢◌, refl, sym, ap, ◌∙◌, false, ◌&&◌, none, some, List, [], arith, ◌==◌, ==_iff,
  get_elem?, take, true, Bool-cases, Option-cases, inl, inr, ◌⊎◌, List,
}
use lkm_practice.Kernel.{Errno, Ret, err, ok}
use lkm_practice.Expfs.{lookup}
use lkm_practice.Expfs.Entries.{entries, find, lookup-find}
use lkm_practice.Expfs.Blocks.{
  is_dir, Block, Fs, returned, update, erase_in, free_block, unlink, rmdir,
}
use lkm_practice.Expfs.Blocks.Array.{update_elsewhere, length-update, update_swap}
use lkm_practice.Expfs.Blocks.Count.{in_block, names_of-update}
use lkm_practice.Expfs.Blocks.Valid.{
  expected, IsDir, IsValid, blocks-update, expected-update, expected_keep, IsDir-update,
  in_block-erase, erase_in-BlockValid, named-used, dir-IsValid,
}

-- The blocks once a name is erased from directory p and the block i that it stood for is freed.
removed-IsValid :
    (p i n : ℕ) (name : List ℕ) {s : Fs} (b bi : Block)
    → IsValid s
    → IsDir s.blks p b
    → lookup name b.dir ≡ some i
    → get_elem? s.blks i ≡ some bi
    → i ≢ p
    → ((j : ℕ) → in_block j bi ≡ 0)
    → IsValid
        (record { blks = update free_block i (update (erase_in name) p s.blks); used_blks = n })
removed-IsValid p i n name {s} b bi v dir known at_i apart empty =
    let f = erase_in name in
    let blks = update f p s.blks in
    let (two, bi', at_i', in_use) = named-used name p i b v dir known in
    let bv = v.blocks p b dir.at in
    let at_i'' : get_elem? blks i ≡ some bi =
      update_elsewhere f p i s.blks (λ e. apart (sym e)) ∙ at_i in
    let valid =
      blocks-update f p s.blks b v.blocks dir.at
        (erase_in-BlockValid name b bv dir.used dir.directory) in
    let (rooted, root) =
      IsDir-update 1 f p s.blks v.root.0 b v.root.1 dir.at (λ e. (dir.used, dir.directory)) in
    record {
      full = length-update free_block i blks ∙ length-update f p s.blks ∙ v.full;
      blocks = blocks-update free_block i blks bi valid at_i'' (record {
        full_buffer = (valid i bi at_i'').full_buffer;
        within = λ used d. absurd (ground arith);
      });
      root = IsDir-update 1 free_block i blks rooted bi root at_i'' (λ e. absurd (omega arith));
      once = λ j.
          let one_less = in_block-erase name i j b bv dir.used dir.directory known in
          let expect = expected_keep f p s.blks b j dir.at refl in
          let expect' = expected-update free_block i blks bi j at_i'' in
          let named = names_of-update j f p s.blks b dir.at in
          let named' = names_of-update j free_block i blks bi at_i'' in
          let freed : in_block j (free_block bi) ≡ 0 = refl in
          let before = v.once j in
          let none_there = empty j in
          elim (Bool-cases (i == j)) [
            | inl here ↦
                let number : i ≡ j = (==_iff i j).0 here in
                let at_j : get_elem? s.blks j ≡ some bi' =
                  ap (get_elem? s.blks) (sym number) ∙ at_i' in
                let one : expected j (get_elem? s.blks j) ≡ 1 =
                  ap (expected j) at_j ∙ ground (arith, in_use) in
                let nought : expected j (get_elem? (update free_block i blks) j) ≡ 0 =
                  (rw here at expect') ∙ ground arith in
                omega (arith, rw here at one_less)
            | inr there ↦
                let kept : expected j (get_elem? (update free_block i blks) j)
                    ≡ expected j (get_elem? blks j) =
                  rw there at expect' in
                omega (arith, rw there at one_less)
          ];
    }

-- What a removal that is not refused has done: the block that was freed has no names.
pub record Removed (p : ℕ) (name : List ℕ) (i : ℕ) (s t : Fs) : Type 0 where
  pub bi : Block
  pub at_i : get_elem? s.blks i ≡ some bi
  pub apart : i ≢ p
  pub empty : (is_dir bi.mode ≡ false) ⊎ (entries bi.dir ≡ [])
  pub result : t ≡ record s { blks = update free_block i (update (erase_in name) p s.blks) }

-- A removal, by a name that the directory gives the block, keeps the blocks well formed.
pub Removed-IsValid :
    {p : ℕ} {name : List ℕ} {i : ℕ} {s t : Fs} (b : Block)
    → IsValid s
    → IsDir s.blks p b
    → lookup name b.dir ≡ some i
    → Removed p name i s t
    → IsValid t
Removed-IsValid {p} {name} {i} {s} b v dir known m =
    let nothing : (j : ℕ) → in_block j m.bi ≡ 0 =
      λ j. elim m.empty [ inl plain ↦ ground (arith, plain) | inr bare ↦ ground (arith, bare) ] in
    rw m.result (removed-IsValid p i s.used_blks name b m.bi v dir known m.at_i m.apart nothing)

-- Unlinking what is no directory removes it.
pub unlink-Removed :
    (simple : Ret) (p : ℕ) (name : List ℕ) (i : ℕ) {s t : Fs} (b bi : Block) (r : Ret)
    → IsDir s.blks p b
    → get_elem? s.blks i ≡ some bi
    → is_dir bi.mode ≡ false
    → unlink simple p name i s ≡ returned r t
    → Removed p name i s t
unfolding unlink
unlink-Removed simple p name i {s} {t} b bi r dir at_i plain h = record {
  bi = bi;
  at_i = at_i;
  apart = λ e. absurd (ground (arith, at_i, dir.at, dir.directory, plain));
  empty = inl plain;
  result = ground arith;
}

-- rmdir changes nothing, or removes a directory.
pub rmdir-returned :
    (simple : Ret) (p : ℕ) (name : List ℕ) (i : ℕ) {s t : Fs} (r : Ret)
    → rmdir simple p name i s ≡ returned r t
    → (t ≡ s)
      ⊎ ((bi : Block) × (get_elem? s.blks i ≡ some bi)
          × (is_dir bi.mode ≡ true)
          × (t ≡ record s { blks = update (erase_in name) p (update free_block i s.blks) }))
unfolding rmdir
rmdir-returned simple p name i {s} {t} r h = elim (Option-cases (get_elem? s.blks i)) [
  | inl lost ↦ absurd (ground (arith, lost, h))
  | inr (bi, at_i) ↦ elim (Bool-cases (is_dir bi.mode && (bi.dir.dir_children == 0))) [
    | inr refused ↦ inl (ground (arith, at_i, refused, h))
    | inl empty ↦ inr (bi, at_i, ground (arith, empty), ground (arith, at_i, empty, h))
  ]
]

-- An rmdir that fails, where simple_rmdir does not, changes nothing.
pub rmdir-err :
    (p : ℕ) (name : List ℕ) (i : ℕ) {s t : Fs} (e : Errno)
    → rmdir (ok 0) p name i s ≡ returned (err e) t
    → t ≡ s
unfolding rmdir
rmdir-err p name i e h = ground (arith, h)

-- Removing a directory by a name that its parent gives it removes it if it is empty, and else
-- changes nothing.
pub rmdir-Removed :
    (simple : Ret) (p : ℕ) (name : List ℕ) (i : ℕ) {s t : Fs} (b : Block) (r : Ret)
    → IsValid s
    → IsDir s.blks p b
    → lookup name b.dir ≡ some i
    → rmdir simple p name i s ≡ returned r t
    → (t ≡ s) ⊎ Removed p name i s t
unfolding rmdir
rmdir-Removed simple p name i {s} {t} b r v dir known h =
    let (two, bi, at_i, used) = named-used name p i b v dir known in
    elim (Bool-cases (is_dir bi.mode && (bi.dir.dir_children == 0))) [
      | inr refused ↦ inl (ground (arith, at_i, refused))
      | inl empty ↦
          let bare : bi.dir.dir_children ≡ 0 = ground (arith, empty) in
          let nothing : entries bi.dir ≡ [] = ap (λ n. take n bi.dir.slots) bare in
          let found : find name (entries b.dir) ≡ some i =
            sym (lookup-find name (dir-IsValid b (v.blocks p b dir.at) dir.used dir.directory))
            ∙ known in
          let apart : i ≢ p = λ e.
            let at_p : get_elem? s.blks p ≡ some bi = ap (get_elem? s.blks) (sym e) ∙ at_i in
            let same : bi ≡ b = ground (arith, at_p, dir.at) in
            let missed : find name (entries b.dir) ≡ none =
              ap (λ c. find name (entries c.dir)) (sym same) ∙ ap (find name) nothing in
            absurd (ground (arith, found, missed)) in
          inr (record {
            bi = bi;
            at_i = at_i;
            apart = apart;
            empty = inr nothing;
            result =
                ground (arith, at_i, empty)
                ∙ ap (λ l. record s { blks = l })
                    (sym (update_swap free_block (erase_in name) i p s.blks apart));
          })
    ]
