-- ===== src/Expfs/Blocks/Rename.antt =====
-- expfs.c: renaming moves a name, and what it does to a name that exists.
use lkm_practice.Base.{
  ℕ, ◌≡◌, ◌≢◌, refl, sym, ap, ◌∙◌, Bool, true, not, some, List, arith, ◌==◌, ==_iff, get_elem?,
  Bool-cases, Option-cases, inl, inr,
}
use lkm_practice.Kernel.{Ret}
use mathlib.Core.Option.{or_else}
use lkm_practice.Expfs.Names.{find-append_last, find-delete_other}
use lkm_practice.Expfs.{DirBlock, lookup, add_entry}
use lkm_practice.Expfs.Entries.{entries, find, lookup-find, add_entry-some, erase_entry-delete}
use lkm_practice.Expfs.Blocks.{is_dir, Block, Fs, returned, update, erase_in, set_dir, rename}
use lkm_practice.Expfs.Blocks.Array.{update_at, update_elsewhere, length-update}
use lkm_practice.Expfs.Blocks.Count.{names_of-update}
use lkm_practice.Expfs.Blocks.Valid.{
  IsDir, IsValid, blocks-update, expected_keep, IsDir-update, in_block-erase, in_block-add,
  erase_in-BlockValid, set_dir-BlockValid, dir-IsValid,
}

-- What a rename that returns has done.
pub record Renamed (p : ℕ) (old : List ℕ) (q : ℕ) (new : List ℕ) (pblk : Block) (s t : Fs)
    : Type 0 where
  pub ino : ℕ
  pub known : lookup old pblk.dir ≡ some ino
  pub qblk : Block
  pub at_q : get_elem? (update (erase_in old) p s.blks) q ≡ some qblk
  pub dir : DirBlock
  pub added : add_entry new ino qblk.dir ≡ some dir
  pub result : t ≡ record s { blks = update (set_dir dir) q (update (erase_in old) p s.blks) }

pub rename-returned :
    (memory : Bool) (simple : Ret) (p : ℕ) (old : List ℕ) (q : ℕ) (new : List ℕ) (pblk : Block)
    (s t : Fs) (r : Ret)
    → get_elem? s.blks p ≡ some pblk
    → rename memory simple p old q new s ≡ returned r t
    → Renamed p old q new pblk s t
unfolding rename
rename-returned memory simple p old q new pblk s t r at_p h =
    elim (Option-cases (lookup old pblk.dir)) [
      | inl missing ↦ absurd (ground (arith, at_p, missing))
      | inr (ino, known) ↦ elim (Bool-cases (not memory)) [
        | inl poor ↦ absurd (ground (arith, at_p, known, poor))
        | inr rich ↦ elim (Option-cases (get_elem? (update (erase_in old) p s.blks) q)) [
          | inl lost ↦ absurd (ground (arith, at_p, known, rich, lost))
          | inr (qblk, at_q) ↦ elim (Option-cases (add_entry new ino qblk.dir)) [
            | inl full ↦ absurd (ground (arith, at_p, known, rich, at_q, full))
            | inr (dir, added) ↦ record {
              ino = ino;
              known = known;
              qblk = qblk;
              at_q = at_q;
              dir = dir;
              added = added;
              result = ground (arith, at_p, known, rich, at_q, added);
            }
          ]
        ]
      ]
    ]

-- A rename between directories in use, or within one, keeps the blocks well formed.
pub rename-IsValid :
    (memory : Bool) (simple : Ret) (p : ℕ) (old : List ℕ) (q : ℕ) (new : List ℕ) {s t : Fs}
    (b c : Block) (r : Ret)
    → IsValid s
    → IsDir s.blks p b
    → IsDir s.blks q c
    → rename memory simple p old q new s ≡ returned r t
    → IsValid t
rename-IsValid memory simple p old q new {s} {t} b c r v pdir qdir h =
    let m = rename-returned memory simple p old q new b s t r pdir.at h in
    let f = erase_in old in
    let blks = update f p s.blks in
    let bv = v.blocks p b pdir.at in
    let valid =
      blocks-update f p s.blks b v.blocks pdir.at
        (erase_in-BlockValid old b bv pdir.used pdir.directory) in
    let (rooted, root) =
      IsDir-update 1 f p s.blks v.root.0 b v.root.1 pdir.at (λ e. (pdir.used, pdir.directory)) in
    let (c', qdir') =
      IsDir-update q f p s.blks c b qdir pdir.at (λ e. (pdir.used, pdir.directory)) in
    let same : m.qblk ≡ c' = ground (arith, m.at_q, qdir'.at) in
    let used : m.qblk.used ≡ true = ap (λ x. x.used) same ∙ qdir'.used in
    let dir : is_dir m.qblk.mode ≡ true = ap (λ x. is_dir x.mode) same ∙ qdir'.directory in
    let qv = valid q m.qblk m.at_q in
    rw m.result (record {
      full = length-update (set_dir m.dir) q blks ∙ length-update f p s.blks ∙ v.full;
      blocks =
          blocks-update (set_dir m.dir) q blks m.qblk valid m.at_q
            (set_dir-BlockValid new m.ino m.qblk m.dir qv used dir m.added);
      root = IsDir-update 1 (set_dir m.dir) q blks rooted m.qblk root m.at_q (λ e. (used, dir));
      once = λ j.
          let one_less = in_block-erase old m.ino j b bv pdir.used pdir.directory m.known in
          let one_more = in_block-add new m.ino j m.qblk m.dir qv used dir m.added in
          let named = names_of-update j f p s.blks b pdir.at in
          let named' = names_of-update j (set_dir m.dir) q blks m.qblk m.at_q in
          let expect = expected_keep f p s.blks b j pdir.at refl in
          let expect' = expected_keep (set_dir m.dir) q blks m.qblk j m.at_q refl in
          omega (arith, v.once j);
    })

-- After a rename that is not one of a name to itself, the new name is found in its directory: at the
-- number the old name had, if the directory did not have the new name; and else where it was found
-- before, so that the file that should have been replaced is still the one that the name finds.
pub rename-lookup :
    (memory : Bool) (simple : Ret) (p : ℕ) (old : List ℕ) (q : ℕ) (new : List ℕ) {s t : Fs}
    (b c : Block) (r : Ret)
    → IsValid s
    → IsDir s.blks p b
    → IsDir s.blks q c
    → (p ≡ q → old ≢ new)
    → rename memory simple p old q new s ≡ returned r t
    → (c' : Block) × IsDir t.blks q c'
      × (lookup new c'.dir ≡ or_else (lookup new c.dir) (lookup old b.dir))
rename-lookup memory simple p old q new {s} {t} b c r v pdir qdir proper h =
    let m = rename-returned memory simple p old q new b s t r pdir.at h in
    let f = erase_in old in
    let blks = update f p s.blks in
    let bv = v.blocks p b pdir.at in
    let valid =
      blocks-update f p s.blks b v.blocks pdir.at
        (erase_in-BlockValid old b bv pdir.used pdir.directory) in
    let (c', qdir') =
      IsDir-update q f p s.blks c b qdir pdir.at (λ e. (pdir.used, pdir.directory)) in
    let same : m.qblk ≡ c' = ground (arith, m.at_q, qdir'.at) in
    let used : m.qblk.used ≡ true = ap (λ x. x.used) same ∙ qdir'.used in
    let dir : is_dir m.qblk.mode ≡ true = ap (λ x. is_dir x.mode) same ∙ qdir'.directory in
    let qvalid = dir-IsValid m.qblk (valid q m.qblk m.at_q) used dir in
    let (appended, v') = add_entry-some new m.ino qvalid m.added in
    let cvalid = dir-IsValid c (v.blocks q c qdir.at) qdir.used qdir.directory in
    let before : find new (entries m.qblk.dir) ≡ lookup new c.dir = elim (Bool-cases (p == q)) [
      | inl here ↦
          let e : p ≡ q = (==_iff p q).0 here in
          let bvalid = dir-IsValid b bv pdir.used pdir.directory in
          let erased : get_elem? blks q ≡ some (f b) =
            ap (get_elem? blks) (sym e) ∙ update_at f p s.blks b pdir.at in
          let at_q : get_elem? s.blks q ≡ some b = ap (get_elem? s.blks) (sym e) ∙ pdir.at in
          let left : m.qblk ≡ f b = ground (arith, m.at_q, erased) in
          let one : b ≡ c = ground (arith, at_q, qdir.at) in
          ap (λ x. find new (entries x.dir)) left
          ∙ ap (find new) (erase_entry-delete old bvalid).0
          ∙ find-delete_other old new (entries b.dir) (proper e)
          ∙ sym (lookup-find new bvalid)
          ∙ ap (λ x. lookup new x.dir) one
      | inr there ↦
          let apart : p ≢ q = ground (arith, ==_iff p q) in
          let left : m.qblk ≡ c =
            ground (arith, m.at_q, update_elsewhere f p q s.blks apart, qdir.at) in
          ap (λ x. find new (entries x.dir)) left ∙ sym (lookup-find new cvalid)
    ] in
    (
      set_dir m.dir m.qblk,
      record {
        at = ap (λ x. get_elem? x.blks q) m.result ∙ update_at (set_dir m.dir) q blks m.qblk m.at_q;
        used = used;
        directory = dir;
      },
      lookup-find new v'
          ∙ ap (find new) appended
          ∙ find-append_last new m.ino (entries m.qblk.dir)
          ∙ ap (λ o. or_else o (some m.ino)) before
          ∙ ap (or_else (lookup new c.dir)) (sym m.known),
    )
