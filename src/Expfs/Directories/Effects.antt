-- ===== src/Expfs/Directories/Effects.antt =====
-- expfs.c: what creating, removing and renaming do to the directories as lists of names.
use lkm_practice.Base.{
  ℕ, ◌≡◌, ◌≢◌, refl, sym, ap, ◌∙◌, false, some, List, [], ◌∷◌, ◌++◌, arith, get_elem?,
}
use lkm_practice.Expfs.{DirBlock, Entry, add_entry}
use lkm_practice.Expfs.Entries.{entries, delete, erase_entry-delete, add_entry-some}
use lkm_practice.Expfs.Blocks.{
  Mode, directory, regular, symlink, other, Block, Fs, update, erase_in, free_block, fill_block,
  set_dir,
}
use lkm_practice.Expfs.Blocks.Array.{update_elsewhere}
use lkm_practice.Expfs.Blocks.Valid.{
  BlockValid, IsDir, IsValid, dir-IsValid, blocks-update, IsDir-update, erase_in-BlockValid,
}
use lkm_practice.Expfs.Blocks.Create.{getblock-first}
use lkm_practice.Expfs.Blocks.Grow.{Created}
use lkm_practice.Expfs.Blocks.Rename.{Renamed}
use lkm_practice.Expfs.Directories.{
  dir_names, names, put, with_name, without_name, names_at, names-update, names_keep,
}

-- Replacing the same directory of directories that are the same.
put_same :
    (m m' : ℕ → List Entry) {es es' : List Entry} (p q : ℕ)
    → m q ≡ m' q
    → es ≡ es'
    → put m p es q ≡ put m' p es' q
put_same m m' p q same same' = ground (arith, same, same')

-- An entry is added to a directory in use.
pub names-set_dir :
    (name : List ℕ) (idx p : ℕ) (blks : List Block) (b : Block) (d : DirBlock)
    → BlockValid b
    → IsDir blks p b
    → add_entry name idx b.dir ≡ some d
    → (q : ℕ) → names (update (set_dir d) p blks) q ≡ with_name (names blks) p name idx q
names-set_dir name idx p blks b d v dir added q =
    let (appended, v') = add_entry-some name idx (dir-IsValid b v dir.used dir.directory) added in
    let old : names blks p ≡ entries b.dir =
      names_at blks p b dir.at ∙ rw (dir.used, dir.directory) refl in
    let new : dir_names (set_dir d b) ≡ names blks p ++ record { name = name; index = idx } ∷ [] =
      rw (dir.used, dir.directory, old) appended in
    names-update (set_dir d) p blks b dir.at q ∙ ap (λ es. put (names blks) p es q) new

-- A name is erased from a directory in use.
pub names-erase_in :
    (name : List ℕ) (p : ℕ) (blks : List Block) (b : Block)
    → BlockValid b
    → IsDir blks p b
    → (q : ℕ) → names (update (erase_in name) p blks) q ≡ without_name (names blks) p name q
names-erase_in name p blks b v dir q =
    let (deleted, v') = erase_entry-delete name (dir-IsValid b v dir.used dir.directory) in
    let old : names blks p ≡ entries b.dir =
      names_at blks p b dir.at ∙ rw (dir.used, dir.directory) refl in
    let new : dir_names (erase_in name b) ≡ delete name (names blks p) =
      rw (dir.used, dir.directory, old) deleted in
    names-update (erase_in name) p blks b dir.at q ∙ ap (λ es. put (names blks) p es q) new

-- A new block has no names, and a block that is not in use has none either.
dir_names-fill_block : (mode : Mode) (idx : ℕ) (b : Block) → dir_names (fill_block mode idx b) ≡ []
dir_names-fill_block directory idx b = refl
dir_names-fill_block regular idx b = refl
dir_names-fill_block symlink idx b = refl
dir_names-fill_block other idx b = refl

dir_names_unused : (b : Block) → b.used ≡ false → dir_names b ≡ []
dir_names_unused b h = rw h refl

-- What creation does to the directories: one name more, for a block that was free.
pub Created-names :
    {p : ℕ} {name : List ℕ} {mode : Mode} {s t : Fs} (b : Block)
    → IsValid s
    → IsDir s.blks p b
    → (c : Created p name mode s t) → (q : ℕ)
    → names t.blks q ≡ with_name (names s.blks) p name c.idx q
Created-names {p} {name} {mode} {s} {t} b v dir c q =
    let (two, fifty, (old, at_idx, unused), before) = getblock-first s.blks c.idx c.free_one in
    let fill = fill_block mode c.idx in
    let blks = update fill c.idx s.blks in
    let apart : c.idx ≢ p = λ e. absurd (ground (arith, dir.at, dir.used, at_idx, unused)) in
    let at_p : get_elem? blks p ≡ some b = update_elsewhere fill c.idx p s.blks apart ∙ dir.at in
    let same : c.pblk ≡ b = ground (arith, at_p, c.at_p) in
    let added : add_entry name c.idx b.dir ≡ some c.dir =
      ap (λ x. add_entry name c.idx x.dir) (sym same) ∙ c.added in
    let kept =
      names_keep fill c.idx s.blks old at_idx
        (dir_names-fill_block mode c.idx old ∙ sym (dir_names_unused old unused)) in
    let result : t.blks ≡ update (set_dir c.dir) p blks = ap (λ x. x.blks) c.result in
    let step =
      names-set_dir name c.idx p blks b c.dir (v.blocks p b dir.at)
        (record { at = at_p; used = dir.used; directory = dir.directory }) added q in
    ap (λ l. names l q) result
    ∙ step
    ∙ put_same (names blks) (names s.blks) p q (kept q)
        (ap (λ l. l ++ record { name = name; index = c.idx } ∷ []) (kept p))

-- What a removal does: a name less.
pub removed-names :
    (p i : ℕ) (name : List ℕ) (blks : List Block) (b bi : Block)
    → BlockValid b
    → IsDir blks p b
    → get_elem? blks i ≡ some bi
    → i ≢ p
    → dir_names bi ≡ []
    → (q : ℕ)
    → names (update free_block i (update (erase_in name) p blks)) q
      ≡ without_name (names blks) p name q
removed-names p i name blks b bi v dir at_i apart nothing q =
    let erased = update (erase_in name) p blks in
    let at_i' : get_elem? erased i ≡ some bi =
      update_elsewhere (erase_in name) p i blks (λ e. apart (sym e)) ∙ at_i in
    names_keep free_block i erased bi at_i' (dir_names_unused (free_block bi) refl ∙ sym nothing) q
    ∙ names-erase_in name p blks b v dir q

-- What a rename does: a name less, and then a name more with the same number.
pub Renamed-names :
    {p : ℕ} {old : List ℕ} {q : ℕ} {new : List ℕ} {s t : Fs} (b c : Block)
    → IsValid s
    → IsDir s.blks p b
    → IsDir s.blks q c
    → (m : Renamed p old q new b s t) → (r : ℕ)
    → names t.blks r ≡ with_name (without_name (names s.blks) p old) q new m.ino r
Renamed-names {p} {old} {q} {new} {s} {t} b c v dir dir' m r =
    let f = erase_in old in
    let blks = update f p s.blks in
    let bv = v.blocks p b dir.at in
    let valid =
      blocks-update f p s.blks b v.blocks dir.at
        (erase_in-BlockValid old b bv dir.used dir.directory) in
    let (c', qdir) = IsDir-update q f p s.blks c b dir' dir.at (λ e. (dir.used, dir.directory)) in
    let same : m.qblk ≡ c' = ground (arith, m.at_q, qdir.at) in
    let added : add_entry new m.ino c'.dir ≡ some m.dir =
      ap (λ x. add_entry new m.ino x.dir) (sym same) ∙ m.added in
    let erased = names-erase_in old p s.blks b bv dir in
    let result : t.blks ≡ update (set_dir m.dir) q blks = ap (λ x. x.blks) m.result in
    let step = names-set_dir new m.ino q blks c' m.dir (valid q c' qdir.at) qdir added r in
    ap (λ l. names l r) result
    ∙ step
    ∙ put_same (names blks) (without_name (names s.blks) p old) q r (erased r)
        (ap (λ l. l ++ record { name = new; index = m.ino } ∷ []) (erased q))
