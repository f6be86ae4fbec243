-- ===== src/Expfs/Directories/Refine.antt =====
-- expfs.c: the operations on a mounted file system, as changes of lists of names.
use lkm_practice.Base.{ℕ, ◌≡◌, refl, sym, ap, ◌∙◌, Bool, some, List, [], arith, inl, inr, ◌⊎◌}
use lkm_practice.Kernel.{Ret}
use lkm_practice.Expfs.{Entry, lookup}
use lkm_practice.Expfs.Entries.{entries, find, lookup-find}
use lkm_practice.Expfs.Blocks.{Mode, symlink, Block, Fs, returned, do_create, set_dir}
use lkm_practice.Expfs.Blocks.Array.{FreeAt}
use lkm_practice.Expfs.Blocks.Valid.{IsDir, IsValid, dir-IsValid}
use lkm_practice.Expfs.Blocks.Create.{getblock-first}
use lkm_practice.Expfs.Blocks.Grow.{do_create-returned}
use lkm_practice.Expfs.Blocks.Shrink.{Removed, unlink-Removed, rmdir-Removed}
use lkm_practice.Expfs.Blocks.Rename.{rename-returned}
use lkm_practice.Expfs.Blocks.Symlink.{symlink_in-do_create}
use lkm_practice.Expfs.Tree.{
  Step, creates, links, unlinks, removes, renames, writes, Reach, Reach-Good,
}
use lkm_practice.Expfs.Directories.{dir_names, names, with_name, without_name, names_at, names_keep}
use lkm_practice.Expfs.Directories.Effects.{Created-names, removed-names, Renamed-names}

-- Each directory has the names that `m` says.
abbrev pub Shows : Fs → (ℕ → List Entry) → Type 0
Shows t m = (q : ℕ) → names t.blks q ≡ m q

-- A name was added to directory `p` for a block that was free.
abbrev pub Named : ℕ → List ℕ → Fs → Fs → Type 0
Named p name s t = (idx : ℕ) × FreeAt s.blks idx × Shows t (with_name (names s.blks) p name idx)

-- What a user sees of an operation, by its arguments.
abbrev pub Effect : {s t : Fs} → Step s t → Type 0
Effect {s} {t} (creates memory p name mode r b dir h) = (t ≡ s) ⊎ Named p name s t
Effect {s} {t} (links store memory memory' p name target r b dir fresh h) =
    (t ≡ s) ⊎ Named p name s t
Effect {s} {t} (unlinks simple p name i r b bi dir known at_i plain h) =
    Shows t (without_name (names s.blks) p name)
Effect {s} {t} (removes simple p name i r b dir known h) =
    (t ≡ s) ⊎ Shows t (without_name (names s.blks) p name)
Effect {s} {t} (renames memory simple p old q new r b c dir dir' h) =
    (ino : ℕ) × (find old (names s.blks p) ≡ some ino)
    × Shows t (with_name (without_name (names s.blks) p old) q new ino)
Effect {s} {t} (writes i d b at_i plain whole) = Shows t (names s.blks)

created-Effect :
    (memory : Bool) (p : ℕ) (name : List ℕ) (mode : Mode) (r : Ret) (b : Block) {s t : Fs}
    → IsValid s
    → IsDir s.blks p b
    → do_create memory p name mode s ≡ returned r t
    → (t ≡ s) ⊎ Named p name s t
created-Effect memory p name mode r b {s} {t} v dir h =
    elim (do_create-returned memory p name mode s t r h) [
      | inl same ↦ inl same
      | inr (fine, c) ↦
          let (two, fifty, free, before) = getblock-first s.blks c.idx c.free_one in
          inr (c.idx, free, Created-names b v dir c)
    ]

Removed-Shows :
    {p : ℕ} {name : List ℕ} {i : ℕ} {s t : Fs} (b : Block)
    → IsValid s
    → IsDir s.blks p b
    → Removed p name i s t
    → Shows t (without_name (names s.blks) p name)
Removed-Shows {p} {name} {i} {s} b v dir m q =
    let nothing : dir_names m.bi ≡ [] = elim m.empty [
      | inl plain ↦ ground (arith, plain)
      | inr bare ↦ ground (arith, bare)
    ] in
    ap (λ x. names x.blks q) m.result
    ∙ removed-names p i name s.blks b m.bi (v.blocks p b dir.at) dir m.at_i m.apart nothing q

-- A name of a directory in use is found in its list where lookup finds it.
pub find_in_names :
    (name : List ℕ) (p : ℕ) {s : Fs} (b : Block)
    → IsValid s
    → IsDir s.blks p b
    → find name (names s.blks p) ≡ lookup name b.dir
find_in_names name p {s} b v dir =
    let here : names s.blks p ≡ entries b.dir =
      names_at s.blks p b dir.at ∙ rw (dir.used, dir.directory) refl in
    ap (find name) here
    ∙ sym (lookup-find name (dir-IsValid b (v.blocks p b dir.at) dir.used dir.directory))

pub found_in_names :
    (name : List ℕ) (p i : ℕ) {s : Fs} (b : Block)
    → IsValid s
    → IsDir s.blks p b
    → lookup name b.dir ≡ some i
    → find name (names s.blks p) ≡ some i
found_in_names name p i {s} b v dir known = find_in_names name p b v dir ∙ known

-- In every state that the operations of Expfs/Tree lead to, seen as directories that are lists of names
-- with numbers, each operation that returns does what its arguments say and changes no other list: a
-- creation, of a symbolic link too, does nothing or adds the name at the end, with the number of a
-- block that was free; unlink, and rmdir unless it does nothing, take the name's first entry out; a
-- rename takes the old name out and adds the new one with its number; a write changes no name.
pub Step-Effect : {s t : Fs} → Reach s → (step : Step s t) → Effect step
Step-Effect reach (creates memory p name mode r b dir h) =
    created-Effect memory p name mode r b (Reach-Good reach).valid dir h
Step-Effect {s} {t} reach (links store memory memory' p name target r b dir fresh h) =
    created-Effect memory p name symlink r b (Reach-Good reach).valid dir
      (symlink_in-do_create store memory memory' p name target b s t r dir fresh h)
Step-Effect reach (unlinks simple p name i r b bi dir known at_i plain h) =
    Removed-Shows b (Reach-Good reach).valid dir
      (unlink-Removed simple p name i b bi r dir at_i plain h)
Step-Effect reach (removes simple p name i r b dir known h) =
    elim (rmdir-Removed simple p name i b r (Reach-Good reach).valid dir known h) [
      | inl same ↦ inl same
      | inr m ↦ inr (Removed-Shows b (Reach-Good reach).valid dir m)
    ]
Step-Effect {s} {t} reach (renames memory simple p old q new r b c dir dir' h) =
    let v = (Reach-Good reach).valid in
    let m = rename-returned memory simple p old q new b s t r dir.at h in
    (m.ino, found_in_names old p m.ino b v dir m.known, Renamed-names b c v dir dir' m)
Step-Effect {s} reach (writes i d b at_i plain whole) =
    names_keep (set_dir d) i s.blks b at_i (ground (arith, plain))
