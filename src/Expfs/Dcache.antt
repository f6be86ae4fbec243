-- ===== src/Expfs/Dcache.antt =====
-- expfs.c as the kernel calls it: with the dentries that it has cached, by which unlink, rmdir and
-- rename are told of a file. expfs_lookup and expfs_do_create bind a dentry to an inode, and the
-- kernel moves it in a rename and drops it after unlink and rmdir.
pub mod Agree
pub mod Seen
pub mod Keeps
use lkm_practice.Base.{
  ℕ, ◌≡◌, Bool, true, false, ◌&&◌, ◌==◌, Option, none, some, List, if◌then◌else◌, get_elem?, length,
}
use lkm_practice.Kernel.{Ret, ok, err, strcmp_eq}
use lkm_practice.Expfs.{DirBlock, Entry, lookup}
use lkm_practice.Expfs.Blocks.{
  Mode, is_dir, Block, Fs, returned, update, set_dir, getblock, do_create, symlink_in, unlink,
  rmdir, rename,
}
use lkm_practice.Expfs.Blocks.Valid.{IsDir}
use lkm_practice.Expfs.Mount.{init, fill_super}

-- The number of the block of a name in the directory of a block, for the names that are cached.
abbrev pub Dentries : Type 0
Dentries = ℕ → List ℕ → Option ℕ

abbrev pub bind : Dentries → ℕ → List ℕ → Option ℕ → Dentries
bind d p name o q other = if (p == q) && strcmp_eq name other then o else d q other

pub record System : Type 0 where
  pub fs : Fs
  pub dentry : Dentries

-- What a dentry is bound to after expfs_do_create, and after rmdir.
abbrev pub made : Ret → Fs → Option ℕ
made (ok n) s = getblock s.blks
made (err e) s = none

abbrev pub left_by : Ret → Option ℕ → Option ℕ
left_by (ok n) o = none
left_by (err e) o = o

-- An operation that returns, on directories in use. The kernel calls create, mkdir and symlink for
-- names that are not there, and unlink not on a directory; simple_unlink, simple_rmdir of an empty
-- directory and simple_rename to a name that is not there return 0. Of the rest of what users can
-- do these are left out: a rename with flags or to a name that is there, and a write, by a
-- descriptor that was open when its file was unlinked, to a block that has become a directory.
pub data Step (s : System) : System → Type 0 where
  looks_up :
      (p : ℕ) (name : List ℕ) (b : Block)
      → IsDir s.fs.blks p b
      → Step s (record s { dentry = bind s.dentry p name (lookup name b.dir) })
  forgets : (p : ℕ) (name : List ℕ) → Step s (record s { dentry = bind s.dentry p name none })
  creates :
      (memory : Bool) (p : ℕ) (name : List ℕ) (mode : Mode) (r : Ret) (b : Block) {t : Fs}
      → IsDir s.fs.blks p b
      → lookup name b.dir ≡ none
      → do_create memory p name mode s.fs ≡ returned r t
      → Step s (record { fs = t; dentry = bind s.dentry p name (made r s.fs) })
  links :
      (store : List ℕ → List Entry → List Entry) (memory memory' : Bool) (p : ℕ)
      (name target : List ℕ) (r : Ret) (b : Block) {t : Fs}
      → IsDir s.fs.blks p b
      → lookup name b.dir ≡ none
      → symlink_in store memory memory' p name target s.fs ≡ returned r t
      → Step s (record { fs = t; dentry = bind s.dentry p name (made r s.fs) })
  unlinks :
      (p : ℕ) (name : List ℕ) (i : ℕ) (r : Ret) (b bi : Block) {t : Fs}
      → IsDir s.fs.blks p b
      → s.dentry p name ≡ some i
      → get_elem? s.fs.blks i ≡ some bi
      → is_dir bi.mode ≡ false
      → unlink (ok 0) p name i s.fs ≡ returned r t
      → Step s (record { fs = t; dentry = bind s.dentry p name none })
  removes :
      (p : ℕ) (name : List ℕ) (i : ℕ) (r : Ret) (b : Block) {t : Fs}
      → IsDir s.fs.blks p b
      → s.dentry p name ≡ some i
      → rmdir (ok 0) p name i s.fs ≡ returned r t
      → Step s (record { fs = t; dentry = bind s.dentry p name (left_by r (some i)) })
  renames :
      (memory : Bool) (p : ℕ) (old : List ℕ) (q : ℕ) (new : List ℕ) (i : ℕ) (r : Ret) (b c : Block)
      {t : Fs}
      → IsDir s.fs.blks p b
      → IsDir s.fs.blks q c
      → s.dentry p old ≡ some i
      → lookup new c.dir ≡ none
      → rename memory (ok 0) p old q new s.fs ≡ returned r t
      → Step s (record { fs = t; dentry = bind (bind s.dentry p old none) q new (some i) })
  writes :
      (i : ℕ) (d : DirBlock) (b : Block)
      → get_elem? s.fs.blks i ≡ some b
      → is_dir b.mode ≡ false
      → length d.slots ≡ 4
      → Step s (record s { fs = record s.fs { blks = update (set_dir d) i s.fs.blks } })

-- Loaded and mounted once, and then used; no dentry but the root's is cached at first.
pub data Used : System → Type 0 where
  mounted :
      (registered r : Ret) {s t : Fs}
      → init true registered ≡ returned registered s
      → fill_super true s ≡ returned r t
      → Used (record { fs = t; dentry = λ p name. none })
  next : {s t : System} → Used s → Step s t → Used t
