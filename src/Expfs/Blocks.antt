-- ===== src/Expfs/Blocks.antt =====
-- expfs.c: the array of blocks, and the operations that create and remove files and directories.
-- A block's union of filesize and dir_children is the `dir_children` of its `dir`. An operation that
-- writes behind the array or behind a block's buffer, or that uses a pointer which is not set, overruns.
pub mod Array
pub mod Create
pub mod Count
pub mod Valid
pub mod Grow
pub mod Shrink
pub mod Rename
pub mod Symlink
pub mod Room
pub mod Usage
mod Tests
use lkm_practice.Base.{
  ℕ, zero, suc, ◌+◌, ◌-◌, Bool, true, false, not, ◌&&◌, ◌||◌, Option, none, some, List, [], ◌∷◌,
  leb, ◌==◌, if◌then◌else◌, get_elem?, set, length,
}
use lkm_practice.Kernel.{Ret, ok, err, einval, enomem, enotempty}
use lkm_practice.Expfs.{DirBlock, Entry, buffer_size, add_entry, erase_entry, lookup}

-- MAX_FILE
abbrev pub max_file : ℕ
max_file = 50

-- The file type of a mode.
pub data Mode : Type 0 where
  directory regular symlink other : Mode

abbrev pub is_dir : Mode → Bool
is_dir directory = true
is_dir m = false

abbrev pub is_reg : Mode → Bool
is_reg regular = true
is_reg m = false

abbrev pub is_lnk : Mode → Bool
is_lnk symlink = true
is_lnk m = false

-- struct expfs_fileblock
pub record Block : Type 0 where
  pub used : Bool
  pub mode : Mode
  pub index : ℕ
  pub dir : DirBlock

-- blks and usedBlks
pub record Fs : Type 0 where
  pub blks : List Block
  pub used_blks : ℕ

pub data Outcome : Type 0 where
  returned : Ret → Fs → Outcome
  overrun : Outcome

-- The loop of getblock, from the i-th block on; `none` stands for -1.
unfoldable pub first_free : ℕ → ℕ → List Block → Option ℕ
first_free zero i blks = none
first_free (suc left) i blks = elim (get_elem? blks i) [
  | none ↦ none
  | some b ↦ if b.used then first_free left (i + 1) blks else some i
]

-- getblock, but for the mark on the block, which do_create sets too.
abbrev pub getblock : List Block → Option ℕ
getblock blks = first_free (max_file - 2) 2 blks

-- The block `i` changed.
pub update : (Block → Block) → ℕ → List Block → List Block
update f i [] = []
update f zero (b ∷ blks) = f b ∷ blks
update f (suc i) (b ∷ blks) = b ∷ update f i blks

-- The fields of the new block.
abbrev pub fill_block : Mode → ℕ → Block → Block
fill_block mode idx b = record b {
  used = true;
  mode = mode;
  index = idx;
  dir = if is_dir mode || is_reg mode then record b.dir { dir_children = 0 } else b.dir;
}

abbrev pub set_dir : DirBlock → Block → Block
set_dir d b = record b { dir = d }

-- expfs_do_create in the directory of block `p`; `memory` is whether new_inode gives an inode.
pub do_create : Bool → ℕ → List ℕ → Mode → Fs → Outcome
do_create memory p name mode fs =
    if leb max_file fs.used_blks
    then returned (err einval) fs
    else if not (is_dir mode) && (not (is_reg mode) && not (is_lnk mode))
    then returned (err einval) fs
    else if not memory
    then returned (err enomem) fs
    else elim (getblock fs.blks) [
      | none ↦ overrun
      | some idx ↦
          let blks = update (fill_block mode idx) idx fs.blks in
          elim (get_elem? blks p) [
            | none ↦ overrun
            | some pblk ↦ elim (add_entry name idx pblk.dir) [
              | none ↦ overrun
              | some d ↦
                  returned (ok 0)
                    (record { blks = update (set_dir d) p blks; used_blks = fs.used_blks + 1 })
            ]
          ]
    ]

-- The wrappers that the inode operations name.
pub create : Bool → ℕ → List ℕ → Mode → Fs → Outcome
create = do_create

pub mkdir : Bool → ℕ → List ℕ → Fs → Outcome
mkdir memory p name fs = do_create memory p name directory fs

abbrev pub erase_in : List ℕ → Block → Block
erase_in name b = record b { dir = erase_entry name b.dir }

abbrev pub free_block : Block → Block
free_block b = record b { used = false }

-- expfs_unlink of the file of block `i` in the directory of block `p`; `simple` is the result of
-- simple_unlink.
pub unlink : Ret → ℕ → List ℕ → ℕ → Fs → Outcome
unlink simple p name i fs =
    returned simple (record fs { blks = update free_block i (update (erase_in name) p fs.blks) })

-- expfs_rmdir; `simple` is the result of simple_rmdir.
pub rmdir : Ret → ℕ → List ℕ → ℕ → Fs → Outcome
rmdir simple p name i fs = elim (get_elem? fs.blks i) [
  | none ↦ overrun
  | some b ↦
      if is_dir b.mode && (b.dir.dir_children == 0)
      then returned simple
          (record fs { blks = update (erase_in name) p (update free_block i fs.blks) })
      else returned (err enotempty) fs
]

-- expfs_rename from the directory of block `p` to that of block `q`, which can be the same. The inode
-- `curr` is set only if the old name is found, and if `memory`, new_inode gives one; `simple` is the
-- result of simple_rename.
pub rename : Bool → Ret → ℕ → List ℕ → ℕ → List ℕ → Fs → Outcome
rename memory simple p old q new fs = elim (get_elem? fs.blks p) [
  | none ↦ overrun
  | some pblk ↦ elim (lookup old pblk.dir) [
    | none ↦ overrun
    | some ino ↦
        let blks = update (erase_in old) p fs.blks in
        if not memory then overrun else elim (get_elem? blks q) [
          | none ↦ overrun
          | some qblk ↦ elim (add_entry new ino qblk.dir) [
            | none ↦ overrun
            | some d ↦ returned simple (record fs { blks = update (set_dir d) q blks })
          ]
        ]
  ]
]

-- expfs_symlink. `store target slots` is what the entries of a buffer are once a string is stored at
-- its start; `memory` and `memory'` are whether new_inode gives an inode, at its two calls. The test of expfs_do_create's result is the source's: a success returns at once.
pub symlink_in :
    (List ℕ → List Entry → List Entry) → Bool → Bool → ℕ → List ℕ → List ℕ → Fs → Outcome
symlink_in store memory memory' p name target fs = elim (do_create memory p name symlink fs) [
  | overrun ↦ overrun
  | returned (ok n) fs' ↦ returned (ok n) fs'
  | returned (err e) fs' ↦ elim (get_elem? fs'.blks p) [
    | none ↦ overrun
    | some pblk ↦ elim (lookup name pblk.dir) [
      | none ↦ overrun
      | some ino ↦
          if not memory' || leb buffer_size (length target)
          then overrun
          else returned (ok 0) (record fs' {
            blks =
                update (λ b. record b { dir = record b.dir { slots = store target b.dir.slots } })
                  ino fs'.blks;
          })
    ]
  ]
]
