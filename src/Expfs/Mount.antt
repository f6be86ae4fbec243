-- ===== src/Expfs/Mount.antt =====
-- expfs.c: loading and mounting, the inodes that are made of blocks, and the listing of a directory.
pub mod Iterate
pub mod Inodes
use lkm_practice.Base.{
  ℕ, zero, suc, ◌+◌, ◌-◌, ◌*◌, ◌≤◌, ◌<◌, ◌≡◌, ◌≢◌, refl, sym, ap, ◌∙◌, Bool, true, false, not, ◌&&◌,
  Option, none, some, List, [], ◌∷◌, ◌++◌, arith, ◌==◌, if◌then◌else◌, get_elem?, length, take,
  replicate,
}
use lkm_practice.Kernel.{Ret, ok, err, enotdir}
use lkm_practice.Expfs.{
  DirBlock, Entry, SpinCall, spin_lock, spin_unlock, max_name, max_entries, lookup,
}
use lkm_practice.Expfs.Blocks.{
  Mode, directory, regular, symlink, other, is_dir, Block, Fs, Outcome, returned, overrun, update,
  max_file,
}

-- The blocks as memset leaves them.
abbrev pub zero_block : Block
zero_block = record {
  used = false;
  mode = other;
  index = 0;
  dir = record {
    dir_children = 0;
    slots = replicate max_entries (record { name = []; index = 0 });
  };
}

-- expfs_init: `memory` is whether vmalloc gives the array, whose failure is not looked at; `registered`
-- is the result of register_filesystem.
unfoldable pub init : Bool → Ret → Outcome
init memory registered =
    if memory
    then returned registered (record { blks = replicate max_file zero_block; used_blks = 0 })
    else overrun

-- The root's block.
abbrev pub root_block : Block → Block
root_block b = record {
  used = true;
  mode = directory;
  index = 1;
  dir = record b.dir { dir_children = 0 };
}

-- expfs_fill_super; `memory` is whether new_inode gives an inode, which is not looked at.
unfoldable pub fill_super : Bool → Fs → Outcome
fill_super memory fs =
    if memory
    then returned (ok 0)
        (record { blks = update root_block 1 fs.blks; used_blks = fs.used_blks + 1 })
    else overrun

-- Which file operations an inode has.
pub data Fops : Type 0 where
  dir_fops fops no_fops : Fops

pub record Inode : Type 0 where
  pub i_ino : ℕ
  pub i_fop : Fops

-- expfs_geti; `none` where the block is not in the array, or new_inode, by `memory`, gives no inode.
pub geti : Bool → ℕ → Fs → Option Inode
geti memory index fs = elim (get_elem? fs.blks index) [
  | none ↦ none
  | some b ↦
      if memory
      then some (record {
        i_ino = index;
        i_fop = elim b.mode [
          | directory ↦ dir_fops
          | regular ↦ fops
          | symlink ↦ no_fops
          | other ↦ no_fops
        ];
      })
      else none
]

-- expfs_lookup with its inode: what the dentry is given, if anything; `fault` where a pointer is not set.
pub data Found : Type 0 where
  negative : Found
  inode : Inode → Found
  fault : Found

pub lookup_inode : Bool → ℕ → List ℕ → Fs → Found
lookup_inode memory p name fs = elim (get_elem? fs.blks p) [
  | none ↦ fault
  | some b ↦ elim (lookup name b.dir) [
    | none ↦ negative
    | some i ↦ elim (geti memory i fs) [ none ↦ fault | some ino ↦ inode ino ]
  ]
]

-- What expfs_iterate has done: the positions in the file and in the context, its result, what it has
-- emitted after the dots (a name in its 50 bytes, and a number), and the calls on the lock.
pub record Listing : Type 0 where
  pub f_pos : ℕ
  pub ctx_pos : ℕ
  pub ret : Ret
  pub emitted : List Entry
  pub log : List SpinCall

-- sizeof(struct expfs_direntry)
abbrev pub entry_size : ℕ
entry_size = 56

-- The loop over the entries, from the i-th on.
pub emit : ℕ → ℕ → List Entry → List Entry
emit zero i slots = []
emit (suc left) i slots = elim (get_elem? slots i) [
  | none ↦ []
  | some e ↦ e ∷ emit left (i + 1) slots
]

-- expfs_iterate; `dots` is the context's position after dir_emit_dots, whose failure is only printed.
pub iterate : (ℕ → ℕ) → Block → ℕ → ℕ → Listing
iterate dots b f_pos ctx_pos =
    if not (f_pos == 0)
    then record { f_pos = f_pos; ctx_pos = ctx_pos; ret = ok 0; emitted = []; log = spin_lock ∷ [] }
    else if not (is_dir b.mode)
    then record {
      f_pos = f_pos;
      ctx_pos = ctx_pos;
      ret = err enotdir;
      emitted = [];
      log = spin_lock ∷ [];
    }
    else record {
      f_pos = f_pos + entry_size * b.dir.dir_children;
      ctx_pos = dots ctx_pos + b.dir.dir_children;
      ret = ok 0;
      emitted = emit b.dir.dir_children 0 b.dir.slots;
      log = spin_lock ∷ spin_unlock ∷ [];
    }
