-- ===== src/Expfs.antt =====
-- expfs/expfs.c, the file system in memory: the operations on an open file, and the entries of a
-- directory. A block's buffer of 256 bytes holds a file's bytes, or a directory's entries of 56
-- bytes each: the name's 50, padding, and an int.
pub mod File
pub mod Seek
pub mod Entries
pub mod Names
pub mod Blocks
pub mod Mount
pub mod Directories
pub mod Tree
pub mod Contents
pub mod Persistence
pub mod Dcache
mod Tests
use lkm_practice.Base.{
  ℕ, zero, suc, ◌+◌, ◌-◌, ◌*◌, ◌/◌, ◌%◌, ◌^◌, min, Bool, true, false, ◌&&◌, ◌||◌, Option, none,
  some, List, [], ◌∷◌, ◌++◌, ltb, leb, ◌==◌, if◌then◌else◌, blit, window, length, take, get_elem?,
  set, ℤ, pos, negsuc, add64, is_negative, ltb_ℤ, pos_part,
}
use lkm_practice.Kernel.{strcmp_eq, Ret, ok, err, efault, einval, enxio, Uaccess}

-- BUFFER_SIZE
abbrev pub buffer_size : ℕ
buffer_size = 256

-- The calls on expfs_lock.
pub data SpinCall : Type 0 where
  spin_lock spin_unlock : SpinCall

-- struct expfs_fileblock of a regular file.
pub record FileBlock : Type 0 where
  pub filesize : ℕ  -- int
  pub buffer : List ℕ

-- The file's block and position, the result, the bytes that a whole copy_to_user delivered, and
-- the calls on the lock.
pub record Done : Type 0 where
  pub blk : FileBlock
  pub f_pos : ℕ
  pub ret : Ret
  pub sent : List ℕ
  pub log : List SpinCall

abbrev pub both : List SpinCall
both = spin_lock ∷ spin_unlock ∷ []

-- The bytes are taken from the start of the buffer.
pub read : Uaccess → (buf len : ℕ) → FileBlock → ℕ → Done
read k buf len blk p =
    let n = min blk.filesize len in
    let bytes = take n blk.buffer in
    if leb blk.filesize p
    then record { blk = blk; f_pos = p; ret = ok 0; sent = []; log = spin_lock ∷ [] }
    else (if k.to_user buf bytes == 0
        then record { blk = blk; f_pos = p + n; ret = ok n; sent = bytes; log = both }
        else record { blk = blk; f_pos = p; ret = err efault; sent = []; log = spin_lock ∷ [] })

-- `unsigned int count = len;` cuts the length to 32 bits.
pub write : Uaccess → (buf len : ℕ) → FileBlock → ℕ → Done
write k buf len blk p =
    let count = len % 2 ^ 32 in
    let n = if ltb (buffer_size - p) count then buffer_size - p else count in
    let (missed, bytes) = k.from_user buf n in
    let buffer = blit blk.buffer p bytes in
    if leb buffer_size p
    then record {
      blk = blk;
      f_pos = p;
      ret = if count == 0 then ok 0 else err enxio;
      sent = [];
      log = spin_lock ∷ [];
    }
    else (if missed == 0
        then record {
          blk = record { filesize = p + n; buffer = buffer };
          f_pos = p + n;
          ret = ok n;
          sent = [];
          log = both;
        }
        else record {
          blk = record blk { buffer = buffer };
          f_pos = p;
          ret = err efault;
          sent = [];
          log = both;
        })

-- The position afterwards and the result.
pub llseek : ℤ → ℕ → ℕ → ℕ × Ret
llseek offset orig f_pos =
    let sum = add64 (pos f_pos) offset in
    if orig == 0
    then (if is_negative offset || ltb_ℤ (pos buffer_size) offset
        then (f_pos, err einval)
        else (pos_part offset, ok (pos_part offset)))
    else (if orig == 1
        then (if ltb_ℤ (pos buffer_size) sum || is_negative sum
            then (f_pos, err einval)
            else (pos_part sum, ok (pos_part sum)))
        else (f_pos, err einval))

-- struct expfs_direntry; a name is the bytes before its end.
pub record Entry : Type 0 where
  pub name : List ℕ
  pub index : ℕ

-- struct expfs_fileblock of a directory: the entries that lie within its buffer, used or not.
pub record DirBlock : Type 0 where
  pub dir_children : ℕ
  pub slots : List Entry

-- BUFFER_SIZE / sizeof(struct expfs_direntry), and the size of a name with its end.
abbrev pub max_entries : ℕ
max_entries = 4

abbrev pub max_name : ℕ
max_name = 50

-- The loop over the entries from the i-th on, `left` of them.
pub search : ℕ → ℕ → List ℕ → List Entry → Option ℕ
search zero i name slots = none
search (suc left) i name slots = elim (get_elem? slots i) [
  | none ↦ none
  | some e ↦ if strcmp_eq e.name name then some i else search left (i + 1) name slots
]

-- expfs_lookup: the index of the inode that is found.
pub lookup : List ℕ → DirBlock → Option ℕ
lookup name d = elim (search d.dir_children 0 name d.slots) [
  | none ↦ none
  | some i ↦ elim (get_elem? d.slots i) [ none ↦ none | some e ↦ some e.index ]
]

-- The new entry of expfs_do_create; `none` where it, or its name, does not fit.
pub add_entry : List ℕ → ℕ → DirBlock → Option DirBlock
add_entry name idx d =
    if leb max_entries d.dir_children || leb max_name (length name)
    then none
    else some (record {
      dir_children = d.dir_children + 1;
      slots = blit d.slots d.dir_children (record { name = name; index = idx } ∷ []);
    })

-- for (j = i; ...; j++) memcpy(&entry[j], &entry[j+1], sizeof(struct expfs_direntry));
pub shift : ℕ → ℕ → List Entry → List Entry
shift zero j slots = slots
shift (suc left) j slots = shift left (j + 1) (blit slots j (window (j + 1) 1 slots))

-- The loop of expfs_unlink and expfs_rmdir over the parent's entries.
pub erase_entry : List ℕ → DirBlock → DirBlock
erase_entry name d = elim (search d.dir_children 0 name d.slots) [
  | none ↦ d
  | some i ↦ record {
    dir_children = d.dir_children - 1;
    slots = shift (d.dir_children - 1 - i) i d.slots;
  }
]
