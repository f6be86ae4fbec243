-- ===== src/Expfs/Tests.antt =====
-- Runs of expfs.c, and its theorems at concrete inputs.
use lkm_practice.Base.{
  ℕ, true, ◌≢◌, get_elem?, ◌≡◌, refl, false, not, ◌||◌, some, [], ◌∷◌, ◌==◌, leb, arith, replicate,
}
use lkm_practice.Kernel.{ok}
use lkm_practice.Kernel.Samples.{mapped, unmapped, mapped-IsFilling}
use lkm_practice.Expfs.{FileBlock, DirBlock, buffer_size, read, write}
use lkm_practice.Expfs.File
use lkm_practice.Expfs.File.{held, lock_left, read_front, read-write}
use lkm_practice.Expfs.Entries
use lkm_practice.Expfs.Entries.{
  entries, lookup-find, delete, find, Added, erase_entry-delete, add_entry-append,
}
use lkm_practice.Expfs.Blocks.{
  directory, regular, other, Block, Fs, returned, first_free, getblock, do_create, unlink,
}
use lkm_practice.Expfs.Blocks.Array.{FreeAt}
use lkm_practice.Expfs.Blocks.Create.{do_create-unlink}

abbrev three_bytes : FileBlock
three_bytes = record { filesize = 3; buffer = 1 ∷ 2 ∷ 3 ∷ replicate 253 0 }

three_bytes-IsValid : File.IsValid three_bytes
three_bytes-IsValid = record { full_buffer = refl; within = omega arith }

lock_left_example :
    (held false (read unmapped 0 2 three_bytes 1).log
      ≡ (leb 3 1 || not (unmapped.to_user 0 (1 ∷ 2 ∷ []) == 0)))
    × (held false (write unmapped 0 2 three_bytes 1).log ≡ leb buffer_size 1)
lock_left_example = lock_left unmapped 0 2 three_bytes 1

read-write_example :
    ((read mapped 0 10 (write mapped 7 2 three_bytes 1).blk 0).sent ≡ 1 ∷ 7 ∷ 8 ∷ [])
    × ((read mapped 0 10 (write mapped 7 2 three_bytes 1).blk 0).ret ≡ ok 3)
read-write_example =
    read-write mapped 7 2 three_bytes 1 0 10 mapped-IsFilling three_bytes-IsValid (omega arith)
      (omega arith) refl (omega arith) refl

abbrev two_names : DirBlock
two_names = record {
  dir_children = 2;
  slots =
      record { name = 97 ∷ []; index = 5 }
      ∷ record { name = 98 ∷ []; index = 6 }
      ∷ record { name = []; index = 0 }
      ∷ record { name = []; index = 0 }
      ∷ [];
}

two_names-IsValid : Entries.IsValid two_names
two_names-IsValid = record { full_buffer = refl; within = omega arith }

abbrev blank : Block
blank = record {
  used = false;
  mode = other;
  index = 0;
  dir = record { dir_children = 0; slots = replicate 4 (record { name = []; index = 0 }) };
}

abbrev root : Block
root = record blank { used = true; mode = directory; index = 1; dir = two_names }

-- Blocks 2 and 4 are in use.
abbrev mounted : Fs
mounted = record {
  blks =
      blank
      ∷ root
      ∷ record blank { used = true; mode = regular; index = 2 }
      ∷ blank
      ∷ record blank { used = true; mode = regular; index = 4 }
      ∷ replicate 45 blank;
  used_blks = 3;
}

third_free : getblock mounted.blks ≡ some 3
unfolding first_free
third_free = refl

do_create-unlink_example :
    (fs' fs'' : Fs) × (do_create true 1 (99 ∷ []) regular mounted ≡ returned (ok 0) fs')
    × (unlink (ok 0) 1 (99 ∷ []) 3 fs' ≡ returned (ok 0) fs'')
    × (pblk'' : Block) × (get_elem? fs''.blks 1 ≡ some pblk'')
    × (entries pblk''.dir ≡ entries two_names)
    × FreeAt fs''.blks 3
    × ((j : ℕ) → 1 ≢ j → 3 ≢ j → get_elem? fs''.blks j ≡ get_elem? mounted.blks j)
    × (fs''.used_blks ≡ 4)
do_create-unlink_example =
    do_create-unlink 1 (99 ∷ []) 3 root mounted (omega arith) third_free refl refl two_names-IsValid
      (omega arith) (omega arith) (lookup-find (99 ∷ []) two_names-IsValid)
