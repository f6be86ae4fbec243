-- ===== src/Expfs/Blocks/Tests.antt =====
-- Runs of expfs.c's operations on its blocks, and its theorems at concrete inputs.
use mathlib.Core.Option.{or_else}
use lkm_practice.Base.{
  ℕ, ◌≡◌, refl, ap, true, false, none, some, List, [], ◌∷◌, arith, blit, replicate,
}
use lkm_practice.Kernel.{ok}
use lkm_practice.Expfs.{DirBlock, Entry, lookup, search, add_entry, erase_entry, shift}
use lkm_practice.Expfs.File.{held}
use lkm_practice.Expfs.Blocks.{
  directory, regular, symlink, Block, Fs, returned, first_free, update, fill_block, set_dir,
  erase_in, do_create, rename, symlink_in,
}
use lkm_practice.Expfs.Blocks.Valid.{IsDir}
use lkm_practice.Expfs.Blocks.Rename.{rename-lookup}
use lkm_practice.Expfs.Blocks.Symlink.{symlink_in-do_create}
use lkm_practice.Expfs.Mount.{zero_block, root_block, init, fill_super, iterate}
use lkm_practice.Expfs.Directories.{names, names_at, with_name, without_name}
use lkm_practice.Expfs.Directories.Refine.{Shows}
use lkm_practice.Expfs.Contents.{IsFile}
use lkm_practice.Expfs.Persistence.{Names}
use lkm_practice.Expfs.Dcache
use lkm_practice.Expfs.Dcache.{System, Used, bind, made}
use lkm_practice.Expfs.Dcache.Agree.{Agrees, Used-Good}
use lkm_practice.Expfs.Dcache.Seen.{Step-Seen}
use lkm_practice.Expfs.Dcache.Keeps.{Run, stay, then_step, Run-IsFile}
use lkm_practice.Expfs.Entries.{find}
use lkm_practice.Expfs.Mount.Iterate.{iterate-entries}
use lkm_practice.Expfs.Tree.{Step, Reach, Good, Reach-Good}

abbrev loaded : Fs
loaded = record { blks = replicate 50 zero_block; used_blks = 0 }

abbrev mounted : Fs
mounted = record { blks = update root_block 1 loaded.blks; used_blks = 1 }

mounted-Reach : Reach mounted
unfolding init fill_super
mounted-Reach = Reach.mounted (ok 0) (ok 0) refl refl

abbrev root : Block
root = root_block zero_block

root-IsDir : IsDir mounted.blks 1 root
unfolding update
root-IsDir = record { at = refl; used = refl; directory = refl }

-- A file "a" in the root.
abbrev with_a : DirBlock
with_a = record {
  dir_children = 1;
  slots = record { name = 97 ∷ []; index = 2 } ∷ replicate 3 (record { name = []; index = 0 });
}

abbrev one_file : Fs
one_file = record {
  blks = update (set_dir with_a) 1 (update (fill_block regular 2) 2 mounted.blks);
  used_blks = 2;
}

create_a : do_create true 1 (97 ∷ []) regular mounted ≡ returned (ok 0) one_file
unfolding do_create first_free update add_entry blit
create_a = refl

one_file-Reach : Reach one_file
one_file-Reach =
    Reach.next mounted-Reach (Step.creates true 1 (97 ∷ []) regular (ok 0) root root-IsDir create_a)

abbrev root_with_a : Block
root_with_a = set_dir with_a root

root_with_a-IsDir : IsDir one_file.blks 1 root_with_a
unfolding update
root_with_a-IsDir = record { at = refl; used = refl; directory = refl }

-- "a" renamed to "b".
abbrev with_b : DirBlock
with_b = record {
  dir_children = 1;
  slots = record { name = 98 ∷ []; index = 2 } ∷ replicate 3 (record { name = []; index = 0 });
}

abbrev renamed : Fs
renamed = record one_file {
  blks = update (set_dir with_b) 1 (update (erase_in (97 ∷ [])) 1 one_file.blks);
}

rename_a : rename true (ok 0) 1 (97 ∷ []) 1 (98 ∷ []) one_file ≡ returned (ok 0) renamed
unfolding rename update lookup search add_entry erase_entry shift blit
rename_a = refl

rename-lookup_example :
    (c' : Block) × IsDir renamed.blks 1 c'
    × (lookup (98 ∷ []) c'.dir ≡ or_else (lookup (98 ∷ []) with_a) (lookup (97 ∷ []) with_a))
rename-lookup_example =
    rename-lookup true (ok 0) 1 (97 ∷ []) 1 (98 ∷ []) root_with_a root_with_a (ok 0)
      (Reach-Good one_file-Reach).valid root_with_a-IsDir root_with_a-IsDir (λ e p. ground arith)
      rename_a

-- A link "b" to "a": its block is made, and no target is stored.
abbrev with_link : DirBlock
with_link = record {
  dir_children = 2;
  slots =
      record { name = 97 ∷ []; index = 2 }
      ∷ record { name = 98 ∷ []; index = 3 }
      ∷ replicate 2 (record { name = []; index = 0 });
}

abbrev linked : Fs
linked = record {
  blks = update (set_dir with_link) 1 (update (fill_block symlink 3) 3 one_file.blks);
  used_blks = 3;
}

abbrev keep_slots : List ℕ → List Entry → List Entry
keep_slots target slots = slots

link_b : symlink_in keep_slots true true 1 (98 ∷ []) (97 ∷ []) one_file ≡ returned (ok 0) linked
unfolding symlink_in do_create first_free update add_entry blit
link_b = refl

fresh_b : lookup (98 ∷ []) with_a ≡ none
unfolding lookup search
fresh_b = refl

symlink_in-do_create_example : do_create true 1 (98 ∷ []) symlink one_file ≡ returned (ok 0) linked
symlink_in-do_create_example =
    symlink_in-do_create keep_slots true true 1 (98 ∷ []) (97 ∷ []) root_with_a one_file linked
      (ok 0) root_with_a-IsDir fresh_b link_b

iterate-entries_example :
    let l = iterate (λ p. 2) root_with_a 0 0 in
    (l.emitted ≡ record { name = 97 ∷ []; index = 2 } ∷ [])
    × (l.f_pos ≡ 56)
    × (l.ret ≡ ok 0)
    × (held false l.log ≡ false)
iterate-entries_example =
    iterate-entries (λ p. 2) root_with_a 0 0 (record { full_buffer = refl; within = omega arith })
      refl

-- A directory "b".
abbrev dir_made : Fs
dir_made = record {
  blks = update (set_dir with_link) 1 (update (fill_block directory 3) 3 one_file.blks);
  used_blks = 3;
}

make_b : do_create true 1 (98 ∷ []) directory one_file ≡ returned (ok 0) dir_made
unfolding do_create first_free update add_entry blit
make_b = refl

-- The file of "a" keeps its block and its name while a link is made beside it.
abbrev file_a : Block
file_a = fill_block regular 2 zero_block

file_a-IsFile : IsFile one_file 2 file_a
unfolding update
file_a-IsFile = record { at = refl; used = refl; plain = refl }

name_a : Names one_file 1 (97 ∷ []) 2
name_a = ap (find (97 ∷ [])) (names_at one_file.blks 1 root_with_a root_with_a-IsDir.at)

-- The same through dentries: that of "a" is bound when the file is made.
fresh_a : lookup (97 ∷ []) root.dir ≡ none
unfolding lookup search
fresh_a = refl

abbrev one_used : System
one_used = record {
  fs = one_file;
  dentry = bind (λ p name. none) 1 (97 ∷ []) (made (ok 0) mounted);
}

one_used-Used : Used one_used
unfolding init fill_super
one_used-Used =
    Used.next (Used.mounted (ok 0) (ok 0) refl refl)
      (Dcache.creates true 1 (97 ∷ []) regular (ok 0) root root-IsDir fresh_a create_a)

Used-Good_example : Good one_file × Agrees one_used.dentry one_file
Used-Good_example = Used-Good one_used-Used

cached_a : one_used.dentry 1 (97 ∷ []) ≡ some 2
unfolding first_free update
cached_a = refl

Step-Seen_example :
    Shows renamed (with_name (without_name (names one_file.blks) 1 (97 ∷ [])) 1 (98 ∷ []) 2)
Step-Seen_example = Step-Seen one_used-Used (
    Dcache.renames true 1 (97 ∷ []) 1 (98 ∷ []) 2 (ok 0) root_with_a root_with_a root_with_a-IsDir
      root_with_a-IsDir cached_a fresh_b rename_a)

abbrev linked_used : System
linked_used = record {
  fs = linked;
  dentry = bind one_used.dentry 1 (98 ∷ []) (made (ok 0) one_file);
}

link_beside : Run 1 (97 ∷ []) 2 one_used linked_used
link_beside =
    then_step stay
      (Dcache.links keep_slots true true 1 (98 ∷ []) (97 ∷ []) (ok 0) root_with_a root_with_a-IsDir
        fresh_b link_b)
      tt tt

Run-IsFile_example : Used linked_used × IsFile linked 2 file_a × Names linked 1 (97 ∷ []) 2
Run-IsFile_example = Run-IsFile 1 (97 ∷ []) 2 one_used-Used file_a-IsFile name_a link_beside
