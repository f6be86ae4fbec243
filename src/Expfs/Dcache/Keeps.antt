-- ===== src/Expfs/Dcache/Keeps.antt =====
-- expfs.c: a file stays where it is, under its name, while others are used through cached dentries.
use lkm_practice.Base.{ℕ, ◌≢◌, List, ◌⊎◌}
use lkm_practice.Kernel.{ok}
use lkm_practice.Expfs.Blocks.{Block, Fs}
use lkm_practice.Expfs.Contents.{IsFile, Step-IsFile}
use lkm_practice.Expfs.Contents
use lkm_practice.Expfs.Persistence
use lkm_practice.Expfs.Persistence.{Names, Step-Names}
use lkm_practice.Expfs.Tree
use lkm_practice.Expfs.Dcache.{
  System, Step, looks_up, forgets, creates, links, unlinks, removes, renames, writes, Used, next,
}
use lkm_practice.Expfs.Dcache.Agree.{Used-Known, known_lookup}

-- The operation is neither a write to the file of block `i`, by any descriptor, nor unlinks it.
abbrev pub Spares : (i : ℕ) {s t : System} → Step s t → Type 0
Spares i (looks_up q other d dir) = Unit {0}
Spares i (forgets q other) = Unit {0}
Spares i (creates memory q other mode r d dir fresh h) = Unit {0}
Spares i (links store memory memory' q other target r d dir fresh h) = Unit {0}
Spares i (unlinks q other j r d bj dir cached at_j plain h) = j ≢ i
Spares i (removes q other j r d dir cached h) = Unit {0}
Spares i (renames memory q old q' new j r d c dir dir' cached fresh h) = Unit {0}
Spares i (writes j d c at_j plain whole) = j ≢ i

-- The operation does not rename the name away.
abbrev pub LeavesName : (p : ℕ) (name : List ℕ) {s t : System} → Step s t → Type 0
LeavesName p name (looks_up q other d dir) = Unit {0}
LeavesName p name (forgets q other) = Unit {0}
LeavesName p name (creates memory q other mode r d dir fresh h) = Unit {0}
LeavesName p name (links store memory memory' q other target r d dir fresh h) = Unit {0}
LeavesName p name (unlinks q other j r d bj dir cached at_j plain h) = Unit {0}
LeavesName p name (removes q other j r d dir cached h) = Unit {0}
LeavesName p name (renames memory q old q' new j r d c dir dir' cached fresh h) =
    (q ≢ p) ⊎ (old ≢ name)
LeavesName p name (writes j d c at_j plain whole) = Unit {0}

module _ (p : ℕ) (name : List ℕ) (i : ℕ) {b : Block} where
  by_tree :
      {s t : Fs}
      → Tree.Reach s
      → IsFile s i b
      → Names s p name i
      → (step : Tree.Step s t) → Contents.Spares i step
      → Persistence.LeavesName p name step
      → IsFile t i b × Names t p name i
  by_tree reach file known step spares leaves =
      (Step-IsFile file step spares, Step-Names p name i reach file known step spares leaves)

  kept_by_step :
      {s t : System}
      → Used s
      → IsFile s.fs i b
      → Names s.fs p name i
      → (step : Step s t) → Spares i step
      → LeavesName p name step
      → IsFile t.fs i b × Names t.fs p name i
  kept_by_step used file known (looks_up q other d dir) spares leaves = (file, known)
  kept_by_step used file known (forgets q other) spares leaves = (file, known)
  kept_by_step used file known (creates memory q other mode r d dir fresh h) spares leaves =
      by_tree (Used-Known used).reach file known (Tree.creates memory q other mode r d dir h) tt tt
  kept_by_step used file known (links store memory memory' q other target r d dir fresh h) spares
        leaves =
      by_tree (Used-Known used).reach file known
        (Tree.links store memory memory' q other target r d dir fresh h) tt tt
  kept_by_step used file known (unlinks q other j r d bj dir cached at_j plain h) spares leaves =
      let k = Used-Known used in
      by_tree k.reach file known
        (Tree.unlinks (ok 0) q other j r d bj dir (known_lookup k q other j d dir cached) at_j plain
          h)
        spares tt
  kept_by_step used file known (removes q other j r d dir cached h) spares leaves =
      let k = Used-Known used in
      by_tree k.reach file known
        (Tree.removes (ok 0) q other j r d dir (known_lookup k q other j d dir cached) h) tt tt
  kept_by_step used file known (renames memory q old q' new j r d c dir dir' cached fresh h) spares
        leaves =
      by_tree (Used-Known used).reach file known
        (Tree.renames memory (ok 0) q old q' new r d c dir dir' h) tt leaves
  kept_by_step used file known (writes j d c at_j plain whole) spares leaves =
      by_tree (Used-Known used).reach file known (Tree.writes j d c at_j plain whole) spares tt

-- Operations one after the other, of which none writes to the file of block `i` or unlinks it, and
-- none renames `name` in the directory of block `p` away.
pub data Run (p : ℕ) (name : List ℕ) (i : ℕ) (s : System) : System → Type 0 where
  stay : Run p name i s s
  then_step :
      {t u : System}
      → Run p name i s t
      → (step : Step t u) → Spares i step
      → LeavesName p name step
      → Run p name i s u

-- A file that is in use and has a name keeps both, with its mode, size and bytes, through every
-- sequence of operations on the mounted file system of which none writes to its block by any
-- descriptor, unlinks it or renames that name away: creations, links, writes to other blocks,
-- removals of other files and of directories, and renames. The conditions: no rename has flags or
-- is to a name that its directory has, nothing is written to a block that has become a directory,
-- by a descriptor of a file that was unlinked, and no operation writes behind an array.
pub Run-IsFile :
    (p : ℕ) (name : List ℕ) (i : ℕ) {b : Block} {s t : System}
    → Used s
    → IsFile s.fs i b
    → Names s.fs p name i
    → Run p name i s t
    → Used t × IsFile t.fs i b × Names t.fs p name i
Run-IsFile p name i used file known stay = (used, file, known)
Run-IsFile p name i used file known (then_step run step spares leaves) =
    let (used', file', known') = Run-IsFile p name i used file known run in
    let (file'', known'') = kept_by_step p name i used' file' known' step spares leaves in
    (next used' step, file'', known'')
