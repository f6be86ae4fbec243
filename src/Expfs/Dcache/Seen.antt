-- ===== src/Expfs/Dcache/Seen.antt =====
-- expfs.c: what users see of the operations, in a file system that is used through cached dentries.
use lkm_practice.Base.{◌≡◌, refl, ap, ◌∙◌, ◌⊎◌, arith}
use lkm_practice.Kernel.{ok}
use lkm_practice.Expfs.Directories.{names, with_name, without_name}
use lkm_practice.Expfs.Directories.Refine.{Shows, Named, Step-Effect}
use lkm_practice.Expfs.Tree
use lkm_practice.Expfs.Dcache.{
  System, Step, looks_up, forgets, creates, links, unlinks, removes, renames, writes, Used,
}
use lkm_practice.Expfs.Dcache.Agree.{Used-Known, known_lookup}

-- What a user sees of an operation, by its arguments: the file system seen as directories, each a
-- list of names with numbers.
abbrev pub Seen : {s t : System} → Step s t → Type 0
Seen {s} {t} (looks_up p name b dir) = t.fs ≡ s.fs
Seen {s} {t} (forgets p name) = t.fs ≡ s.fs
Seen {s} (creates memory p name mode r b {t} dir fresh h) = (t ≡ s.fs) ⊎ Named p name s.fs t
Seen {s} (links store memory memory' p name target r b {t} dir fresh h) =
    (t ≡ s.fs) ⊎ Named p name s.fs t
Seen {s} (unlinks p name i r b bi {t} dir cached at_i plain h) =
    Shows t (without_name (names s.fs.blks) p name)
Seen {s} (removes p name i r b {t} dir cached h) =
    (t ≡ s.fs) ⊎ Shows t (without_name (names s.fs.blks) p name)
Seen {s} (renames memory p old q new i r b c {t} dir dir' cached fresh h) =
    Shows t (with_name (without_name (names s.fs.blks) p old) q new i)
Seen {s} {t} (writes i d b at_i plain whole) = Shows t.fs (names s.fs.blks)

-- In every state that the use of a mounted file system leads to, seen as directories that are lists
-- of names with numbers, each operation that returns does what its arguments say and changes no
-- other list: a creation, of a symbolic link too, does nothing or adds the name at the end, with
-- the number of a block that was free; unlink, and rmdir unless it does nothing, take the name's
-- first entry out; a rename takes the old name out and adds the new one at the end, with the number
-- to which the old name's dentry is bound; lookups and writes change no name. The conditions: no
-- rename has flags or is to a name that its directory has, nothing is written to a block that has
-- become a directory, by a descriptor of a file that was unlinked, and no operation writes behind
-- an array.
pub Step-Seen : {s t : System} → Used s → (step : Step s t) → Seen step
Step-Seen used (looks_up p name b dir) = refl
Step-Seen used (forgets p name) = refl
Step-Seen used (creates memory p name mode r b dir fresh h) =
    Step-Effect (Used-Known used).reach (Tree.creates memory p name mode r b dir h)
Step-Seen used (links store memory memory' p name target r b dir fresh h) =
    Step-Effect (Used-Known used).reach
      (Tree.links store memory memory' p name target r b dir fresh h)
Step-Seen used (unlinks p name i r b bi dir cached at_i plain h) =
    let k = Used-Known used in
    Step-Effect k.reach
      (Tree.unlinks (ok 0) p name i r b bi dir (known_lookup k p name i b dir cached) at_i plain h)
Step-Seen used (removes p name i r b dir cached h) =
    let k = Used-Known used in
    Step-Effect k.reach
      (Tree.removes (ok 0) p name i r b dir (known_lookup k p name i b dir cached) h)
Step-Seen {s} used (renames memory p old q new i r b c {t} dir dir' cached fresh h) =
    let k = Used-Known used in
    let (ino, found, shows) =
      Step-Effect k.reach (Tree.renames memory (ok 0) p old q new r b c dir dir' h) in
    let same : ino ≡ i = ground (arith, found, k.agrees p old i cached) in
    λ x. shows x ∙ ap (λ n. with_name (without_name (names s.fs.blks) p old) q new n x) same
Step-Seen used (writes i d b at_i plain whole) =
    Step-Effect (Used-Known used).reach (Tree.writes i d b at_i plain whole)
