-- ===== src/Expfs/Dcache/Agree.antt =====
-- expfs.c: a cached dentry is bound to the block that expfs_lookup would find.
use lkm_practice.Base.{
  ℕ, ◌≡◌, ◌≢◌, sym, ap, ◌∙◌, Bool, Option, none, some, List, [], ◌∷◌, ◌++◌, arith, inl, inr, ◌⊎◌,
  ◌==◌, ==_iff, Bool-cases,
}
use lkm_practice.Kernel.{Ret, ok, err, strcmp_eq}
use lkm_practice.Expfs.{Entry, lookup}
use lkm_practice.Expfs.Entries.{find}
use lkm_practice.Expfs.Names.{strcmp_eq_refl, strcmp_eq_sound, find-append_new, find-delete_other}
use lkm_practice.Expfs.Blocks.{Mode, symlink, Block, Fs, returned, do_create}
use lkm_practice.Expfs.Blocks.Valid.{IsDir, IsValid}
use lkm_practice.Expfs.Blocks.Grow.{do_create-returned, do_create-ok}
use lkm_practice.Expfs.Blocks.Shrink.{rmdir-err}
use lkm_practice.Expfs.Blocks.Symlink.{symlink_in-do_create}
use lkm_practice.Expfs.Directories.{names, put, with_name, without_name}
use lkm_practice.Expfs.Directories.Effects.{Created-names}
use lkm_practice.Expfs.Directories.Refine.{Shows, Step-Effect, find_in_names}
use lkm_practice.Expfs.Persistence.{Names, with_keeps, without_keeps}
use lkm_practice.Expfs.Tree
use lkm_practice.Expfs.Tree.{Good, Reach-Good}
use lkm_practice.Expfs.Dcache.{
  Dentries, bind, System, made, Step, looks_up, forgets, creates, links, unlinks, removes, renames,
  writes, Used, mounted, next,
}

-- Every cached dentry is that of an entry of its directory, the first of its name.
abbrev pub Agrees : Dentries → Fs → Type 0
Agrees d s = (p : ℕ) (name : List ℕ) (i : ℕ) → d p name ≡ some i → Names s p name i

-- A dentry after a binding is the new one, or an old one of another name.
bind-cases :
    (d : Dentries) (p : ℕ) (name : List ℕ) (o : Option ℕ) (q : ℕ) (other : List ℕ) (i : ℕ)
    → bind d p name o q other ≡ some i
    → ((p ≡ q) × (name ≡ other) × (o ≡ some i))
      ⊎ (((p ≢ q) ⊎ (name ≢ other)) × (d q other ≡ some i))
bind-cases d p name o q other i h = elim (Bool-cases (p == q)) [
  | inr apart ↦ inr (inl (ground (arith, ==_iff p q)), rw apart at h)
  | inl here ↦ elim (Bool-cases (strcmp_eq name other)) [
    | inl same ↦ inl ((==_iff p q).0 here, strcmp_eq_sound name other same, rw (here, same) at h)
    | inr differs ↦ inr (
      inr (λ e. absurd (ground (arith, differs, ap (strcmp_eq name) e, strcmp_eq_refl name))),
      rw (here, differs) at h,
    )
  ]
]

-- If every old dentry of another name stays right and the new one is, all are.
bind-Agrees :
    (d : Dentries) (p : ℕ) (name : List ℕ) (o : Option ℕ) (t : Fs)
    → ((i : ℕ) → o ≡ some i → Names t p name i)
    → ((q : ℕ) (other : List ℕ) (i : ℕ)
        → (p ≢ q) ⊎ (name ≢ other)
        → d q other ≡ some i
        → Names t q other i)
    → Agrees (bind d p name o) t
bind-Agrees d p name o t new old q other i h = elim (bind-cases d p name o q other i h) [
  | inr (apart, known) ↦ old q other i apart known
  | inl (here, same, bound) ↦
      ap (λ n. find n (names t.blks q)) (sym same)
      ∙ ap (λ m. find name (names t.blks m)) (sym here)
      ∙ new i bound
]

bare : (t : Fs) (p : ℕ) (name : List ℕ) (i : ℕ) → none ≡ some i → Names t p name i
bare t p name i h = absurd (ground (arith, h))

put_self : (m : ℕ → List Entry) (p : ℕ) (es : List Entry) → put m p es p ≡ es
put_self m p es = ground (arith, ==_iff p p)

-- A name that is added where it was not is found.
added-found :
    (m : ℕ → List Entry) (p : ℕ) (name : List ℕ) (idx : ℕ)
    → find name (m p) ≡ none
    → find name (with_name m p name idx p) ≡ some idx
added-found m p name idx fresh =
    ap (find name) (put_self m p (m p ++ record { name = name; index = idx } ∷ []))
    ∙ (find-append_new name idx (m p) fresh).0

-- A name that is not there is not there either once another was taken out.
without-absent :
    (m : ℕ → List Entry) (p : ℕ) (old : List ℕ) (q : ℕ) (new : List ℕ) (i : ℕ)
    → find old (m p) ≡ some i
    → find new (m q) ≡ none
    → find new (without_name m p old q) ≡ none
without-absent m p old q new i there fresh = elim (Bool-cases (p == q)) [
  | inr apart ↦ rw apart fresh
  | inl here ↦
      let same : m p ≡ m q = ap m ((==_iff p q).0 here) in
      let apart : old ≢ new =
        λ e. absurd (ground (arith, there, fresh, ap (λ n. find n (m p)) e, ap (find new) same)) in
      rw (here, same) (find-delete_other old new (m q) apart ∙ fresh)
]

created-Agrees :
    (memory : Bool) (p : ℕ) (name : List ℕ) (mode : Mode) (r : Ret) (b : Block) (d : Dentries)
    {s t : Fs}
    → IsValid s
    → Agrees d s
    → IsDir s.blks p b
    → lookup name b.dir ≡ none
    → do_create memory p name mode s ≡ returned r t
    → Agrees (bind d p name (made r s)) t
created-Agrees memory p name mode (err e) b d {s} {t} v agrees dir fresh h =
    elim (do_create-returned memory p name mode s t (err e) h) [
      | inr (fine, c) ↦ absurd (ground (arith, fine))
      | inl same ↦ bind-Agrees d p name none t (bare t p name) (λ q other i apart known.
          ap (λ x. find other (names x.blks q)) same ∙ agrees q other i known)
    ]
created-Agrees memory p name mode (ok n) b d {s} {t} v agrees dir fresh h =
    let c = do_create-ok memory p name mode s t n h in
    let shows = Created-names b v dir c in
    let new : find name (names t.blks p) ≡ some c.idx =
      ap (find name) (shows p)
      ∙ added-found (names s.blks) p name c.idx (find_in_names name p b v dir ∙ fresh) in
    bind-Agrees d p name (made (ok n) s) t (λ i bound. new ∙ sym c.free_one ∙ bound)
      (λ q other i apart known.
        ap (find other) (shows q)
        ∙ with_keeps (names s.blks) q other i (agrees q other i known) p name c.idx)

-- The names are those of `s` but for one that was taken out.
taken-Agrees :
    (d : Dentries) (p : ℕ) (name : List ℕ) (s t : Fs)
    → Agrees d s
    → Shows t (without_name (names s.blks) p name)
    → Agrees (bind d p name none) t
taken-Agrees d p name s t agrees shows =
    bind-Agrees d p name none t (bare t p name) (λ q other i apart known.
      ap (find other) (shows q)
      ∙ without_keeps (names s.blks) q other i (agrees q other i known) p name apart)

moved-Agrees :
    (d : Dentries) (p : ℕ) (old : List ℕ) (q : ℕ) (new : List ℕ) (i ino : ℕ) (s t : Fs)
    → Agrees d s
    → d p old ≡ some i
    → find old (names s.blks p) ≡ some ino
    → find new (names s.blks q) ≡ none
    → Shows t (with_name (without_name (names s.blks) p old) q new ino)
    → Agrees (bind (bind d p old none) q new (some i)) t
moved-Agrees d p old q new i ino s t agrees cached found fresh shows =
    let m = without_name (names s.blks) p old in
    let same : ino ≡ i = ground (arith, found, agrees p old i cached) in
    bind-Agrees (bind d p old none) q new (some i) t
      (λ j bound.
        ap (find new) (shows q)
        ∙ added-found m q new ino (without-absent (names s.blks) p old q new ino found fresh)
        ∙ ap some same
        ∙ bound)
      (λ q' other j apart known. elim (bind-cases d p old none q' other j known) [
        | inl (here, named, bound) ↦ absurd (ground (arith, bound))
        | inr (apart', known') ↦
            ap (find other) (shows q')
            ∙ with_keeps m q' other j
                (without_keeps (names s.blks) q' other j (agrees q' other j known') p old apart') q
                new ino
      ])

-- What is known of the file system in use.
pub record Known (s : System) : Type 0 where
  pub reach : Tree.Reach s.fs
  pub agrees : Agrees s.dentry s.fs

module _ {s : System} (k : Known s) where
  valid : IsValid s.fs
  valid = (Reach-Good k.reach).valid

  -- lookup finds the dentry's block.
  pub known_lookup :
      (p : ℕ) (name : List ℕ) (i : ℕ) (b : Block)
      → IsDir s.fs.blks p b
      → s.dentry p name ≡ some i
      → lookup name b.dir ≡ some i
  known_lookup p name i b dir cached =
      sym (find_in_names name p b valid dir) ∙ k.agrees p name i cached

  Step-Known : {t : System} → Step s t → Known t
  Step-Known (looks_up p name b dir) = record {
    reach = k.reach;
    agrees =
        bind-Agrees s.dentry p name (lookup name b.dir) s.fs
          (λ i found. find_in_names name p b valid dir ∙ found)
          (λ q other i apart known. k.agrees q other i known);
  }
  Step-Known (forgets p name) = record {
    reach = k.reach;
    agrees =
        bind-Agrees s.dentry p name none s.fs (bare s.fs p name)
          (λ q other i apart known. k.agrees q other i known);
  }
  Step-Known (creates memory p name mode r b dir fresh h) = record {
    reach = Tree.next k.reach (Tree.creates memory p name mode r b dir h);
    agrees = created-Agrees memory p name mode r b s.dentry valid k.agrees dir fresh h;
  }
  Step-Known (links store memory memory' p name target r b {t} dir fresh h) = record {
    reach = Tree.next k.reach (Tree.links store memory memory' p name target r b dir fresh h);
    agrees =
        created-Agrees memory p name symlink r b s.dentry valid k.agrees dir fresh
          (symlink_in-do_create store memory memory' p name target b s.fs t r dir fresh h);
  }
  Step-Known (unlinks p name i r b bi {t} dir cached at_i plain h) =
      let known = known_lookup p name i b dir cached in
      let step = Tree.unlinks (ok 0) p name i r b bi dir known at_i plain h in
      record {
        reach = Tree.next k.reach step;
        agrees =
            taken-Agrees s.dentry p name s.fs t k.agrees
              (Step-Effect k.reach (Tree.unlinks (ok 0) p name i r b bi dir known at_i plain h));
      }
  Step-Known (removes p name i (err e) b {t} dir cached h) =
      let same = rmdir-err p name i e h in
      record {
        reach =
            Tree.next k.reach
              (Tree.removes (ok 0) p name i (err e) b dir (known_lookup p name i b dir cached) h);
        agrees =
            bind-Agrees s.dentry p name (some i) t
              (λ j bound.
                ap (λ x. find name (names x.blks p)) same ∙ k.agrees p name j (cached ∙ bound))
              (λ q other j apart known.
                ap (λ x. find other (names x.blks q)) same ∙ k.agrees q other j known);
      }
  Step-Known (removes p name i (ok n) b {t} dir cached h) =
      let known = known_lookup p name i b dir cached in
      record {
        reach = Tree.next k.reach (Tree.removes (ok 0) p name i (ok n) b dir known h);
        agrees = elim (Step-Effect k.reach (Tree.removes (ok 0) p name i (ok n) b dir known h)) [
          | inl same ↦
              bind-Agrees s.dentry p name none t (bare t p name) (λ q other j apart cached'.
                ap (λ x. find other (names x.blks q)) same ∙ k.agrees q other j cached')
          | inr shows ↦ taken-Agrees s.dentry p name s.fs t k.agrees shows
        ];
      }
  Step-Known (renames memory p old q new i r b c {t} dir dir' cached fresh h) =
      let step = Tree.renames memory (ok 0) p old q new r b c dir dir' h in
      let (ino, found, shows) =
        Step-Effect k.reach (Tree.renames memory (ok 0) p old q new r b c dir dir' h) in
      record {
        reach = Tree.next k.reach step;
        agrees =
            moved-Agrees s.dentry p old q new i ino s.fs t k.agrees cached found
              (find_in_names new q c valid dir' ∙ fresh) shows;
      }
  Step-Known (writes i d b at_i plain whole) = record {
    reach = Tree.next k.reach (Tree.writes i d b at_i plain whole);
    agrees = λ q other j known.
        ap (find other) (Step-Effect k.reach (Tree.writes i d b at_i plain whole) q)
        ∙ k.agrees q other j known;
  }

pub Used-Known : {s : System} → Used s → Known s
Used-Known (mounted registered r {s} {t} loaded filled) = record {
  reach = Tree.mounted registered r loaded filled;
  agrees = λ p name i h. bare t p name i h;
}
Used-Known (next used step) = Step-Known (Used-Known used) step

-- However a mounted file system is used, in every state every block in use but the root's is named
-- by exactly one entry of the directories in use and no block that is free is named; at least as
-- many blocks are counted as are in use; and every dentry that the kernel has cached is bound to
-- the block of the first entry of its name, so that unlink, rmdir and rename take the file that
-- expfs_lookup would find. The conditions: no rename has flags or is to a name that its directory
-- has, nothing is written to a block that has become a directory, by a descriptor of a file that
-- was unlinked, and no operation writes behind an array, as one does that adds a fifth entry to a
-- directory.
pub Used-Good : {s : System} → Used s → Good s.fs × Agrees s.dentry s.fs
Used-Good used = let k = Used-Known used in (Reach-Good k.reach, k.agrees)
