-- ===== src/Expfs/Persistence.antt =====
-- expfs.c: a file stays where it is, under its name, while others are used.
use lkm_practice.Base.{
  ℕ, ◌≡◌, ◌≢◌, ap, ◌∙◌, some, List, [], ◌∷◌, ◌++◌, arith, inl, inr, ◌⊎◌, ◌==◌, ==_iff, Bool-cases,
}
use lkm_practice.Kernel.{strcmp_eq}
use lkm_practice.Expfs.{Entry}
use lkm_practice.Expfs.Entries.{find}
use lkm_practice.Expfs.Names.{find-delete_other}
use lkm_practice.Expfs.Blocks.{Block, Fs}
use lkm_practice.Expfs.Tree.{
  Step, creates, links, unlinks, removes, renames, writes, Reach, Reach-Good,
}
use lkm_practice.Expfs.Directories.{names, with_name, without_name}
use lkm_practice.Expfs.Blocks.Shrink.{rmdir-returned}
use lkm_practice.Expfs.Directories.Refine.{Step-Effect, found_in_names}
use lkm_practice.Expfs.Contents.{IsFile, Spares}

-- The name `name` in the directory of block `p` is that of block `i`.
abbrev pub Names : Fs → ℕ → List ℕ → ℕ → Type 0
Names s p name i = find name (names s.blks p) ≡ some i

-- The operation does not rename the name away.
abbrev pub LeavesName : (p : ℕ) (name : List ℕ) {s t : Fs} → Step s t → Type 0
LeavesName p name (creates memory q other mode r b dir h) = Unit {0}
LeavesName p name (links store memory memory' q other target r b dir fresh h) = Unit {0}
LeavesName p name (unlinks simple q other j r b bj dir known at_j plain h) = Unit {0}
LeavesName p name (removes simple q other j r b dir known h) = Unit {0}
LeavesName p name (renames memory simple q old q' new r b c dir dir' h) = (q ≢ p) ⊎ (old ≢ name)
LeavesName p name (writes j d b at_j plain whole) = Unit {0}

find-append_first :
    (name : List ℕ) (es more : List Entry) {i : ℕ}
    → find name es ≡ some i
    → find name (es ++ more) ≡ some i
find-append_first name [] more h = absurd (ground (arith, h))
find-append_first name (e ∷ es) more h = elim (Bool-cases (strcmp_eq e.name name)) [
  | inl same ↦ rw same (ground (arith, h, same))
  | inr other ↦ rw other (find-append_first name es more (ground (arith, h, other)))
]

module _ (m : ℕ → List Entry) (p : ℕ) (name : List ℕ) (i : ℕ)
    (known : find name (m p) ≡ some i) where
  pub with_keeps :
      (q : ℕ) (other : List ℕ) (idx : ℕ) → find name (with_name m q other idx p) ≡ some i
  with_keeps q other idx = elim (Bool-cases (q == p)) [
    | inl here ↦
        let same : m q ≡ m p = ap m ((==_iff q p).0 here) in
        rw (here, same)
          (find-append_first name (m p) (record { name = other; index = idx } ∷ []) known)
    | inr there ↦ rw there known
  ]

  pub without_keeps :
      (q : ℕ) (other : List ℕ)
      → (q ≢ p) ⊎ (other ≢ name)
      → find name (without_name m q other p) ≡ some i
  without_keeps q other h = elim (Bool-cases (q == p)) [
    | inl here ↦ elim h [
      | inl apart ↦ absurd (apart ((==_iff q p).0 here))
      | inr differs ↦
          let same : m q ≡ m p = ap m ((==_iff q p).0 here) in
          rw (here, same) (find-delete_other other name (m p) differs ∙ known)
    ]
    | inr there ↦ rw there known
  ]

  -- A name of another block is not that name.
  another_name :
      (q : ℕ) (other : List ℕ) (j : ℕ)
      → find other (m q) ≡ some j
      → j ≢ i
      → (q ≢ p) ⊎ (other ≢ name)
  another_name q other j found apart = elim (Bool-cases (q == p)) [
    | inr there ↦ inl (ground (arith, ==_iff q p))
    | inl here ↦ inr (λ same. apart (
        ground (
          arith,
          ap (λ n. find n (m q)) same,
          ap (λ n. find name (m n)) ((==_iff q p).0 here),
          found,
          known,
        )))
  ]

pub Step-Names :
    (p : ℕ) (name : List ℕ) (i : ℕ) {b : Block} {s t : Fs}
    → Reach s
    → IsFile s i b
    → Names s p name i
    → (step : Step s t) → Spares i step
    → LeavesName p name step
    → Names t p name i
Step-Names p name i {b} {s} reach file known (creates memory q other mode r d dir h) spares leaves =
    elim (Step-Effect reach (creates memory q other mode r d dir h)) [
      | inl same ↦ ap (λ x. find name (names x.blks p)) same ∙ known
      | inr (idx, free, shows) ↦
          ap (find name) (shows p) ∙ with_keeps (names s.blks) p name i known q other idx
    ]
Step-Names p name i {b} {s} reach file known
      (links store memory memory' q other target r d dir fresh h) spares leaves =
    elim (Step-Effect reach (links store memory memory' q other target r d dir fresh h)) [
      | inl same ↦ ap (λ x. find name (names x.blks p)) same ∙ known
      | inr (idx, free, shows) ↦
          ap (find name) (shows p) ∙ with_keeps (names s.blks) p name i known q other idx
    ]
Step-Names p name i {b} {s} reach file known
      (unlinks simple q other j r d bj dir there at_j plain h) spares leaves =
    let found = found_in_names other q j d (Reach-Good reach).valid dir there in
    ap (find name) (Step-Effect reach (unlinks simple q other j r d bj dir there at_j plain h) p)
    ∙ without_keeps (names s.blks) p name i known q other
        (another_name (names s.blks) p name i known q other j found spares)
Step-Names p name i {b} {s} reach file known (removes simple q other j r d dir there h) spares
      leaves =
    let found = found_in_names other q j d (Reach-Good reach).valid dir there in
    elim (rmdir-returned simple q other j r h) [
      | inl same ↦ ap (λ x. find name (names x.blks p)) same ∙ known
      | inr (bj, at_j, directory, result) ↦
          elim (Step-Effect reach (removes simple q other j r d dir there h)) [
            | inl same ↦ ap (λ x. find name (names x.blks p)) same ∙ known
            | inr shows ↦
                let apart : j ≢ i =
                  λ e. absurd (ground (arith, at_j, directory, file.at, file.plain, e)) in
                ap (find name) (shows p)
                ∙ without_keeps (names s.blks) p name i known q other
                    (another_name (names s.blks) p name i known q other j found apart)
          ]
    ]
Step-Names p name i {b} {s} reach file known (renames memory simple q old q' new r d c dir dir' h)
      spares leaves =
    let (ino, found, shows) =
      Step-Effect reach (renames memory simple q old q' new r d c dir dir' h) in
    ap (find name) (shows p)
    ∙ with_keeps (without_name (names s.blks) q old) p name i
        (without_keeps (names s.blks) p name i known q old leaves) q' new ino
Step-Names p name i {b} {s} reach file known (writes j d c at_j plain whole) spares leaves =
    ap (find name) (Step-Effect reach (writes j d c at_j plain whole) p) ∙ known
