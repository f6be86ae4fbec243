-- ===== src/Expfs/Mount/Iterate.antt =====
-- expfs.c: what expfs_iterate lists, and the lock that it takes.
use lkm_practice.Base.{
  ℕ, zero, suc, ◌+◌, ◌*◌, ◌≤◌, ◌≡◌, refl, sym, ap, ◌∙◌, true, false, not, List, [], ◌∷◌, arith,
  ◌==◌, if◌then◌else◌, length, window,
}
use lkm_practice.Kernel.{ok}
use lkm_practice.Expfs.{Entry}
use lkm_practice.Expfs.Entries
use lkm_practice.Expfs.Entries.{entries, elem_in, window-next}
use lkm_practice.Expfs.File.{held}
use lkm_practice.Expfs.Blocks.{Block, is_dir}
use lkm_practice.Expfs.Mount.{emit, iterate}

emit-window :
    (left i : ℕ) (slots : List Entry)
    → i + left ≤ length slots
    → emit left i slots ≡ window i left slots
unfolding emit
emit-window zero i slots h = refl
emit-window (suc left) i slots h =
    let (e, at_i) = elem_in slots i (omega arith) in
    rw (emit, at_i)
      (ap (λ r. e ∷ r) (emit-window left (i + 1) slots (omega arith))
        ∙ sym (window-next slots i left e at_i))

-- From its start, a directory is listed as the entries it has, in their order, and the position is
-- moved over them; from any other position nothing is listed, and the lock is left held.
pub iterate-entries :
    (dots : ℕ → ℕ) (b : Block) (f_pos ctx_pos : ℕ)
    → Entries.IsValid b.dir
    → is_dir b.mode ≡ true
    → let l = iterate dots b f_pos ctx_pos in
      (l.emitted ≡ (if f_pos == 0 then entries b.dir else []))
      × (l.f_pos ≡ (if f_pos == 0 then 56 * b.dir.dir_children else f_pos))
      × (l.ret ≡ ok 0)
      × (held false l.log ≡ not (f_pos == 0))
unfolding iterate
iterate-entries dots b f_pos ctx_pos v dir =
    let listed = emit-window b.dir.dir_children 0 b.dir.slots (omega (arith, v)) in
    (ground (arith, listed), ground arith, ground arith, ground arith)
