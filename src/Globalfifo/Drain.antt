-- ===== src/Globalfifo/Drain.antt =====
-- globalfifo.c: what was written can be read.
use lkm_practice.Base.{
  ℕ, zero, suc, ◌+◌, ◌≤◌, ◌<◌, ◌≡◌, refl, true, false, List, [], ◌++◌, arith, append-nil, take, ap,
  ◌∙◌, sym, ◌==◌, ==_iff, Bool-cases, inl, inr,
}
use lkm_practice.Kernel.{Uaccess, IsFilling, CopiesDisjoint}
use lkm_practice.Globalfifo.{Fifo, Done, done, enqueued, r_wait, clamp, read_copy, read_enter}
use lkm_practice.Globalfifo.Queue.{contents}
use lkm_practice.Globalfifo.Stream.{System, idle, call_read, finish_read, Reach}
use lkm_practice.Globalfifo.Conserve.{Inv, Step-Inv, Reach-Inv, AllTakeHalf}

-- Non-blocking reads of `count` bytes by process `i`, one after the other.
pub data Reads (k : Uaccess) (i buf count : ℕ) : System → System → Type 0 where
  no_more : (s : System) → Reads k i buf count s s
  one_more :
      (s : System) {t : System} {d : Done}
      → s.process i ≡ idle
      → read_enter k true buf count s.dev ≡ done d
      → Reads k i buf count (finish_read i d s) t
      → Reads k i buf count s t

module _ (k : Uaccess) (disjoint : CopiesDisjoint k) (filling : IsFilling k) (i buf count : ℕ)
    (copied : (bytes : List ℕ) → k.to_user buf bytes ≡ 0) (some_bytes : 0 < count) where
  -- Where there are bytes, a read returns, and leaves less.
  read_less :
      (dev : Fifo)
      → 0 < dev.current_len
      → (d : Done) × (read_enter k true buf count dev ≡ done d)
        × (d.dev.current_len < dev.current_len)
  unfolding read_enter read_copy
  read_less dev filled =
      let there : (dev.current_len == 0) ≡ false = ground arith in
      (
        read_copy k (enqueued r_wait) buf count dev,
        rw (read_enter, there) refl,
        ground (arith, copied (take (clamp count dev.current_len) dev.mem)),
      )

  nothing_left : (s : System) → Inv s → s.dev.current_len ≡ 0 → s.taken ≡ s.written
  unfolding contents
  nothing_left s h empty =
      let bare : contents s.dev ≡ [] = ap (λ n. take n s.dev.mem) empty in
      sym (h.conserved ∙ ap (λ q. s.taken ++ q) bare ∙ append-nil s.taken)

  drain :
      (fuel : ℕ) (s : System)
      → Inv s
      → s.process i ≡ idle
      → s.dev.current_len ≤ count + count
      → s.dev.current_len ≤ fuel
      → (t : System) × Reads k i buf count s t × (t.taken ≡ s.written) × (t.dev.current_len ≡ 0)
  drain zero s h free half enough =
      let empty : s.dev.current_len ≡ 0 = omega arith in
      (s, no_more s, nothing_left s h empty, empty)
  drain (suc fuel) s h free half enough = elim (Bool-cases (s.dev.current_len == 0)) [
    | inl here ↦
        let empty = (==_iff s.dev.current_len 0).0 here in
        (s, no_more s, nothing_left s h empty, empty)
    | inr filled ↦
        let (d, entered, less) = read_less s.dev (ground arith) in
        let h' = Step-Inv k disjoint filling (call_read i true buf count free entered) half h in
        let (t, reads, all, empty) =
          drain fuel (finish_read i d s) h' (ground arith) (omega arith) (omega arith) in
        (t, one_more s free entered reads, all, empty)
  ]

  -- From every state that an interleaving of processes leads to, a process that is not in a call
  -- can get every byte that was written: with non-blocking reads of any positive number of bytes,
  -- if the buffer can be written, it comes to a state in which the device is empty and everything
  -- that was written has been handed out, in order. The conditions: these reads, and each read
  -- before them, ask for at least half of what the device holds when they take their bytes; memcpy
  -- is right on ranges that do not overlap; and copy_from_user fills all the bytes that it is to
  -- store.
  pub written_is_readable :
      {s : System} (run : Reach k s)
      → AllTakeHalf run
      → s.dev.current_len ≤ count + count
      → s.process i ≡ idle
      → (t : System) × Reads k i buf count s t × (t.taken ≡ s.written) × (t.dev.current_len ≡ 0)
  written_is_readable {s} run halves half free =
      drain s.dev.current_len s (Reach-Inv k disjoint filling run halves) free half (omega arith)
