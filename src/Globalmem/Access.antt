-- ===== src/Globalmem/Access.antt =====
-- globalmem.c: what read, write and ioctl do to the memory.
use lkm_practice.Base.{
  ℕ, ◌+◌, ◌-◌, ◌%◌, ◌^◌, ◌≤◌, ◌<◌, ◌≡◌, refl, ◌∙◌, ap, sym, dec_lt, take-add, drop-add, List, [],
  ◌++◌, arith, ◌==◌, if◌then◌else◌, blit, window, min, length, take, drop, length-blit, window-blit,
  take-blit_before, drop-blit_after,
}
use lkm_practice.Kernel.{enxio, ok, err, Uaccess, IsFilling}
use lkm_practice.Globalmem.{refuse, read, write}

-- The bytes that a call at position `p` may touch.
abbrev pub room : ℕ → ℕ → ℕ → ℕ
room size p asked = min (asked % 2 ^ 32) (size - p)

abbrev pub IsMapped : Uaccess → Type 0
IsMapped k = (buf : ℕ) (bytes : List ℕ) → k.to_user buf bytes ≡ 0

-- A read whose user buffer is mapped, before and from the end of the memory on.
module _ (size : ℕ) (k : Uaccess) (buf asked : ℕ) (mem : List ℕ) (p : ℕ) where
  read_before :
      p < size
      → IsMapped k
      → let n = room size p asked in
        read size k buf asked mem p
        ≡ record { mem = mem; f_pos = p + n; ret = ok n; sent = window p n mem }
  unfolding read
  read_before h mapped = ground (arith, mapped buf (window p (room size p asked) mem))

  read_behind :
      size ≤ p
      → read size k buf asked mem p ≡ refuse mem p (if asked % 2 ^ 32 == 0 then ok 0 else err enxio)
  unfolding read
  read_behind h = ground arith

-- Reading `a` and then `b` bytes hands out what one read of `a + b` bytes hands out, and leaves the
-- position where that leaves it; also across and behind the end of the memory. The user's buffers
-- are mapped, and the count fits an unsigned int.
pub read_chunks :
    (size : ℕ) (k : Uaccess) (buf buf' buf'' a b : ℕ) (mem : List ℕ) (p : ℕ)
    → IsMapped k
    → a + b < 2 ^ 32
    → let first = read size k buf a mem p in
      let second = read size k buf' b first.mem first.f_pos in
      let whole = read size k buf'' (a + b) mem p in
      (first.sent ++ second.sent ≡ whole.sent) × (second.f_pos ≡ whole.f_pos)
read_chunks size k buf buf' buf'' a b mem p mapped small = elim (dec_lt p size) [
  | no behind ↦ ground (
    arith,
    read_behind size k buf a mem p (omega arith),
    read_behind size k buf' b mem p (omega arith),
    read_behind size k buf'' (a + b) mem p (omega arith),
  )
  | yes before ↦
      let n = room size p a in
      let m = room size (p + n) b in
      let sum : room size p (a + b) ≡ n + m = omega arith in
      let bytes : window p (n + m) mem ≡ window p n mem ++ window (p + n) m mem =
        take-add n m (drop p mem) ∙ ap (λ t. window p n mem ++ take m t) (sym (drop-add p n mem)) in
      rw
        (
          read_before size k buf a mem p before mapped,
          read_before size k buf'' (a + b) mem p before mapped,
          sum,
          bytes,
        )
        (elim (dec_lt (p + n) size) [
          | yes more ↦ rw (read_before size k buf' b mem (p + n) more mapped) (refl, omega arith)
          | no end ↦
              let none_left : m ≡ 0 = omega arith in
              rw (read_behind size k buf' b mem (p + n) (omega arith), none_left)
                (refl, omega arith)
        ])
]

-- Every write, also one that fails, keeps the size of the memory and leaves the bytes before the
-- position, and those behind the last byte that it may touch, as they were.
pub write_frame :
    (size : ℕ) (k : Uaccess) (buf asked : ℕ) (mem : List ℕ) (p : ℕ)
    → IsFilling k
    → length mem ≡ size
    → let d = write size k buf asked mem p in
      let n = room size p asked in
      (length d.mem ≡ size) × (take p d.mem ≡ take p mem) × (drop (p + n) d.mem ≡ drop (p + n) mem)
unfolding write
write_frame size k buf asked mem p filling full =
    let n = room size p asked in
    let bytes = (k.from_user buf n).1 in
    let w : length bytes ≡ n = filling.fills buf n in
    let behind : p ≤ length mem → drop (p + n) (blit mem p bytes) ≡ drop (p + n) mem =
      λ h. rw w at (drop-blit_after mem p bytes h) in
    ground (arith, w, length-blit mem p bytes, take-blit_before mem p bytes, behind)

-- A write that succeeds before the end of the memory.
write_before :
    (size : ℕ) (k : Uaccess) (buf asked : ℕ) (mem : List ℕ) (p n : ℕ)
    → p < size
    → (write size k buf asked mem p).ret ≡ ok n
    → (n ≡ room size p asked)
      × (write size k buf asked mem p
          ≡ record { mem = blit mem p (k.from_user buf n).1; f_pos = p + n; ret = ok n; sent = [] })
unfolding write
write_before size k buf asked mem p n h e = ground arith

-- What a write that succeeds, from a position within the memory, took from the user, a read of as
-- many bytes at the same position hands out again, and leaves the same position. The conditions:
-- the memory has the device's size; every copy_to_user succeeds; and copy_from_user fills all the
-- bytes that it is to store.
pub write-read :
    (size : ℕ) (k : Uaccess) (buf buf' asked : ℕ) (mem : List ℕ) (p n : ℕ)
    → IsFilling k
    → IsMapped k
    → length mem ≡ size
    → p < size
    → (write size k buf asked mem p).ret ≡ ok n
    → let d = write size k buf asked mem p in
      ((read size k buf' n d.mem p).sent ≡ (k.from_user buf n).1)
      × ((read size k buf' n d.mem p).f_pos ≡ d.f_pos)
write-read size k buf buf' asked mem p n filling mapped full h e =
    let (count, done) = write_before size k buf asked mem p n h e in
    let bytes = (k.from_user buf n).1 in
    let w : length bytes ≡ n = filling.fills buf n in
    let same : room size p n ≡ n = omega arith in
    rw (done, read_before size k buf' n (blit mem p bytes) p h mapped, same)
      (rw w at (window-blit mem p bytes (omega arith)), refl)
