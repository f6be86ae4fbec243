-- ===== src/Expfs/File.antt =====
-- expfs.c: reads and writes of a file, and the lock that they take.
use lkm_practice.Base.{
  ℕ, ◌+◌, ◌-◌, ◌%◌, ◌^◌, ◌≤◌, ◌<◌, ◌≡◌, refl, sym, ap, ◌∙◌, min, Bool, true, false, not, ◌||◌, List,
  [], ◌∷◌, ◌++◌, arith, dec_lt, ltb, leb, ◌==◌, if◌then◌else◌, blit, length, take, take-blit_end,
  length-blit,
}
use lkm_practice.Kernel.{Uaccess, IsFilling, ok}
use lkm_practice.Expfs.{FileBlock, SpinCall, spin_lock, spin_unlock, buffer_size, read, write}

pub record IsValid (blk : FileBlock) : Type 0 where
  pub full_buffer : length blk.buffer ≡ buffer_size
  pub within : blk.filesize ≤ buffer_size

-- Whether the lock is held after the calls; it must not be taken twice nor released when free.
abbrev pub held : Bool → List SpinCall → Bool
held h [] = h
held h (spin_lock ∷ l) = held true l
held h (spin_unlock ∷ l) = held false l

module _ (k : Uaccess) (buf len : ℕ) (blk : FileBlock) (p : ℕ) where
  -- A read returns with the lock held exactly when the position is at or behind the end of the file
  -- or the copy to the user fails, and a write exactly when the position is at or behind the end of
  -- the buffer.
  pub lock_left :
      (held false (read k buf len blk p).log
        ≡ (leb blk.filesize p || not (k.to_user buf (take (min blk.filesize len) blk.buffer) == 0)))
      × (held false (write k buf len blk p).log ≡ leb buffer_size p)
  unfolding read write
  lock_left = (ground arith, ground arith)

  -- Reads and writes keep the block well formed: its buffer keeps 256 bytes and the file's size is
  -- at most that, on every branch.
  pub file-IsValid :
      IsFilling k
      → IsValid blk
      → IsValid (read k buf len blk p).blk × IsValid (write k buf len blk p).blk
  unfolding read write
  file-IsValid filling v =
      let count = len % 2 ^ 32 in
      let n = if ltb (buffer_size - p) count then buffer_size - p else count in
      let bytes = (k.from_user buf n).1 in
      (
        ground arith,
        elim (dec_lt p buffer_size) [
          | no behind ↦ ground (arith, behind)
          | yes before ↦ ground (
            arith,
            before,
            filling.fills buf n,
            length-blit blk.buffer p bytes (ground (arith, filling.fills buf n)),
          )
        ],
      )

  -- A read before the end of the file hands out the front of the file, wherever the position is.
  pub read_front :
      p < blk.filesize
      → k.to_user buf (take (min blk.filesize len) blk.buffer) ≡ 0
      → ((read k buf len blk p).sent ≡ take (min blk.filesize len) blk.buffer)
        × ((read k buf len blk p).ret ≡ ok (min blk.filesize len))
        × ((read k buf len blk p).f_pos ≡ p + min blk.filesize len)
  unfolding read
  read_front h copied = (ground arith, ground arith, ground arith)

module _ (k : Uaccess) (buf len : ℕ) (blk : FileBlock) (p : ℕ) where
  write_blk :
      0 < len
      → p + len ≤ buffer_size
      → (k.from_user buf len).0 ≡ 0
      → (write k buf len blk p).blk
        ≡ record { filesize = p + len; buffer = blit blk.buffer p (k.from_user buf len).1 }
  unfolding write
  write_blk some_bytes room arrived =
      let same : len % 2 ^ 32 ≡ len = omega arith in
      let near : leb buffer_size p ≡ false = ground arith in
      let fits : ltb (buffer_size - p) len ≡ false = ground arith in
      rw (same, near, fits, arrived) refl

  -- A write of at least one byte, within the buffer, whose bytes all arrive ends the file behind
  -- them, and a read from the start of at least the whole file, whose copy_to_user succeeds, then
  -- hands out what lay before the position, followed by them, and returns their number. The
  -- conditions: the buffer has its whole size, and copy_from_user fills all the bytes that it is to
  -- store.
  pub read-write :
      (buf' asked : ℕ)
      → IsFilling k
      → IsValid blk
      → 0 < len
      → p + len ≤ buffer_size
      → (k.from_user buf len).0 ≡ 0
      → p + len ≤ asked
      → k.to_user buf' (take p blk.buffer ++ (k.from_user buf len).1) ≡ 0
      → ((read k buf' asked (write k buf len blk p).blk 0).sent
          ≡ take p blk.buffer ++ (k.from_user buf len).1)
        × ((read k buf' asked (write k buf len blk p).blk 0).ret ≡ ok (p + len))
  read-write buf' asked filling v some_bytes room arrived enough copied =
      let bytes = (k.from_user buf len).1 in
      let amount : length bytes ≡ len = filling.fills buf len in
      let front : take (p + len) (blit blk.buffer p bytes) ≡ take p blk.buffer ++ bytes =
        ap (λ n. take (p + n) (blit blk.buffer p bytes)) (sym amount)
        ∙ take-blit_end blk.buffer p bytes (omega (arith, v)) in
      let all : min (p + len) asked ≡ p + len = omega arith in
      let b : FileBlock = record { filesize = p + len; buffer = blit blk.buffer p bytes } in
      let whole : take (min (p + len) asked) b.buffer ≡ take p blk.buffer ++ bytes = rw all front in
      let (sent, ret, moved) =
        read_front k buf' asked b 0 (omega arith) (ap (k.to_user buf') whole ∙ copied) in
      rw (write_blk some_bytes room arrived) (sent ∙ whole, ret ∙ ap ok all)
