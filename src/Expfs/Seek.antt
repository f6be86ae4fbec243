-- ===== src/Expfs/Seek.antt =====
-- expfs.c: positions in a file.
use lkm_practice.Base.{
  ◌+ℤ◌, IsLoff, ℕ, ◌≤◌, ◌≡◌, Bool, ◌||◌, arith, ltb, ◌==◌, if◌then◌else◌, ℤ, pos, add64,
  is_negative, pos_part,
}
use lkm_practice.Kernel.{ok, err, einval}
use lkm_practice.Expfs.{llseek, buffer_size}

-- Whether a position that a seek aims at is refused.
abbrev pub outside : ℤ → Bool
outside t = is_negative t || ltb buffer_size (pos_part t)

-- A seek from the start (0) or from the position (1), by any loff_t, goes to the integer that it
-- aims at if that lies between 0 and 256, and else returns EINVAL and leaves the position.
pub llseek-target :
    (orig f_pos : ℕ) (offset : ℤ)
    → f_pos ≤ buffer_size
    → orig ≤ 1
    → IsLoff offset
    → let t = if orig == 0 then offset else pos f_pos +ℤ offset in
      llseek offset orig f_pos
      ≡ (if outside t then (f_pos, err einval) else (pos_part t, ok (pos_part t)))
unfolding llseek add64 ◌+ℤ◌
llseek-target orig f_pos offset within known fits = ground arith
