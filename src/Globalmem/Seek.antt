-- ===== src/Globalmem/Seek.antt =====
-- globalmem.c: what llseek does to the position.
use lkm_practice.Base.{
  ℕ, ◌+◌, ◌*◌, ◌^◌, ◌≤◌, ◌<◌, ◌≡◌, ◌||◌, arith, ltb, ◌==◌, if◌then◌else◌, ℤ, pos, pos_part, add64,
  ◌+ℤ◌, is_negative, IsLoff,
}
use lkm_practice.Kernel.{einval, ok, err}
use lkm_practice.Globalmem.{llseek}

-- The integer that a seek aims at: from the start (0) or from the position (1).
abbrev pub target : ℤ → ℕ → ℕ → ℤ
target offset orig f_pos = if orig == 0 then offset else pos f_pos +ℤ offset

-- A seek from the start, by less than 2 ^ 32, or from the position, by any loff_t, goes to the
-- integer that it aims at if that lies between 0 and the size of the memory, and else returns EINVAL
-- and leaves the position; no wrap of the 64-bit sum goes unnoticed.
pub llseek_lem :
    (size orig f_pos : ℕ) (offset : ℤ)
    → size < 2 ^ 32
    → f_pos ≤ size
    → orig ≤ 1
    → IsLoff offset
    → (orig ≡ 0 → pos_part offset < 2 ^ 32)
    → let t = target offset orig f_pos in
      llseek size offset orig f_pos ≡ (
        if is_negative t || ltb size (pos_part t)
        then (f_pos, err einval)
        else (pos_part t, ok (pos_part t)))
unfolding llseek add64 ◌+ℤ◌
llseek_lem size orig f_pos offset small within known fits near = ground arith

-- A seek from the start cuts its offset to 32 bits before the test against the size: an offset far
-- behind the end is accepted whenever its low 32 bits lie in the memory, and goes there.
pub llseek_truncates :
    (size f_pos q x : ℕ)
    → size < 2 ^ 32
    → x ≤ size
    → q * 2 ^ 32 + x < 2 ^ 63
    → llseek size (pos (q * 2 ^ 32 + x)) 0 f_pos ≡ (x, ok x)
unfolding llseek
llseek_truncates size f_pos q x small h fits = ground arith

-- Whatever the offset and the origin, a position inside the memory stays there.
pub llseek_bounded :
    (size orig f_pos : ℕ) (offset : ℤ) → f_pos ≤ size → (llseek size offset orig f_pos).0 ≤ size
unfolding llseek
llseek_bounded size orig f_pos offset within = ground arith
