-- ===== src/Programs/Driver.antt =====
-- What a program relies on of a device file that is a memory: globalmem and globalmem_lock.
use lkm_practice.Base.{
  ℕ, ◌+◌, ◌-◌, ◌^◌, ◌<◌, ◌≡◌, Bool, List, [], leb, ◌==◌, if◌then◌else◌, min, take, length, window,
  blit, zeroes,
}
use lkm_practice.Kernel.{Ret, ok, err, enxio, enotty}

-- An open file: the memory of the device, and the position.
pub record Opened : Type 0 where
  pub mem : List ℕ
  pub pos : ℕ

-- As many of `n` bytes as lie between the position and the end of a memory of `size` bytes.
abbrev pub cut : ℕ → ℕ → Opened → ℕ
cut size n s = min n (size - s.pos)

-- What write(fd, bytes, their count) and read(fd, buf, n) do; a read has also the bytes that it puts
-- into the buffer.
abbrev pub written : ℕ → List ℕ → Opened → Opened × Ret
written size bytes s =
    let n = cut size (length bytes) s in
    if leb size s.pos
    then (s, if length bytes == 0 then ok 0 else err enxio)
    else (record { mem = blit s.mem s.pos (take n bytes); pos = s.pos + n }, ok n)

abbrev pub fetched : ℕ → ℕ → Opened → Opened × Ret × List ℕ
fetched size n s =
    let m = cut size n s in
    if leb size s.pos
    then (s, if n == 0 then ok 0 else err enxio, [])
    else (record s { pos = s.pos + m }, ok m, window s.pos m s.mem)

-- A driver, with what it promises. `clears` is whether MEM_CLEAR reaches it from the program.
pub record MemDriver : Type 0 where
  pub size : ℕ
  pub clears : Bool
  pub write : List ℕ → Opened → Opened × Ret
  pub read : ℕ → Opened → Opened × Ret × List ℕ
  pub rewind : Opened → Opened × Ret
  pub clear : Opened → Opened × Ret
  pub write_lem :
      (bytes : List ℕ) (s : Opened) → length bytes < 2 ^ 32 → write bytes s ≡ written size bytes s
  pub read_lem : (n : ℕ) (s : Opened) → n < 2 ^ 32 → read n s ≡ fetched size n s
  pub rewind_lem : (s : Opened) → rewind s ≡ (record s { pos = 0 }, ok 0)
  pub clear_lem :
      (s : Opened)
      → clear s ≡ (if clears then (record s { mem = zeroes size }, ok 0) else (s, err enotty))
