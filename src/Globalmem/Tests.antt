-- ===== src/Globalmem/Tests.antt =====
-- Runs of globalmem.c, and its theorems at concrete inputs.
use lkm_practice.Base.{ℕ, ◌+◌, ◌^◌, ◌≡◌, refl, List, [], ◌∷◌, ◌++◌, arith, blit, negsuc, ◌+ℤ◌}
use lkm_practice.Kernel.{ok, err, enxio}
use lkm_practice.Kernel.Samples.{mapped, mapped-IsFilling}
use lkm_practice.Globalmem.{globalmem_size, read, write, llseek}
use lkm_practice.Globalmem.Access.{read_chunks, write-read}
use lkm_practice.Globalmem.Seek.{llseek_lem}
use lkm_practice.Globalmem.Calls.{Op, read_op, write_op, seek_op, ioctl_op}

-- A memory of 8 bytes.
abbrev small : List ℕ
small = 0 ∷ 1 ∷ 2 ∷ 3 ∷ 4 ∷ 5 ∷ 6 ∷ 7 ∷ []

-- At position 6 two bytes are left of the four asked for.
read_end : (read 8 mapped 0 4 small 6).sent ≡ 6 ∷ 7 ∷ []
unfolding read
read_end = refl

read_behind_end : (read 8 mapped 0 4 small 8).ret ≡ err enxio
unfolding read
read_behind_end = refl

-- The 32-bit count of 2 ^ 32 + 1 is 1.
read_cut : (read 8 mapped 0 (2 ^ 32 + 1) small 6).sent ≡ 6 ∷ []
unfolding read
read_cut = refl

write_middle : (write 8 mapped 40 2 small 3).mem ≡ 0 ∷ 1 ∷ 2 ∷ 40 ∷ 41 ∷ 5 ∷ 6 ∷ 7 ∷ []
unfolding write blit
write_middle = refl

read_chunks_example :
    let first = read 8 mapped 0 3 small 4 in
    let second = read 8 mapped 0 5 first.mem first.f_pos in
    let whole = read 8 mapped 0 8 small 4 in
    (first.sent ++ second.sent ≡ whole.sent) × (second.f_pos ≡ whole.f_pos)
read_chunks_example = read_chunks 8 mapped 0 0 0 3 5 small 4 (λ buf bytes. refl) (omega arith)

write-read_example :
    let d = write 8 mapped 40 2 small 3 in
    ((read 8 mapped 0 2 d.mem 3).sent ≡ 40 ∷ 41 ∷ [])
    × ((read 8 mapped 0 2 d.mem 3).f_pos ≡ d.f_pos)
unfolding write
write-read_example =
    write-read 8 mapped 40 0 2 small 3 2 mapped-IsFilling (λ buf bytes. refl) refl (omega arith)
      refl

llseek_lem_example : llseek globalmem_size (negsuc 9) 1 30 ≡ (20, ok 20)
unfolding ◌+ℤ◌
llseek_lem_example =
    llseek_lem globalmem_size 1 30 (negsuc 9) (omega arith) (omega arith) (omega arith)
      (omega arith) (λ e. omega arith)

abbrev calls : List Op
calls = write_op 40 2 ∷ seek_op (negsuc 1) 1 ∷ read_op 0 100 ∷ ioctl_op 1 ∷ []
