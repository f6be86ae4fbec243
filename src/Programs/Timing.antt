-- ===== src/Programs/Timing.antt =====
-- globalmem_lock/test2.c: a program that times writes, reads and clears, ten rounds of them. The clock
-- and what is printed are left out.
use lkm_practice.Base.{
  ℕ, zero, suc, ◌+◌, ◌-◌, ◌≤◌, ◌<◌, ◌≡◌, refl, ap, ap₂, ◌∙◌, List, [], ◌∷◌, ◌++◌, arith, length,
  replicate, take, blit, window, length-window, length-blit, length-zeroes, Bool-cases, inl, inr,
}
use lkm_practice.Kernel.{Ret, ok, err, enxio}
use lkm_practice.Programs.Driver.{Opened, MemDriver}

-- The sizes of the buffers, the count that is handed to read, and the number of rounds.
abbrev pub recv_size : ℕ
recv_size = 1024

abbrev pub asked : ℕ
asked = 102400

abbrev pub rounds : ℕ
rounds = 10

-- The string in sendbuf: twenty times 1, twice 2, fourteen times a, nineteen times b, eleven times c.
abbrev pub sendbuf : List ℕ
sendbuf = replicate 20 49 ++ replicate 2 50 ++ replicate 14 97 ++ replicate 19 98 ++ replicate 11 99

-- What the calls of a round return, and by how many bytes the read overruns recvbuf. The program
-- looks at none of it: it goes on as if recvbuf had had room.
pub record Round : Type 0 where
  pub write_ret : Ret
  pub read_ret : Ret
  pub overrun : ℕ

pub round : MemDriver → Opened → Opened × Round
round d s =
    let (s1, write_ret) = d.write sendbuf s in
    let (s2, r) = d.rewind s1 in
    let (s3, read_ret, bytes) = d.read asked s2 in
    let (s4, r') = d.clear s3 in
    (s4, record { write_ret = write_ret; read_ret = read_ret; overrun = length bytes - recv_size })

pub loop : MemDriver → ℕ → Opened → List Round
loop d zero s = []
loop d (suc n) s = let (s', r) = round d s in r ∷ loop d n s'

pub main : MemDriver → Opened → List Round
main d s = loop d rounds s

-- A round whose read starts at 0, by what its write returns.
abbrev pub reads_all : MemDriver → Ret → Round
reads_all d ret = record { write_ret = ret; read_ret = ok d.size; overrun = d.size - recv_size }

module _ (d : MemDriver) (small : d.size ≤ asked) where
  -- A file at the end of the memory, where every round leaves it.
  record AtEnd (s : Opened) : Type 0 where
    at_size : s.pos ≡ d.size
    full : length s.mem ≡ d.size

  -- The read and the clear of a round, after its write.
  after_write :
      (s s1 : Opened) (ret : Ret)
      → 0 < d.size
      → d.write sendbuf s ≡ (s1, ret)
      → length s1.mem ≡ d.size
      → AtEnd (round d s).0 × ((round d s).1 ≡ reads_all d ret)
  unfolding round
  after_write s s1 ret some_size wrote full =
      let s2 : Opened = record s1 { pos = 0 } in
      let got : d.read asked s2 ≡ (record s2 { pos = d.size }, ok d.size, window 0 d.size s1.mem) =
        ground (arith, d.read_lem asked s2) in
      let cleared : AtEnd (d.clear (record s2 { pos = d.size })).0 = elim (Bool-cases d.clears) [
        | inl on ↦
            rw (d.clear_lem (record s2 { pos = d.size }), on)
              (record { at_size = refl; full = length-zeroes d.size })
        | inr off ↦
            rw (d.clear_lem (record s2 { pos = d.size }), off)
              (record { at_size = refl; full = full })
      ] in
      rw (wrote, d.rewind_lem s1, got)
        (
          cleared,
          ap (λ n. record { write_ret = ret; read_ret = ok d.size; overrun = n - recv_size })
              (length-window 0 d.size s1.mem (omega (arith, full))),
        )

  loop_later :
      (n : ℕ) (s : Opened)
      → 0 < d.size
      → AtEnd s
      → loop d n s ≡ replicate n (reads_all d (err enxio))
  unfolding loop
  loop_later zero s some_size e = refl
  loop_later (suc n) s some_size e =
      let wrote : d.write sendbuf s ≡ (s, err enxio) =
        ground (arith, d.write_lem sendbuf s, e.at_size) in
      let (e', r) = after_write s s (err enxio) some_size wrote e.full in
      ap₂ (λ x xs. x ∷ xs) r (loop_later n (round d s).0 some_size e')

  -- On a memory that has room for the string and at most 102400 bytes, and from position 0, only
  -- the first of the ten writes that are timed stores anything: the position is at the end of the
  -- memory after each read, so that every later write fails. Every read returns the whole memory
  -- and overruns recvbuf by what the memory has above 1024 bytes.
  pub main-writes_once :
      (s : Opened)
      → length sendbuf ≤ d.size
      → s.pos ≡ 0
      → length s.mem ≡ d.size
      → main d s ≡ reads_all d (ok (length sendbuf)) ∷ replicate 9 (reads_all d (err enxio))
  unfolding main loop
  main-writes_once s room fresh full =
      let wrote : d.write sendbuf s ≡ (
        record {
          mem = blit s.mem s.pos (take (length sendbuf) sendbuf);
          pos = s.pos + length sendbuf;
        },
        ok (length sendbuf),
      ) =
        ground (arith, d.write_lem sendbuf s) in
      let kept : length (blit s.mem s.pos (take (length sendbuf) sendbuf)) ≡ d.size =
        length-blit s.mem s.pos (take (length sendbuf) sendbuf) (omega arith) ∙ full in
      let (e, r) = after_write s _ (ok (length sendbuf)) (omega arith) wrote kept in
      ap₂ (λ x xs. x ∷ xs) r (loop_later 9 (round d s).0 (omega arith) e)
