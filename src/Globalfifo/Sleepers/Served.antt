-- ===== src/Globalfifo/Sleepers/Served.antt =====
-- globalfifo.c: a reader that waits, and the next writer; a writer that waits, and the next reader.
use lkm_practice.Base.{
  ℕ, ◌≡◌, refl, ap, ◌∙◌, Bool, true, false, List, [], ◌∷◌, arith, ◌==◌, length, length-take, take,
  ◌-◌, ◌++◌, inl, inr, min,
}
use lkm_practice.Kernel.{Uaccess, IsFilling, ok}
use lkm_practice.Globalfifo.{
  Fifo, KernelCall, done, enqueued, down, r_wait, read_copy, read_enter, write_wake, size, clamp,
}
use lkm_practice.Globalfifo.Invariant.{IsValid, read_copy-IsValid}
use lkm_practice.Globalfifo.Queue.{contents, length-contents, view, enqueue}
use lkm_practice.Globalfifo.Refine.{take-clamp, length-clamp, write_copy_refines}
use lkm_practice.Globalfifo.Sleepers.{
  System, idle, after, fresh, Run, stay, next, wakes_writers, writing, call_read, wake_write,
}
use lkm_practice.Globalfifo.Sleepers.Awake.{Run-Inv, fresh-Inv}

module _ (k : Uaccess) (filling : IsFilling k) where
  -- What a read that delivers its bytes returns and delivers.
  read_delivers :
      (pre : List KernelCall) (buf count : ℕ) (dev : Fifo)
      → IsValid dev
      → k.to_user buf (take count (contents dev)) ≡ 0
      → let d = read_copy k pre buf count dev in
        (d.ret ≡ ok (length (take count (contents dev)))) × (d.sent ≡ take count (contents dev))
  unfolding read_copy contents
  read_delivers pre buf count dev v taken = ground (
    arith,
    taken,
    take-clamp count dev.current_len dev.mem,
    length-clamp count dev.current_len dev.mem (omega (arith, v.full_array, v.within)),
  )

  -- What the writer stores in an empty device, and what the reader then gets.
  abbrev pub stored : (buf count : ℕ) → List ℕ
  stored buf count = (k.from_user buf (min count size)).1

  -- What is left behind by a reader of a full device, and what the writer that it makes room for
  -- then stores.
  abbrev pub room_for : (buf count count' : ℕ) → List ℕ
  room_for buf count count' = (k.from_user buf (min count (min count' size))).1

  read_full :
      (buf count : ℕ) {dev : Fifo}
      → IsValid dev
      → dev.current_len ≡ size
      → k.to_user buf (take count (contents dev)) ≡ 0
      → let d = read_copy k (enqueued r_wait) buf count dev in
        (d.ret ≡ ok (min count size))
        × (d.sent ≡ take count (contents dev))
        × (d.dev.current_len ≡ size - min count size)
        × (wakes_writers d.log ≡ true)
  unfolding contents read_copy
  read_full buf count {dev} v full taken =
      let q = contents dev in
      let (returns, sent) = read_delivers (enqueued r_wait) buf count dev v taken in
      let amount : length (take count q) ≡ min count size =
        ground (arith, length-take count q, length-contents v, full) in
      let arrives : (k.to_user buf (take (clamp count dev.current_len) dev.mem) == 0) ≡ true =
        ground (arith, taken, take-clamp count dev.current_len dev.mem) in
      (
        returns ∙ ap ok amount,
        sent,
        rw (read_copy, arrives) (ground (arith, full)),
        rw (read_copy, arrives) refl,
      )

  -- In every state that any interleaving of processes leads to, the next read wakes a writer that
  -- sleeps and was not woken, if the device was not cleared since writers were woken and the
  -- reader's buffer can be written: the reader gets as many of the 4096 bytes as it asked for, from
  -- the front, and the writer, if it gets up next and its bytes arrive, stores as many of them as
  -- the reader has left room for, behind what the device holds then. The condition: copy_from_user
  -- fills all the bytes that it is to store.
  pub writer_served :
      (i j buf count buf' count' : ℕ) (nonblock : Bool) {s : System}
      → Run k fresh s
      → (j == i) ≡ false
      → s.process i ≡ writing false buf count
      → s.process j ≡ idle
      → s.cleared ≡ false
      → k.to_user buf' (take count' (contents s.dev)) ≡ 0
      → (k.from_user buf (min count (min count' size))).0 ≡ 0
      → let d = read_copy k (enqueued r_wait) buf' count' s.dev in
        let d' = write_wake k false buf count d.dev in
        Run k s (after i d' (after j d s))
        × (d.ret ≡ ok (min count' size))
        × (d.sent ≡ take count' (contents s.dev))
        × (d'.ret ≡ ok (min count (min count' size)))
        × (contents d'.dev ≡ contents d.dev ++ room_for buf count count')
  unfolding write_wake read_enter
  writer_served i j buf count buf' count' nonblock {s} run apart asleep free quiet taken arrives =
      let h = Run-Inv k filling run (fresh-Inv k filling) in
      let full : s.dev.current_len ≡ size = elim (h.writers i buf count asleep) [
        | inl full ↦ full
        | inr was ↦ absurd (ground (arith, was, quiet))
      ] in
      let d = read_copy k (enqueued r_wait) buf' count' s.dev in
      let d' = write_wake k false buf count d.dev in
      let valid = read_copy-IsValid k filling (enqueued r_wait) buf' count' h.valid in
      let (ret, sent, left, wakes) = read_full buf' count' h.valid full taken in
      let rest = contents d.dev in
      let room : size - length rest ≡ min count' size =
        omega (arith, length-contents valid, left) in
      let stores : enqueue k buf count rest
          ≡ (ok (min count (min count' size)), [], rest ++ room_for buf count count') =
        ground (arith, arrives, room) in
      let seen : view d'
          ≡ (ok (min count (min count' size)), [], rest ++ room_for buf count count') =
        write_copy_refines k (down ∷ []) buf count filling valid ∙ stores in
      let enters : read_enter k nonblock buf' count' s.dev ≡ done d = ground (arith, full) in
      let up_now : (after j d s).process i ≡ writing true buf count =
        ground (arith, asleep, apart, wakes) in
      (
        next (next stay (call_read j nonblock buf' count' free enters))
            (wake_write i false true up_now refl),
        ret,
        sent,
        ap (λ x. x.0) seen,
        ap (λ x. x.2) seen,
      )
