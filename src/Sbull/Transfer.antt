-- ===== src/Sbull/Transfer.antt =====
-- sbull.c: what a request does to the bytes of the device.
use lkm_practice.Base.{
  blit_whole, word64, ℕ, ◌+◌, ◌%◌, ◌^◌, ◌≤◌, ◌<◌, ◌≡◌, refl, ap, sym, ◌∙◌, Bool, true, false, some,
  List, [], ◌∷◌, ◌++◌, arith, blit, window, length, take, drop, length-blit, length-window,
  length-append, take_all, ap₂, blit-nil, blit-blit, take-add, drop-add,
}
use lkm_practice.Sbull.{Served, segment_length, transfer_bytes, segments}

-- The bytes of all buffers in order, and their number.
abbrev pub joined : List (List ℕ) → List ℕ
joined [] = []
joined (b ∷ bs) = b ++ joined bs

abbrev pub total : List (List ℕ) → ℕ
total [] = 0
total (b ∷ bs) = length b + total bs

pub length-joined : (bs : List (List ℕ)) → length (joined bs) ≡ total bs
length-joined [] = refl
length-joined (b ∷ bs) = length-append b (joined bs) ∙ ap (λ n. length b + n) (length-joined bs)

-- Inside the device a segment is copied whole.
segment_length_inside :
    (size pos n : ℕ) → pos + n ≤ size → size < 2 ^ 32 → segment_length size pos n ≡ n
unfolding segment_length
segment_length_inside size pos n h small = ground arith

-- One round of the loop.
pub segments_step :
    (write : Bool) (size : ℕ) (bytes : List ℕ) (pos nr : ℕ) (b : List ℕ) (rest : List (List ℕ))
    (n pos' : ℕ) (bytes' b' : List ℕ) (r : Served)
    → segment_length size pos (length b) ≡ n
    → transfer_bytes write bytes pos n b ≡ some (bytes', b')
    → word64 (pos + n) ≡ pos'
    → segments write size bytes' pos' ((nr + n) % 2 ^ 32) rest ≡ some r
    → segments write size bytes pos nr (b ∷ rest) ≡ some (record r { buffers = b' ∷ r.buffers })
unfolding segments
segments_step write size bytes pos nr b rest n pos' bytes' b' r len moved next done =
    let done' : segments write size bytes' (word64 (pos + n)) ((nr + n) % 2 ^ 32) rest ≡ some r =
      rw next done in
    rw (len, segments) (rw (moved, segments) (rw (len, segments) (rw (done', segments))))

transfer_in_ok :
    (bytes : List ℕ) (pos : ℕ) (b : List ℕ)
    → pos + length b ≤ length bytes
    → transfer_bytes true bytes pos (length b) b ≡ some (blit bytes pos b, b)
unfolding transfer_bytes
transfer_in_ok bytes pos b h = ground (arith, take_all (length b) b)

-- A write inside the device puts the bytes of its buffers, in order, at the position.
pub segments-write :
    (size : ℕ) (bytes : List ℕ) (pos nr : ℕ) (bs : List (List ℕ))
    → length bytes ≡ size
    → size < 2 ^ 32
    → nr < 2 ^ 32
    → pos + total bs ≤ size
    → segments true size bytes pos nr bs
      ≡ some (record {
        bytes = blit bytes pos (joined bs);
        buffers = bs;
        nr_bytes = (nr + total bs) % 2 ^ 32;
      })
unfolding segments
segments-write size bytes pos nr [] full small few h = ground (arith, blit-nil bytes pos)
segments-write size bytes pos nr (b ∷ bs) full small few h =
    let n = length b in
    let next : word64 (pos + n) ≡ pos + n = omega arith in
    let count : ((nr + n) % 2 ^ 32 + total bs) % 2 ^ 32 ≡ (nr + total (b ∷ bs)) % 2 ^ 32 =
      omega arith in
    let rest =
      segments-write size (blit bytes pos b) (pos + n) ((nr + n) % 2 ^ 32) bs
        (length-blit bytes pos b (omega arith) ∙ full) small (omega arith) (omega arith) in
    segments_step true size bytes pos nr b bs n (pos + n) (blit bytes pos b) b
      (record {
        bytes = blit (blit bytes pos b) (pos + n) (joined bs);
        buffers = bs;
        nr_bytes = ((nr + n) % 2 ^ 32 + total bs) % 2 ^ 32;
      })
      (segment_length_inside size pos n (omega arith) small)
      (transfer_in_ok bytes pos b (omega arith)) next rest
    ∙ rw (count, blit-blit bytes pos b (joined bs) (omega arith))

transfer_out_ok :
    (bytes : List ℕ) (pos n : ℕ) (b : List ℕ)
    → pos + n ≤ length bytes
    → n ≤ length b
    → transfer_bytes false bytes pos n b ≡ some (bytes, blit b 0 (window pos n bytes))
unfolding transfer_bytes
transfer_out_ok bytes pos n b h h' = ground arith

-- A read inside the device fills the buffers, in order, with the bytes from the position on, and
-- changes no byte of the device.
pub segments-read :
    (size : ℕ) (bytes : List ℕ) (pos nr : ℕ) (bs : List (List ℕ))
    → length bytes ≡ size
    → size < 2 ^ 32
    → nr < 2 ^ 32
    → pos + total bs ≤ size
    → (r : Served) × (segments false size bytes pos nr bs ≡ some r)
      × (r.bytes ≡ bytes)
      × (joined r.buffers ≡ window pos (total bs) bytes)
      × (r.nr_bytes ≡ (nr + total bs) % 2 ^ 32)
unfolding segments
segments-read size bytes pos nr [] full small few h =
    (record { bytes = bytes; buffers = []; nr_bytes = nr }, refl, refl, refl, omega arith)
segments-read size bytes pos nr (b ∷ bs) full small few h =
    let n = length b in
    let next : word64 (pos + n) ≡ pos + n = omega arith in
    let (r, done, same, filled, count) =
      segments-read size bytes (pos + n) ((nr + n) % 2 ^ 32) bs full small (omega arith)
        (omega arith) in
    let whole : blit b 0 (window pos n bytes) ≡ window pos n bytes =
      blit_whole b (window pos n bytes) (omega (arith, length-window pos n bytes (omega arith))) in
    (
      record r { buffers = blit b 0 (window pos n bytes) ∷ r.buffers },
      segments_step false size bytes pos nr b bs n (pos + n) bytes (blit b 0 (window pos n bytes)) r
          (segment_length_inside size pos n (omega arith) small)
          (transfer_out_ok bytes pos n b (omega arith) (omega arith)) next done,
      same,
      ap₂ ◌++◌ whole filled
          ∙ sym (
              take-add n (total bs) (drop pos bytes)
              ∙ ap (λ t. window pos n bytes ++ take (total bs) t) (sym (drop-add pos n bytes))),
      omega arith,
    )
