-- ===== src/Sbull/Outcome.antt =====
-- sbull.c: how requests end, and what successive requests see of one another.
use lkm_practice.Base.{
  ℕ, suc, ◌+◌, dec_lt, ◌-◌, ◌%◌, ◌^◌, ◌≤◌, ◌<◌, ◌≡◌, refl, ap, ap₂, sym, ◌∙◌, Bool, true, false,
  none, some, List, [], ◌∷◌, ◌++◌, arith, ltb, leb, if◌then◌else◌, blit, window, length, min, take,
  drop, length-blit, length-window, take-take, take-drop, take-add, drop-add, window-blit,
  take-blit_before, append-nil,
}
use lkm_practice.Sbull.{
  Dev, Served, Ending, completed, bug, fault, segment_length, transfer_bytes, segments,
  do_simple_request, queue_rq,
}
use lkm_practice.Sbull.Transfer.{joined, total, segments_step, segments-write, segments-read}

pub record IsValid (dev : Dev) : Type 0 where
  pub full_array : length dev.bytes ≡ dev.size
  pub fits : dev.size < 2 ^ 32

-- Within the array and the buffer a copy succeeds, and keeps the size of the array.
transfer_total :
    (write : Bool) (bytes : List ℕ) (pos n : ℕ) (b : List ℕ)
    → pos + n ≤ length bytes
    → n ≤ length b
    → (bytes' : List ℕ) × (b' : List ℕ) × (transfer_bytes write bytes pos n b ≡ some (bytes', b'))
      × (length bytes' ≡ length bytes)
unfolding transfer_bytes
transfer_total true bytes pos n b h h' = (
  blit bytes pos (window 0 n b),
  b,
  ground arith,
  length-blit bytes pos (window 0 n b) (omega (arith, length-window 0 n b (omega arith))),
)
transfer_total false bytes pos n b h h' = (bytes, blit b 0 (window pos n bytes), ground arith, refl)

segment_length_clipped :
    (size pos n : ℕ)
    → pos ≤ size
    → size < 2 ^ 32
    → pos + n < 2 ^ 64
    → segment_length size pos n ≡ min n (size - pos)
unfolding segment_length
segment_length_clipped size pos n h small fits = ground arith

-- From a position inside the device the loop goes through, and copies what lies inside.
segments_clipped :
    (write : Bool) (size : ℕ) (bytes : List ℕ) (pos nr : ℕ) (bs : List (List ℕ))
    → length bytes ≡ size
    → size < 2 ^ 32
    → nr < 2 ^ 32
    → pos ≤ size
    → pos + total bs < 2 ^ 64
    → (r : Served) × (segments write size bytes pos nr bs ≡ some r)
      × (r.nr_bytes ≡ (nr + min (total bs) (size - pos)) % 2 ^ 32)
unfolding segments
segments_clipped write size bytes pos nr [] full small few inside fits =
    (record { bytes = bytes; buffers = []; nr_bytes = nr }, refl, omega arith)
segments_clipped write size bytes pos nr (b ∷ bs) full small few inside fits =
    let n = min (length b) (size - pos) in
    let (bytes', b', moved, same) =
      transfer_total write bytes pos n b (omega arith) (omega arith) in
    let (r, done, count) =
      segments_clipped write size bytes' (pos + n) ((nr + n) % 2 ^ 32) bs (same ∙ full) small
        (omega arith) (omega arith) (omega arith) in
    (
      record r { buffers = b' ∷ r.buffers },
      segments_step write size bytes pos nr b bs n (pos + n) bytes' b' r
          (segment_length_clipped size pos (length b) inside small (omega arith)) moved
          (omega arith) done,
      omega arith,
    )

-- Behind the device the length of the first segment wraps, and its copy is a fault.
segments_behind :
    (write : Bool) (size : ℕ) (bytes : List ℕ) (pos nr : ℕ) (b : List ℕ) (bs : List (List ℕ))
    → length bytes ≡ size
    → size < pos
    → pos + length b < 2 ^ 64
    → segments write size bytes pos nr (b ∷ bs) ≡ none
unfolding segments segment_length transfer_bytes
segments_behind write size bytes pos nr b bs full behind fits =
    elim write as (λ w. segments w size bytes pos nr (b ∷ bs) ≡ none) [
      | true ↦ ground arith
      | false ↦ ground arith
    ]

pub data Kind : Type 0 where
  completes crashes faults : Kind

abbrev pub kind : Ending → Kind
kind (completed r) = completes
kind bug = crashes
kind fault = faults

-- How a request ends. It completes exactly when its first sector number and the number of its bytes
-- add up to at most the size of the device in bytes; it runs into BUG() when it begins at or before
-- that size and ends behind it, since fewer bytes are reported done than asked for; and it copies
-- out of range when it begins behind. The request has a segment and less than 2 ^ 32 bytes, and
-- blk_update_request says whether bytes of it are left.
pub queue_rq-kind :
    (update : ℕ → Bool) (write : Bool) (sector : ℕ) (b : List ℕ) (bs : List (List ℕ)) {dev : Dev}
    → IsValid dev
    → total (b ∷ bs) < 2 ^ 32
    → sector < 2 ^ 63
    → ((n : ℕ) → update n ≡ ltb n (total (b ∷ bs)))
    → kind (queue_rq update dev (record { write = write; sector = sector; buffers = b ∷ bs })) ≡ (
        if leb (sector + total (b ∷ bs)) dev.size
        then completes
        else if leb sector dev.size
        then crashes
        else faults)
unfolding queue_rq do_simple_request
queue_rq-kind update write sector b bs {dev} v few small left = elim (dec_lt dev.size sector) [
  | yes behind ↦ ground (
    arith,
    segments_behind write dev.size dev.bytes sector 0 b bs v.full_array behind (omega arith),
  )
  | no inside ↦
      let (r, done, count) =
        segments_clipped write dev.size dev.bytes sector 0 (b ∷ bs) v.full_array v.fits
          (omega arith) (omega arith) (omega arith) in
      ground (arith, done, count, left r.nr_bytes)
]

-- The front of a range that a later write, one byte further on, has covered but for its first byte.
window-blit_next :
    (mem : List ℕ) (off n : ℕ) (xs ys : List ℕ)
    → length xs ≡ suc n
    → length ys ≡ suc n
    → suc off + suc n ≤ length mem
    → window off (1 + n) (blit (blit mem off xs) (off + 1) ys) ≡ take 1 xs ++ take n ys
window-blit_next mem off n xs ys lx ly h =
    let first = blit mem off xs in
    let last = blit first (off + 1) ys in
    let len : length first ≡ length mem = length-blit mem off xs (omega arith) in
    let one : take 1 (drop off last) ≡ take 1 xs =
      take-drop 1 off last
      ∙ ap (drop off) (take-blit_before first (off + 1) ys (omega arith))
      ∙ sym (take-drop 1 off first)
      ∙ sym (take-take 1 (length xs) (drop off first) (omega arith))
      ∙ ap (take 1) (window-blit mem off xs (omega arith)) in
    let others : take n (drop (off + 1) last) ≡ take n ys =
      sym (take-take n (length ys) (drop (off + 1) last) (omega arith))
      ∙ ap (take n) (window-blit first (off + 1) ys (omega arith)) in
    take-add 1 n (drop off last) ∙ ap₂ ◌++◌ one (ap (take n) (sym (drop-add off 1 last)) ∙ others)

-- Sectors lie one byte apart: after a write of 512 bytes to a sector and one to the next, a read of
-- the first of them hands out its first byte, followed by the first 511 bytes of the second.
pub sectors_overlap :
    (sector : ℕ) (xs ys buffer : List ℕ) {dev : Dev}
    → IsValid dev
    → length xs ≡ 512
    → length ys ≡ 512
    → length buffer ≡ 512
    → sector + 513 ≤ dev.size
    → (r s t : Served) × (do_simple_request dev
          (record { write = true; sector = sector; buffers = xs ∷ [] })
        ≡ some r)
      × (do_simple_request
            (record dev { bytes = r.bytes })
            (record { write = true; sector = sector + 1; buffers = ys ∷ [] })
          ≡ some s)
      × (do_simple_request
            (record dev { bytes = s.bytes })
            (record { write = false; sector = sector; buffers = buffer ∷ [] })
          ≡ some t)
      × (joined t.buffers ≡ take 1 xs ++ take 511 ys)
unfolding do_simple_request
sectors_overlap sector xs ys buffer {dev} v lx ly lb h =
    let first = blit dev.bytes sector (xs ++ []) in
    let last = blit first (sector + 1) (ys ++ []) in
    let ex : xs ++ [] ≡ xs = append-nil xs in
    let ey : ys ++ [] ≡ ys = append-nil ys in
    let len : length first ≡ dev.size =
      rw ex (length-blit dev.bytes sector xs (omega (arith, v)) ∙ v.full_array) in
    let len' : length last ≡ dev.size =
      rw ey (length-blit first (sector + 1) ys (omega (arith, v)) ∙ len) in
    let (t, done, kept, filled, count) =
      segments-read dev.size last sector 0 (buffer ∷ []) len' v.fits (omega arith) (omega arith) in
    let amount : total (buffer ∷ []) ≡ 1 + 511 = omega arith in
    (
      record { bytes = first; buffers = xs ∷ []; nr_bytes = (0 + total (xs ∷ [])) % 2 ^ 32 },
      record { bytes = last; buffers = ys ∷ []; nr_bytes = (0 + total (ys ∷ [])) % 2 ^ 32 },
      t,
      segments-write dev.size dev.bytes sector 0 (xs ∷ []) v.full_array v.fits (omega arith)
          (omega arith),
      segments-write dev.size first (sector + 1) 0 (ys ∷ []) len v.fits (omega arith) (omega arith),
      done,
      filled
          ∙ rw (amount, ex, ey)
              (window-blit_next dev.bytes sector 511 xs ys lx ly (omega (arith, v))),
    )
