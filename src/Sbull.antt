-- ===== src/Sbull.antt =====
-- sbull/sbull.c, the RAM disk: its device and the handling of requests.
-- A memcpy whose range does not lie in the array or in the buffer is a fault, `none`.
pub mod Transfer
pub mod Outcome
pub mod Disk
pub mod Guard
pub mod Setup
pub mod Users
pub mod Load
mod Tests
use lkm_practice.Base.{
  word64, ℕ, ◌+◌, ◌-◌, ◌*◌, ◌/◌, ◌%◌, ◌^◌, Bool, true, false, ◌&&◌, Option, none, some, List, [],
  ◌∷◌, ltb, leb, ◌==◌, if◌then◌else◌, blit, window, length,
}

-- KERNEL_SECTOR_SIZE
abbrev pub kernel_sector_size : ℕ
kernel_sector_size = 512

-- struct sbull_dev, less the kernel's structures (Setup). `size` counts bytes.
pub record Dev : Type 0 where
  pub size : ℕ  -- unsigned int
  pub bytes : List ℕ  -- data
  pub users : ℕ  -- short, as its bit pattern
  pub media_change : ℕ  -- short

-- The int that is returned, and whether the warning was printed.
pub bytes_to_sectors_checked : ℕ → ℕ × Bool
bytes_to_sectors_checked bytes =
    let aligned = bytes % kernel_sector_size == 0 in
    (bytes / kernel_sector_size % 2 ^ 32, if aligned then false else true)

-- memcpy(bytes + pos, buffer, n) and memcpy(buffer, bytes + pos, n): the array and the buffer
-- afterwards.
abbrev pub transfer_in : List ℕ → ℕ → ℕ → List ℕ → Option (List ℕ × List ℕ)
transfer_in bytes pos n buffer =
    if leb (pos + n) (length bytes) && leb n (length buffer)
    then some (blit bytes pos (window 0 n buffer), buffer)
    else none

abbrev pub transfer_out : List ℕ → ℕ → ℕ → List ℕ → Option (List ℕ × List ℕ)
transfer_out bytes pos n buffer =
    if leb (pos + n) (length bytes) && leb n (length buffer)
    then some (bytes, blit buffer 0 (window pos n bytes))
    else none

pub transfer_bytes : Bool → List ℕ → ℕ → ℕ → List ℕ → Option (List ℕ × List ℕ)
transfer_bytes write bytes pos n buffer =
    if write then transfer_in bytes pos n buffer else transfer_out bytes pos n buffer

-- sbull_transfer. The sum of the test is one of unsigned longs, and wraps.
pub transfer : Bool → ℕ → ℕ → List ℕ → Dev → Option (Dev × List ℕ)
transfer write sector nsect buffer dev =
    let offset = word64 (sector * kernel_sector_size) in
    let nbytes = word64 (nsect * kernel_sector_size) in
    if ltb dev.size (word64 (offset + nbytes))
    then some (dev, buffer)
    else elim (transfer_bytes write dev.bytes offset nbytes buffer) [
      | none ↦ none
      | some (bytes, buffer') ↦ some (record dev { bytes = bytes }, buffer')
    ]

-- What do_simple_request has done: the device's bytes, the buffers of the segments, and nr_bytes.
pub record Served : Type 0 where
  pub bytes : List ℕ
  pub buffers : List (List ℕ)
  pub nr_bytes : ℕ

-- How many bytes of a segment are copied; the comparison and the difference are of unsigned longs.
pub segment_length : ℕ → ℕ → ℕ → ℕ
segment_length size pos b_len =
    if ltb size (word64 (pos + b_len)) then word64 (2 ^ 64 + size - pos) else b_len

-- The loop of do_simple_request over the segments, each given by its buffer of bv_len bytes.
pub segments : Bool → ℕ → List ℕ → ℕ → ℕ → List (List ℕ) → Option Served
segments write size bytes pos nr [] = some (record { bytes = bytes; buffers = []; nr_bytes = nr })
segments write size bytes pos nr (buffer ∷ rest) =
    let n = segment_length size pos (length buffer) in
    elim (transfer_bytes write bytes pos n buffer) [
      | none ↦ none
      | some (bytes', buffer') ↦
          elim (segments write size bytes' (word64 (pos + n)) ((nr + n) % 2 ^ 32) rest) [
            | none ↦ none
            | some r ↦ some (record r { buffers = buffer' ∷ r.buffers })
          ]
    ]

-- struct request: its direction, its first sector (blk_rq_pos) and its segments.
pub record Request : Type 0 where
  pub write : Bool
  pub sector : ℕ
  pub buffers : List (List ℕ)

-- The sector number is used as the byte position.
pub do_simple_request : Dev → Request → Option Served
do_simple_request dev rq = segments rq.write dev.size dev.bytes rq.sector 0 rq.buffers

-- How _queue_rq ends: with the request completed, in BUG(), or in a fault.
pub data Ending : Type 0 where
  completed : Served → Ending
  bug fault : Ending

-- `update nr_bytes` is the result of blk_update_request(rq, BLK_STS_OK, nr_bytes): whether bytes of
-- the request are left. do_simple_request returns 0 always, so the status is BLK_STS_OK.
pub queue_rq : (ℕ → Bool) → Dev → Request → Ending
queue_rq update dev rq = elim (do_simple_request dev rq) [
  | none ↦ fault
  | some r ↦ if update r.nr_bytes then bug else completed r
]
