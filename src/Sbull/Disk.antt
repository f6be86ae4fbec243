-- ===== src/Sbull/Disk.antt =====
-- sbull.c's requests against a disk: bytes with addresses, of which a request reads or changes a range.
use lkm_practice.Base.{
  ℕ, zero, suc, ◌+◌, ◌-◌, ◌*◌, ◌%◌, ◌^◌, ◌≤◌, ◌<◌, ◌≡◌, refl, ap, ap₂, ◌∙◌, Bool, true, false, ◌&&◌,
  Option, none, some, List, [], ◌∷◌, ◌++◌, arith, ltb, leb, if◌then◌else◌, length, take, drop, blit,
  window, length-blit, length-take,
}
use mathlib.Core.Path.{fun_ext}
use lkm_practice.Sbull.{Dev, Request, Served, completed, bug, fault, queue_rq, do_simple_request}
use lkm_practice.Sbull.Transfer.{joined, total, length-joined, segments-write, segments-read}
use lkm_practice.Sbull.Outcome.{IsValid}

-- The requests one after the other: the device, and the bytes in the buffers of each afterwards.
-- `left rq n` is what blk_update_request says of a request of which `n` bytes are done.
pub serve_all : (Request → ℕ → Bool) → Dev → List Request → Option (Dev × List (List ℕ))
serve_all left dev [] = some (dev, [])
serve_all left dev (rq ∷ rqs) = elim (queue_rq (left rq) dev rq) [
  | bug ↦ none
  | fault ↦ none
  | completed r ↦ elim (serve_all left (record dev { bytes = r.bytes }) rqs) [
    | none ↦ none
    | some (dev', outs) ↦ some (dev', joined r.buffers ∷ outs)
  ]
]

-- The byte at an index, 0 behind the end.
pub byte_at : List ℕ → ℕ → ℕ
byte_at [] i = 0
byte_at (x ∷ xs) zero = x
byte_at (x ∷ xs) (suc i) = byte_at xs i

-- `n` bytes from an address on.
pub bytes_from : (ℕ → ℕ) → ℕ → ℕ → List ℕ
bytes_from disk a zero = []
bytes_from disk a (suc n) = disk a ∷ bytes_from disk (a + 1) n

-- A range of addresses gets the bytes of a list.
abbrev pub overwrite : (ℕ → ℕ) → ℕ → List ℕ → ℕ → ℕ
overwrite disk a bytes i =
    if leb a i && ltb i (a + length bytes) then byte_at bytes (i - a) else disk i

-- A disk whose sectors begin `apart` bytes apart, of which a request names the first: what the request
-- is to do to it, and to show in its buffers. The block layer's sectors are 512 bytes apart.
abbrev pub disk_after : ℕ → (ℕ → ℕ) → Request → ℕ → ℕ
disk_after apart disk rq =
    if rq.write then overwrite disk (rq.sector * apart) (joined rq.buffers) else disk

abbrev pub disk_shown : ℕ → (ℕ → ℕ) → Request → List ℕ
disk_shown apart disk rq =
    if rq.write then joined rq.buffers else bytes_from disk (rq.sector * apart) (total rq.buffers)

pub disk_all : ℕ → (ℕ → ℕ) → List Request → (ℕ → ℕ) × List (List ℕ)
disk_all apart disk [] = (disk, [])
disk_all apart disk (rq ∷ rqs) =
    let (last, outs) = disk_all apart (disk_after apart disk rq) rqs in
    (last, disk_shown apart disk rq ∷ outs)

-- Requests that lie in the device, by the code's reading of a sector's number as that of a byte.
pub data AllInside (size : ℕ) : List Request → Type 0 where
  no_requests : AllInside size []
  inside :
      {rq : Request} {rqs : List Request}
      → rq.sector + total rq.buffers ≤ size
      → AllInside size rqs
      → AllInside size (rq ∷ rqs)

byte_at-append :
    (xs ys : List ℕ) (i : ℕ)
    → byte_at (xs ++ ys) i
      ≡ (if ltb i (length xs) then byte_at xs i else byte_at ys (i - length xs))
unfolding byte_at
byte_at-append [] ys i = ground arith
byte_at-append (x ∷ xs) ys zero = ground arith
byte_at-append (x ∷ xs) ys (suc i) = ground (arith, byte_at-append xs ys i)

byte_at-take : (n : ℕ) (xs : List ℕ) (i : ℕ) → i < n → byte_at (take n xs) i ≡ byte_at xs i
unfolding byte_at
byte_at-take zero xs i h = absurd (omega arith)
byte_at-take (suc n) [] i h = refl
byte_at-take (suc n) (x ∷ xs) zero h = refl
byte_at-take (suc n) (x ∷ xs) (suc i) h = byte_at-take n xs i (omega arith)

byte_at-drop : (n : ℕ) (xs : List ℕ) (i : ℕ) → byte_at (drop n xs) i ≡ byte_at xs (n + i)
unfolding byte_at
byte_at-drop zero xs i = ap (byte_at xs) (omega arith)
byte_at-drop (suc n) [] i = refl
byte_at-drop (suc n) (x ∷ xs) i =
    let next : suc (n + i) ≡ suc n + i = omega arith in
    byte_at-drop n xs i ∙ ap (byte_at (x ∷ xs)) next

byte_at-blit :
    (mem : List ℕ) (a : ℕ) (bytes : List ℕ) (i : ℕ)
    → a + length bytes ≤ length mem
    → byte_at (blit mem a bytes) i ≡ overwrite (byte_at mem) a bytes i
unfolding blit
byte_at-blit mem a bytes i room =
    let front = take a mem in
    let back = drop (a + length bytes) mem in
    ground (
      arith,
      length-take a mem,
      byte_at-append front (bytes ++ back) i,
      byte_at-append bytes back (i - a),
      byte_at-take a mem i,
      byte_at-drop (a + length bytes) mem (i - a - length bytes),
    )

drop-byte_at :
    (mem : List ℕ) (a : ℕ) → a < length mem → drop a mem ≡ byte_at mem a ∷ drop (a + 1) mem
unfolding byte_at
drop-byte_at [] a h = absurd (omega arith)
drop-byte_at (x ∷ mem) zero h = refl
drop-byte_at (x ∷ mem) (suc a) h =
    let next : suc (a + 1) ≡ suc a + 1 = omega arith in
    drop-byte_at mem a (omega arith) ∙ ap (λ n. byte_at mem a ∷ drop n (x ∷ mem)) next

bytes_from-window :
    (mem : List ℕ) (a n : ℕ) → a + n ≤ length mem → window a n mem ≡ bytes_from (byte_at mem) a n
unfolding bytes_from
bytes_from-window mem a zero room = refl
bytes_from-window mem a (suc n) room =
    ap (take (suc n)) (drop-byte_at mem a (omega arith))
    ∙ ap (λ l. byte_at mem a ∷ l) (bytes_from-window mem (a + 1) n (omega arith))

module _ (left : Request → ℕ → Bool)
    (says : (rq : Request) (n : ℕ) → left rq n ≡ ltb n (total rq.buffers)) where
  -- A request inside the device completes, and does what it is to do.
  queue_rq-inside :
      (write : Bool) (sector : ℕ) (buffers : List (List ℕ)) (dev : Dev)
      → IsValid dev
      → sector + total buffers ≤ dev.size
      → let rq : Request = record { write = write; sector = sector; buffers = buffers } in
        (r : Served) × (queue_rq (left rq) dev rq ≡ completed r)
        × IsValid (record dev { bytes = r.bytes })
        × (byte_at r.bytes ≡ disk_after 1 (byte_at dev.bytes) rq)
        × (joined r.buffers ≡ disk_shown 1 (byte_at dev.bytes) rq)
  unfolding queue_rq do_simple_request
  queue_rq-inside true sector buffers dev v room =
      let rq : Request = record { write = true; sector = sector; buffers = buffers } in
      let one : sector ≡ sector * 1 = omega arith in
      let amount = length-joined buffers in
      let fits : sector + length (joined buffers) ≤ length dev.bytes =
        omega (arith, v.full_array, amount) in
      let done =
        segments-write dev.size dev.bytes sector 0 buffers v.full_array v.fits (omega arith) room in
      (
        record {
          bytes = blit dev.bytes sector (joined buffers);
          buffers = buffers;
          nr_bytes = (0 + total buffers) % 2 ^ 32;
        },
        ground (arith, done, says rq ((0 + total buffers) % 2 ^ 32), v.fits),
        record {
          full_array = length-blit dev.bytes sector (joined buffers) fits ∙ v.full_array;
          fits = v.fits;
        },
        fun_ext (λ i. byte_at-blit dev.bytes sector (joined buffers) i fits)
            ∙ ap (λ a. overwrite (byte_at dev.bytes) a (joined buffers)) one,
        refl,
      )
  queue_rq-inside false sector buffers dev v room =
      let rq : Request = record { write = false; sector = sector; buffers = buffers } in
      let one : sector ≡ sector * 1 = omega arith in
      let (r, done, kept, filled, count) =
        segments-read dev.size dev.bytes sector 0 buffers v.full_array v.fits (omega arith) room in
      (
        r,
        ground (arith, done, says rq r.nr_bytes, count, v.fits),
        record { full_array = ap length kept ∙ v.full_array; fits = v.fits },
        ap byte_at kept,
        filled
            ∙ bytes_from-window dev.bytes sector (total buffers) (omega (arith, v.full_array))
            ∙ ap (λ a. bytes_from (byte_at dev.bytes) a (total buffers)) one,
      )

  -- What the code makes of sectors: requests of which all bytes lie in the device, when the first is
  -- the one with the sector's number, all complete, and do together what they are to do to a disk
  -- whose sectors begin 1 byte apart, not 512 as the block layer's: each write gives the bytes of
  -- its range from there on their values in order and leaves all others, each read gets the bytes of
  -- its range as the writes before it have left them and changes none. The condition:
  -- blk_update_request says whether bytes of a request are left.
  pub serve_all-disk_all :
      {size : ℕ} {rqs : List Request}
      → AllInside size rqs
      → (dev : Dev) → IsValid dev
      → dev.size ≡ size
      → (dev' : Dev) × (outs : List (List ℕ)) × (serve_all left dev rqs ≡ some (dev', outs))
        × ((byte_at dev'.bytes, outs) ≡ disk_all 1 (byte_at dev.bytes) rqs)
  unfolding serve_all disk_all
  serve_all-disk_all no_requests dev v same_size = (dev, [], refl, refl)
  serve_all-disk_all (inside {rq} {rqs} room rest) dev v same_size =
      let (r, done, valid, effect, shows) =
        queue_rq-inside rq.write rq.sector rq.buffers dev v (omega (arith, same_size)) in
      let (dev', outs, served, same) =
        serve_all-disk_all rest (record dev { bytes = r.bytes }) valid same_size in
      (
        dev',
        joined r.buffers ∷ outs,
        ground (arith, done, served),
        ap₂ (λ (x : (ℕ → ℕ) × List (List ℕ)) y. (x.0, y ∷ x.1))
            (same ∙ ap (λ d. disk_all 1 d rqs) effect) shows,
      )
