-- ===== src/Sbull/Tests.antt =====
-- Runs of sbull.c, and its theorems at concrete inputs.
use lkm_practice.Base.{
  if◌then◌else◌, zero, suc, ℤ, pos, pos_part, ◌≢◌, ℕ, ◌≡◌, ◌++◌, refl, Bool, true, false, none,
  some, List, [], ◌∷◌, ltb, length, arith, replicate,
}
use lkm_practice.Kernel.{ok}
use lkm_practice.Sbull.{Dev, Request, queue_rq, bytes_to_sectors_checked}
use lkm_practice.Sbull.Transfer.{total}
use lkm_practice.Sbull.Disk.{byte_at, AllInside, serve_all, disk_all, serve_all-disk_all}
use lkm_practice.Sbull.Outcome.{IsValid, kind, completes, queue_rq-kind}
use lkm_practice.Sbull.Setup
use lkm_practice.Sbull.Setup.{
  Params, Given, Resource, memory, held, setup_device, exit_device, setup-exit,
}
use lkm_practice.Sbull.Load.{
  RegistersBlkdev, Loaded, sbull, init, exit, calls_of, array_calls, set_up, torn_down,
  init-exit_granted,
}

abbrev disk_of : List ℕ → Dev
disk_of bytes = record { size = length bytes; bytes = bytes; users = 0; media_change = 0 }

abbrev small : Dev
small = disk_of (1 ∷ 2 ∷ 3 ∷ 4 ∷ [])

small-IsValid : IsValid small
small-IsValid = record { full_array = refl; fits = omega arith }

four_left : ℕ → Bool
four_left n = ltb n 4

abbrev two_buffers : List (List ℕ)
two_buffers = (7 ∷ 8 ∷ []) ∷ (9 ∷ []) ∷ []

checked_513 : bytes_to_sectors_checked 513 ≡ (1, true)
unfolding bytes_to_sectors_checked
checked_513 = refl

queue_rq-kind_example :
    kind
      (queue_rq (λ n. ltb n 3) small (record { write = false; sector = 1; buffers = two_buffers }))
    ≡ completes
queue_rq-kind_example =
    queue_rq-kind (λ n. ltb n 3) false 1 (7 ∷ 8 ∷ []) ((9 ∷ []) ∷ []) small-IsValid (omega arith)
      (omega arith) (λ n. refl)

abbrev sector_of : ℕ → List ℕ
sector_of b = replicate 512 b

abbrev large : Dev
large = disk_of (replicate 1024 0)

large-IsValid : IsValid large
large-IsValid = record { full_array = refl; fits = omega arith }

abbrev defaults : Params
defaults = record { major = 0; hardsect_size = 512; nsectors = 1024; ndevices = 4 }

abbrev all_given : Given
all_given = record { vmalloc = true; tags = true; rq = true; gendisk = true }

abbrev no_gendisk : Given
no_gendisk = record all_given { gendisk = false }

abbrev calls_without : List Setup.Call
calls_without =
    Setup.acquire memory
    ∷ Setup.acquire Setup.tag_set
    ∷ Setup.acquire Setup.queue
    ∷ Setup.free memory
    ∷ []

abbrev without_gendisk : Setup.Device
without_gendisk = record {
  size = 524288;
  data_set = true;
  tags_set = true;
  queue_set = true;
  gd_set = false;
  capacity = 0;
  first_minor = 0;
}

set_without : setup_device defaults 0 no_gendisk ≡ some (calls_without, without_gendisk)
unfolding setup_device
set_without = refl

setup-exit_example : held memory 0 (calls_without ++ exit_device without_gendisk) ≡ none
setup-exit_example =
    setup-exit defaults 0 no_gendisk memory calls_without without_gendisk set_without

abbrev calls_with : List Setup.Call
calls_with =
    Setup.acquire memory
    ∷ Setup.acquire Setup.tag_set
    ∷ Setup.acquire Setup.queue
    ∷ Setup.acquire Setup.disk
    ∷ Setup.acquire Setup.added
    ∷ []

abbrev with_gendisk : Setup.Device
with_gendisk = record {
  size = 524288;
  data_set = true;
  tags_set = true;
  queue_set = true;
  gd_set = true;
  capacity = 1024;
  first_minor = 16;
}

set_with : setup_device defaults 1 all_given ≡ some (calls_with, with_gendisk)
unfolding setup_device
set_with = refl

-- register_blkdev with every number free: 240 is the one it chooses.
abbrev free_numbers : ℕ → ℤ
free_numbers zero = pos 240
free_numbers (suc m) = pos 0

free_numbers-RegistersBlkdev : RegistersBlkdev free_numbers
free_numbers-RegistersBlkdev = record {
  asked = λ m h. asked_number m h;
  dynamic = λ e. omega arith;
}
  where
    asked_number : (m : ℕ) → m ≢ 0 → pos_part (free_numbers m) ≡ 0
    asked_number zero h = absurd (h refl)
    asked_number (suc m) h = refl

init-exit_granted_example :
    (l : Loaded) × (ds : List Setup.Device) × (init free_numbers true (λ i. all_given) defaults
      ≡ some l)
    × (l.ret ≡ ok 0)
    × (l.array ≡ some ds)
    × (length ds ≡ 4)
    × ((i : ℕ) → calls_of i l.calls ≡ (if ltb i 4 then set_up else []))
    × ((i : ℕ) → calls_of i (exit ds).0 ≡ (if ltb i 4 then torn_down else []))
    × (array_calls l.calls ≡ Setup.acquire Setup.devices ∷ [])
    × (array_calls (exit ds).0 ≡ Setup.free Setup.devices ∷ [])
    × ((exit ds).1 ≡ sbull ∷ [])
init-exit_granted_example =
    init-exit_granted free_numbers (λ i. all_given) defaults free_numbers-RegistersBlkdev refl refl
      (λ i. refl)

-- Three bytes are written and four read.
abbrev write_and_read : List Request
write_and_read =
    record { write = true; sector = 1; buffers = two_buffers }
    ∷ record { write = false; sector = 0; buffers = (0 ∷ 0 ∷ 0 ∷ 0 ∷ []) ∷ [] }
    ∷ []

abbrev bytes_left : Request → ℕ → Bool
bytes_left rq n = ltb n (total rq.buffers)

write_and_read-AllInside : AllInside 4 write_and_read
write_and_read-AllInside =
    AllInside.inside (omega arith) (AllInside.inside (omega arith) AllInside.no_requests)

serve_all-disk_all_example :
    (dev' : Dev) × (outs : List (List ℕ)) × (serve_all bytes_left small write_and_read
      ≡ some (dev', outs))
    × ((byte_at dev'.bytes, outs) ≡ disk_all 1 (byte_at small.bytes) write_and_read)
serve_all-disk_all_example =
    serve_all-disk_all bytes_left (λ rq n. refl) write_and_read-AllInside small small-IsValid refl
