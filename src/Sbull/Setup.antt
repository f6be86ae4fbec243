-- ===== src/Sbull/Setup.antt =====
-- sbull.c: setup_device, and what sbull_init and sbull_exit do with the devices.
use lkm_practice.Base.{
  ℕ, zero, suc, ◌+◌, ◌*◌, ◌/◌, ◌%◌, ◌^◌, ◌≡◌, Bool, true, false, ◌&&◌, Option, none, some, List, [],
  ◌∷◌, ◌++◌, arith, if◌then◌else◌,
}
use lkm_practice.Sbull.{kernel_sector_size}

-- What a device holds of the kernel's: vmalloc'ed memory, a tag set, a request queue, a gendisk,
-- and that gendisk's being added; and, for the driver, its array of devices.
pub data Resource : Type 0 where
  memory tag_set queue disk added devices : Resource

abbrev pub same : Resource → Resource → Bool
same memory memory = true
same tag_set tag_set = true
same queue queue = true
same disk disk = true
same added added = true
same devices devices = true
same r s = false

pub data Call : Type 0 where
  acquire free : Resource → Call

-- How many of a resource are held after the calls; `none` once more are freed than were acquired.
abbrev pub held : Resource → ℕ → List Call → Option ℕ
held r n [] = some n
held r n (acquire s ∷ cs) = held r (if same r s then n + 1 else n) cs
held r zero (free s ∷ cs) = if same r s then none else held r zero cs
held r (suc n) (free s ∷ cs) = held r (if same r s then n else suc n) cs

-- Whether vmalloc, blk_mq_alloc_tag_set, blk_mq_init_queue and alloc_disk succeed.
pub record Given : Type 0 where
  pub vmalloc : Bool
  pub tags : Bool
  pub rq : Bool
  pub gendisk : Bool

-- The module parameters.
pub record Params : Type 0 where
  pub major : ℕ
  pub hardsect_size : ℕ
  pub nsectors : ℕ
  pub ndevices : ℕ

-- A device that setup_device has returned from, by its pointers that are not NULL; the capacity in
-- sectors and the first minor number are those of the gendisk, 0 without one.
pub record Device : Type 0 where
  pub size : ℕ
  pub data_set : Bool
  pub tags_set : Bool
  pub queue_set : Bool
  pub gd_set : Bool
  pub capacity : ℕ
  pub first_minor : ℕ

-- SBULL_MINORS
abbrev pub sbull_minors : ℕ
sbull_minors = 16

-- setup_device: the calls and the device, or `none` where it stores through the queue that is NULL.
-- After a failure of alloc_disk the data are freed, and the pointer to them stays.
unfoldable pub setup_device : Params → ℕ → Given → Option (List Call × Device)
setup_device p which g =
    let size = p.nsectors * p.hardsect_size % 2 ^ 32 in
    if g.vmalloc
    then (if g.tags && g.rq
        then (if g.gendisk
            then some (
              acquire memory ∷ acquire tag_set ∷ acquire queue ∷ acquire disk ∷ acquire added ∷ [],
              record {
                size = size;
                data_set = true;
                tags_set = true;
                queue_set = true;
                gd_set = true;
                capacity = p.nsectors * (p.hardsect_size / kernel_sector_size);
                first_minor = which * sbull_minors;
              },
            )
            else some (
              acquire memory ∷ acquire tag_set ∷ acquire queue ∷ free memory ∷ [],
              record {
                size = size;
                data_set = true;
                tags_set = true;
                queue_set = true;
                gd_set = false;
                capacity = 0;
                first_minor = 0;
              },
            ))
        else none)
    else some (
      [],
      record {
        size = size;
        data_set = false;
        tags_set = false;
        queue_set = false;
        gd_set = false;
        capacity = 0;
        first_minor = 0;
      },
    )

-- One round of sbull_exit's loop.
unfoldable pub exit_device : Device → List Call
exit_device d =
    (if d.gd_set then free added ∷ free disk ∷ [] else [])
    ++ (if d.queue_set then free queue ∷ [] else [])
    ++ (if d.data_set then free memory ∷ [] else [])
    ++ (if d.tags_set then free tag_set ∷ [] else [])

-- With a gendisk the device has its size in bytes, and the gendisk its capacity in sectors.
pub setup_device-gd :
    (p : Params) (which : ℕ) (g : Given) (cs : List Call) (d : Device)
    → setup_device p which g ≡ some (cs, d)
    → d.gd_set ≡ true
    → (d.size ≡ p.nsectors * p.hardsect_size % 2 ^ 32)
      × (d.capacity ≡ p.nsectors * (p.hardsect_size / kernel_sector_size))
unfolding setup_device
setup_device-gd p which g cs d e there = ground arith

-- A device that was set up and is torn down has given back all that it had acquired, unless
-- alloc_disk failed while there was memory: then the memory, and it alone, is freed twice.
pub setup-exit :
    (p : Params) (which : ℕ) (g : Given) (r : Resource) (cs : List Call) (d : Device)
    → setup_device p which g ≡ some (cs, d)
    → held r 0 (cs ++ exit_device d)
      ≡ (if g.gendisk then some 0 else if same r memory && g.vmalloc then none else some 0)
unfolding setup_device exit_device
setup-exit p which g memory cs d e = ground arith
setup-exit p which g tag_set cs d e = ground arith
setup-exit p which g queue cs d e = ground arith
setup-exit p which g disk cs d e = ground arith
setup-exit p which g added cs d e = ground arith
setup-exit p which g devices cs d e = ground arith
