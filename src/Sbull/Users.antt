-- ===== src/Sbull/Users.antt =====
-- sbull.c: open, release, media_changed and ioctl.
use lkm_practice.Base.{
  ℕ, zero, suc, ◌+◌, ◌-◌, ◌*◌, ◌/◌, ◌%◌, ◌^◌, ◌<◌, ◌≡◌, refl, Bool, true, Option, none, some, List,
  [], ◌∷◌, arith, ltb, ◌==◌, if◌then◌else◌, Option-cases, inl, inr, ◌∙◌, ap, dec_lt,
}
use lkm_practice.Kernel.{Ret, ok, err, efault, enotty}
use lkm_practice.Sbull.Setup.{Params, Given, Call, Device, setup_device, setup_device-gd}
use lkm_practice.Sbull.{Dev, kernel_sector_size}

-- The counter is a short. Beside the device: whether check_disk_change was called.
pub open_dev : Dev → Dev × Bool
open_dev dev = (record dev { users = (dev.users + 1) % 2 ^ 16 }, dev.users == 0)

-- INVALIDATE_DELAY, in jiffies, at `hz` of them a second.
abbrev pub invalidate_delay : ℕ → ℕ
invalidate_delay hz = 30 * hz

-- Beside the device: the time that is stored in its timer, if one is.
pub release : ℕ → ℕ → Dev → Dev × Option ℕ
release hz jiffies dev =
    let left = (dev.users + 2 ^ 16 - 1) % 2 ^ 16 in
    (
      record dev { users = left },
      if left == 0 then some ((jiffies + invalidate_delay hz) % 2 ^ 64) else none,
    )

pub media_changed : Dev → ℕ
media_changed dev = dev.media_change

-- struct hd_geometry
pub record Geometry : Type 0 where
  pub cylinders : ℕ  -- unsigned short
  pub heads : ℕ
  pub sectors : ℕ
  pub start : ℕ

-- sbull_ioctl: its result and the geometry that reached the user. `getgeo` is HDIO_GETGEO,
-- `copied` the result of copy_to_user. The product is one of unsigned ints; `(size & ~0x3f) >> 6`
-- drops the low six bits.
pub ioctl : ℕ → ℕ → ℕ → ℕ → Dev → Ret × Option Geometry
ioctl getgeo hardsect_size copied cmd dev =
    let size = dev.size * (hardsect_size / kernel_sector_size) % 2 ^ 32 in
    if cmd == getgeo
    then (if copied == 0
        then (
          ok 0,
          some (record { cylinders = size / 64 % 2 ^ 16; heads = 4; sectors = 16; start = 4 }),
        )
        else (err efault, none))
    else (err enotty, none)

pub data UserOp : Type 0 where
  opens releases : UserOp

-- A sequence of opens and releases: the device, how often the disk was checked, and how often the
-- timer was set.
pub run : ℕ → ℕ → Dev → List UserOp → Dev × ℕ × ℕ
unfolding open_dev release
run hz jiffies dev [] = (dev, 0, 0)
run hz jiffies dev (opens ∷ ops) =
    let (dev', checked) = open_dev dev in
    let (last, checks, timers) = run hz jiffies dev' ops in
    (last, (if checked then checks + 1 else checks), timers)
run hz jiffies dev (releases ∷ ops) =
    let (dev', timer) = release hz jiffies dev in
    let (last, checks, timers) = run hz jiffies dev' ops in
    (last, checks, elim timer [ some t ↦ timers + 1 | none ↦ timers ])

-- The users after the sequence, how often one came to an unused device, and how often the last one
-- left; `none` if one leaves that never came, or if more than 32767 are there at once.
abbrev pub census : ℕ → List UserOp → Option (ℕ × ℕ × ℕ)
census n [] = some (n, 0, 0)
census n (opens ∷ ops) =
    if ltb (n + 1) (2 ^ 15)
    then elim (census (n + 1) ops) [
      | none ↦ none
      | some (m, came, left) ↦ some (m, (if n == 0 then came + 1 else came), left)
    ]
    else none
census zero (releases ∷ ops) = none
census (suc n) (releases ∷ ops) = elim (census n ops) [
  | none ↦ none
  | some (m, came, left) ↦ some (m, came, if n == 0 then left + 1 else left)
]

run_counts :
    (hz jiffies : ℕ) (ops : List UserOp) (n : ℕ) (dev : Dev) (m came left : ℕ)
    → dev.users ≡ n
    → n < 2 ^ 15
    → census n ops ≡ some (m, came, left)
    → let (last, checks, timers) = run hz jiffies dev ops in
      (last.users ≡ m) × (checks ≡ came) × (timers ≡ left)
unfolding run open_dev release
run_counts hz jiffies [] n dev m came left same few e = ground arith
run_counts hz jiffies (opens ∷ ops) n dev m came left same few e =
    elim (Option-cases (census (n + 1) ops)) [
      | inl lost ↦ ground (arith, lost)
      | inr ((m', came', left'), found) ↦ elim (dec_lt (n + 1) (2 ^ 15)) [
        | no over ↦ ground arith
        | yes few' ↦ ground (
          arith,
          found,
          run_counts hz jiffies ops (n + 1) (open_dev dev).0 m' came' left' (omega arith) few'
              found,
        )
      ]
    ]
run_counts hz jiffies (releases ∷ ops) zero dev m came left same few e = ground arith
run_counts hz jiffies (releases ∷ ops) (suc n) dev m came left same few e =
    elim (Option-cases (census n ops)) [
      | inl lost ↦ ground (arith, lost)
      | inr ((m', came', left'), found) ↦ ground (
        arith,
        found,
        run_counts hz jiffies ops n (release hz jiffies dev).0 m' came' left' (omega arith)
            (omega arith) found,
      )
    ]

-- Over any sequence of opens and releases in which nobody leaves who never came and at most 32767
-- are there at once, the counter of the device counts its users, the disk is checked exactly when a
-- user comes to an unused device, and the timer set exactly when the last user leaves.
pub run-census :
    (hz jiffies : ℕ) (ops : List UserOp) (dev : Dev) (m came left : ℕ)
    → dev.users < 2 ^ 15
    → census dev.users ops ≡ some (m, came, left)
    → let (last, checks, timers) = run hz jiffies dev ops in
      (last.users ≡ m) × (checks ≡ came) × (timers ≡ left)
run-census hz jiffies ops dev m came left few e =
    run_counts hz jiffies ops dev.users dev m came left refl few e

-- With sectors of 512 bytes, less than 8192 of them, the geometry that HDIO_GETGEO reports of a
-- device that was set up with a gendisk is one of 512 times as many sectors as the gendisk's
-- capacity; the numbers of heads, of sectors of a track and of the first sector are 4, 16 and 4.
pub ioctl-setup :
    (p : Params) (which : ℕ) (g : Given) (cs : List Call) (d : Device) (getgeo : ℕ) (dev : Dev)
    → p.hardsect_size ≡ 512
    → p.nsectors < 8192
    → setup_device p which g ≡ some (cs, d)
    → d.gd_set ≡ true
    → dev.size ≡ d.size
    → (geo : Geometry) × (ioctl getgeo p.hardsect_size 0 getgeo dev ≡ (ok 0, some geo))
      × (geo.cylinders * geo.heads * geo.sectors ≡ 512 * d.capacity)
      × (geo.heads ≡ 4)
      × (geo.sectors ≡ 16)
      × (geo.start ≡ 4)
unfolding ioctl
ioctl-setup p which g cs d getgeo dev hs few e there stored =
    let (sizes, capacities) = setup_device-gd p which g cs d e there in
    let bytes : dev.size ≡ p.nsectors * 512 =
      stored ∙ sizes ∙ ap (λ h. p.nsectors * h % 2 ^ 32) hs ∙ omega arith in
    let blocks : d.capacity ≡ p.nsectors =
      capacities ∙ ap (λ h. p.nsectors * (h / kernel_sector_size)) hs ∙ omega arith in
    (
      record {
        cylinders = dev.size * (p.hardsect_size / kernel_sector_size) % 2 ^ 32 / 64 % 2 ^ 16;
        heads = 4;
        sectors = 16;
        start = 4;
      },
      ground arith,
      ground (arith, bytes, blocks, hs),
      refl,
      refl,
      refl,
    )
