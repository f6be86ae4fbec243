-- ===== src/Sbull/Load.antt =====
-- sbull.c: sbull_init and sbull_exit.
use lkm_practice.Base.{
  ℕ, zero, suc, ◌+◌, ◌*◌, ◌/◌, ◌%◌, ◌^◌, ◌<◌, ◌≡◌, ◌≢◌, refl, sym, ◌∙◌, ap, Bool, true, false,
  Option, none, some, List, [], ◌∷◌, ◌++◌, arith, ◌==◌, if◌then◌else◌, ℤ, ◌||◌, length, append-nil,
  is_negative, ltb, leb, ◌&&◌, ==_iff, Bool-cases, inl, inr, pos_part,
}
use lkm_practice.Kernel.{Ret, ok, err, ebusy, enomem}
use lkm_practice.Sbull.{kernel_sector_size}
use lkm_practice.Sbull.Setup.{
  sbull_minors, memory, tag_set, queue, disk, added, devices, Call, acquire, free, Given, Params,
  Device, setup_device, exit_device,
}

-- A call for the device `Devices + which`, or one for the array of all.
pub data DeviceCall : Type 0 where
  of_device : (which : ℕ) → Call → DeviceCall
  of_array : Call → DeviceCall

abbrev pub all_of : ℕ → List Call → List DeviceCall
all_of which [] = []
all_of which (c ∷ cs) = of_device which c ∷ all_of which cs

-- The calls for one device, and those for the array.
abbrev pub calls_of : ℕ → List DeviceCall → List Call
calls_of i [] = []
calls_of i (of_device which c ∷ l) =
    let rest = calls_of i l in if which == i then c ∷ rest else rest
calls_of i (of_array c ∷ l) = calls_of i l

abbrev pub array_calls : List DeviceCall → List Call
array_calls [] = []
array_calls (of_device which c ∷ l) = array_calls l
array_calls (of_array c ∷ l) = c ∷ array_calls l

-- The loop of sbull_init over the devices, from the one with number `which` on.
pub setup_all : Params → (ℕ → Given) → ℕ → ℕ → Option (List DeviceCall × List Device)
setup_all p g zero which = some ([], [])
setup_all p g (suc left) which = elim (setup_device p which (g which)) [
  | none ↦ none
  | some (cs, d) ↦ elim (setup_all p g left (which + 1)) [
    | none ↦ none
    | some (rest, ds) ↦ some (all_of which cs ++ rest, d ∷ ds)
  ]
]

-- What sbull_init leaves: its result, sbull_major, the device array, if there is one, and its calls.
-- The names are those under which the major number is registered and unregistered.
pub data Name : Type 0 where
  sbull sbd : Name

pub record Loaded : Type 0 where
  pub ret : Ret
  pub major : ℤ
  pub array : Option (List Device)
  pub calls : List DeviceCall
  pub unregistered : List Name

-- `register` is register_blkdev of a major number; `room` is whether kmalloc gives the array.
-- `none` is a crash.
pub init : (ℕ → ℤ) → Bool → (ℕ → Given) → Params → Option Loaded
init register room g p =
    let major = register p.major in
    if is_negative major || (pos_part major == 0)
    then some
        (record { ret = err ebusy; major = major; array = none; calls = []; unregistered = [] })
    else if room
    then elim (setup_all p g p.ndevices 0) [
      | none ↦ none
      | some (cs, ds) ↦ some (record {
        ret = ok 0;
        major = major;
        array = some ds;
        calls = of_array (acquire devices) ∷ cs;
        unregistered = [];
      })
    ]
    else some (record {
      ret = err enomem;
      major = major;
      array = none;
      calls = [];
      unregistered = sbd ∷ [];
    })

-- The loop of sbull_exit from the device `Devices + which` on, and the array's kfree.
pub exit_calls : ℕ → List Device → List DeviceCall
exit_calls which [] = of_array (free devices) ∷ []
exit_calls which (d ∷ ds) = all_of which (exit_device d) ++ exit_calls (which + 1) ds

-- sbull_exit: the calls for the devices, in order, and the name that is unregistered between the
-- last device's and kfree.
pub exit : List Device → List DeviceCall × List Name
exit ds = (exit_calls 0 ds, sbull ∷ [])

-- register_blkdev, as it is documented: a major number that is asked for is granted with 0 or
-- refused with an error; without one, the result is a number above 0, or an error.
pub record RegistersBlkdev (register : ℕ → ℤ) : Type 0 where
  pub asked : (m : ℕ) → m ≢ 0 → pos_part (register m) ≡ 0
  pub dynamic : is_negative (register 0) ≡ false → 0 < pos_part (register 0)

-- With a major number of its own, sbull_init fails with EBUSY whether the number is granted or not:
-- it sets nothing up, and does not unregister the number.
pub init-own_major :
    (register : ℕ → ℤ) (room : Bool) (g : ℕ → Given) (p : Params)
    → RegistersBlkdev register
    → p.major ≢ 0
    → (l : Loaded) × (init register room g p ≡ some l)
      × (l.ret ≡ err ebusy)
      × (l.array ≡ none)
      × (l.calls ≡ [])
      × (l.unregistered ≡ [])
unfolding init
init-own_major register room g p documented own =
    let nothing : pos_part (register p.major) ≡ 0 = documented.asked p.major own in
    let refused : (is_negative (register p.major) || (pos_part (register p.major) == 0)) ≡ true =
      ground (arith, nothing) in
    (
      record {
        ret = err ebusy;
        major = register p.major;
        array = none;
        calls = [];
        unregistered = [];
      },
      rw refused refl,
      refl,
      refl,
      refl,
      refl,
    )

abbrev pub all_given : Given
all_given = record { vmalloc = true; tags = true; rq = true; gendisk = true }

-- What is set up for a device, and what is given back, one of each.
abbrev pub set_up : List Call
set_up = acquire memory ∷ acquire tag_set ∷ acquire queue ∷ acquire disk ∷ acquire added ∷ []

abbrev pub torn_down : List Call
torn_down = free added ∷ free disk ∷ free queue ∷ free memory ∷ free tag_set ∷ []

setup_given :
    (p : Params) (which : ℕ) (g : Given)
    → g ≡ all_given
    → (d : Device) × (setup_device p which g ≡ some (set_up, d)) × (exit_device d ≡ torn_down)
unfolding setup_device exit_device
setup_given p which g given = rw given (
  record {
    size = p.nsectors * p.hardsect_size % 2 ^ 32;
    data_set = true;
    tags_set = true;
    queue_set = true;
    gd_set = true;
    capacity = p.nsectors * (p.hardsect_size / kernel_sector_size);
    first_minor = which * sbull_minors;
  },
  refl,
  refl,
)

calls_of-other :
    (i which : ℕ) (cs : List Call) (rest : List DeviceCall)
    → (which == i) ≡ false
    → calls_of i (all_of which cs ++ rest) ≡ calls_of i rest
calls_of-other i which [] rest other = refl
calls_of-other i which (c ∷ cs) rest other = rw other (calls_of-other i which cs rest other)

calls_of-same :
    (i which : ℕ) (cs : List Call) (rest : List DeviceCall)
    → (which == i) ≡ true
    → calls_of i (all_of which cs ++ rest) ≡ cs ++ calls_of i rest
calls_of-same i which [] rest same = refl
calls_of-same i which (c ∷ cs) rest same =
    rw same (ap (λ l. c ∷ l) (calls_of-same i which cs rest same))

array_calls-all_of :
    (which : ℕ) (cs : List Call) (rest : List DeviceCall)
    → array_calls (all_of which cs ++ rest) ≡ array_calls rest
array_calls-all_of which [] rest = refl
array_calls-all_of which (c ∷ cs) rest = array_calls-all_of which cs rest

-- Of a loop over the devices from `which` on: each of them has the calls `each`, and no other any.
abbrev Loop : (which left : ℕ) → List Call → List DeviceCall → Type 0
Loop which left each l =
    (i : ℕ) → calls_of i l ≡ (if leb which i && ltb i (which + left) then each else [])

Loop-next :
    (which left : ℕ) (each : List Call) (rest : List DeviceCall)
    → Loop (which + 1) left each rest
    → Loop which (suc left) each (all_of which each ++ rest)
Loop-next which left each rest loop i = elim (Bool-cases (which == i)) [
  | inl same ↦
      let here : which ≡ i = (==_iff which i).0 same in
      let none_there : (leb (which + 1) i && ltb i (which + 1 + left)) ≡ false =
        ground (arith, here) in
      let there : (leb which i && ltb i (which + suc left)) ≡ true = ground (arith, here) in
      calls_of-same i which each rest same
      ∙ ap (λ l. each ++ l) (loop i)
      ∙ rw (none_there, there) (append-nil each)
  | inr other ↦
      let apart : which ≢ i = ground (arith, ==_iff which i) in
      let range : (leb (which + 1) i && ltb i (which + 1 + left))
          ≡ (leb which i && ltb i (which + suc left)) =
        ground (arith, apart) in
      calls_of-other i which each rest other ∙ loop i ∙ rw range refl
]

setup_all_given :
    (p : Params) (g : ℕ → Given)
    → ((i : ℕ) → g i ≡ all_given)
    → (left which : ℕ)
    → (cs : List DeviceCall) × (ds : List Device) × (setup_all p g left which ≡ some (cs, ds))
      × (length ds ≡ left)
      × Loop which left set_up cs
      × Loop which left torn_down (exit_calls which ds)
      × (array_calls cs ≡ [])
      × (array_calls (exit_calls which ds) ≡ free devices ∷ [])
unfolding setup_all exit_calls
setup_all_given p g given zero which =
    let nowhere : (i : ℕ) → (leb which i && ltb i (which + 0)) ≡ false = λ i. ground arith in
    ([], [], refl, refl, λ i. rw (nowhere i) refl, λ i. rw (nowhere i) refl, refl, refl)
setup_all_given p g given (suc left) which =
    let (d, set, gone) = setup_given p which (g which) (given which) in
    let (cs, ds, sets, count, ups, downs, quiet, array) =
      setup_all_given p g given left (which + 1) in
    (
      all_of which set_up ++ cs,
      d ∷ ds,
      rw (setup_all, set, sets) refl,
      ap suc count,
      Loop-next which left set_up cs ups,
      rw gone (Loop-next which left torn_down (exit_calls (which + 1) ds) downs),
      array_calls-all_of which set_up cs ∙ quiet,
      array_calls-all_of which (exit_device d) (exit_calls (which + 1) ds) ∙ array,
    )

-- With a dynamic major number, when the kernel gives everything that is asked for, sbull_init sets
-- up all its devices: for each of them it acquires its memory, its tags, its queue and its gendisk,
-- and adds that, once each. sbull_exit gives exactly these back, once for each device and for no
-- other; the array of the devices is acquired once and freed once, and the name under which the
-- number was registered is unregistered.
pub init-exit_granted :
    (register : ℕ → ℤ) (g : ℕ → Given) (p : Params)
    → RegistersBlkdev register
    → p.major ≡ 0
    → is_negative (register p.major) ≡ false
    → ((i : ℕ) → g i ≡ all_given)
    → (l : Loaded) × (ds : List Device) × (init register true g p ≡ some l)
      × (l.ret ≡ ok 0)
      × (l.array ≡ some ds)
      × (length ds ≡ p.ndevices)
      × ((i : ℕ) → calls_of i l.calls ≡ (if ltb i p.ndevices then set_up else []))
      × ((i : ℕ) → calls_of i (exit ds).0 ≡ (if ltb i p.ndevices then torn_down else []))
      × (array_calls l.calls ≡ acquire devices ∷ [])
      × (array_calls (exit ds).0 ≡ free devices ∷ [])
      × ((exit ds).1 ≡ sbull ∷ [])
unfolding init exit
init-exit_granted register g p documented dynamic granted given =
    let (cs, ds, sets, count, ups, downs, quiet, array) = setup_all_given p g given p.ndevices 0 in
    let same_number : register p.major ≡ register 0 = ap register dynamic in
    let above : 0 < pos_part (register p.major) =
      rw same_number (documented.dynamic (ap is_negative (sym same_number) ∙ granted)) in
    let fine : (is_negative (register p.major) || (pos_part (register p.major) == 0)) ≡ false =
      ground (arith, granted, above) in
    let range : (i : ℕ) → (leb 0 i && ltb i (0 + p.ndevices)) ≡ ltb i p.ndevices =
      λ i. ground arith in
    (
      record {
        ret = ok 0;
        major = register p.major;
        array = some ds;
        calls = of_array (acquire devices) ∷ cs;
        unregistered = [];
      },
      ds,
      rw (init, fine, sets) refl,
      refl,
      refl,
      count,
      λ i. ups i ∙ rw (range i) refl,
      λ i. downs i ∙ rw (range i) refl,
      ap (λ l. acquire devices ∷ l) quiet,
      array,
      refl,
    )
