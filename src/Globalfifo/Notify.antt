-- ===== src/Globalfifo/Notify.antt =====
-- globalfifo/asyncmonitor.c: a program that asks globalfifo.c for SIGIO, and what it is sent while others
-- use the device.
mod Tests
use lkm_practice.Base.{
  ℕ, ◌+◌, ◌≡◌, Bool, true, false, List, [], ◌∷◌, ◌++◌, if◌then◌else◌, ℤ, pos, Option, none, some,
  ◌&&◌, ◌==◌,
}
use lkm_practice.Kernel.{Uaccess, Ret, ok, err}
use lkm_practice.Globalfifo.{Fifo, Done, KernelCall, sigio, Schedule, read, write, unlocked_ioctl}
use lkm_practice.Globalfifo.Files.{File, FasyncHelper, fasync, open_file, contains}

-- The process: its number, and whether SIGIO has input_handler in it.
pub record Process : Type 0 where
  pub pid : ℕ
  pub handler : Bool

-- The open file: whom its signals go to, and its flags, of which the first is FASYNC.
pub record OpenFile : Type 0 where
  pub file : File
  pub owner : Option ℕ
  pub flags : Bool × ℕ

-- What the program calls: signal(SIGIO, input_handler), and fcntl with F_SETOWN, F_GETFL and F_SETFL,
-- of which the last may call the driver's fasync with a mode.
pub record Unix : Type 0 where
  pub signal : Process → Process
  pub set_owner : ℕ → OpenFile → OpenFile
  pub get_flags : OpenFile → Bool × ℕ
  pub set_flags : (ℕ → Fifo → Fifo) → Bool × ℕ → OpenFile → Fifo → OpenFile × Fifo

-- The kernel calls a driver's fasync when FASYNC changes, with whether it is set.
abbrev pub notify : (ℕ → Fifo → Fifo) → (old new : Bool) → Fifo → Fifo
notify driver true true dev = dev
notify driver false false dev = dev
notify driver false true dev = driver 1 dev
notify driver true false dev = driver 0 dev

-- These functions, as they are documented.
pub record IsUnix (u : Unix) : Type 0 where
  pub signals : (p : Process) → u.signal p ≡ record p { handler = true }
  pub owns : (pid : ℕ) (f : OpenFile) → u.set_owner pid f ≡ record f { owner = some pid }
  pub reads_flags : (f : OpenFile) → u.get_flags f ≡ f.flags
  pub sets_flags :
      (driver : ℕ → Fifo → Fifo) (flags : Bool × ℕ) (f : OpenFile) (dev : Fifo)
      → u.set_flags driver flags f dev
        ≡ (record f { flags = flags }, notify driver f.flags.0 flags.0 dev)

pub record Started : Type 0 where
  pub process : Process
  pub opened : OpenFile
  pub dev : Fifo

-- main up to its loop, at the file of the device if open succeeds.
pub main : Unix → FasyncHelper → ℤ → Process → Option OpenFile → Fifo → Option Started
main u helper fd p none dev = none
main u helper fd p (some f) dev =
    let p' = u.signal p in
    let f' = u.set_owner p'.pid f in
    let oflags = u.get_flags f' in
    let (f'', dev') =
      u.set_flags (λ mode d. (fasync helper fd f'.file mode d).1) (true, oflags.1) f' dev in
    some (record { process = p'; opened = f''; dev = dev' })

-- fasync_helper with mode 1 puts the file on the list.
abbrev pub Adds : FasyncHelper → Type 0
Adds helper = (fd : ℤ) (id : ℕ) (queue : List ℕ) → contains id (helper fd id 1 queue).1 ≡ true

-- A call of another process.
pub data Call : Type 0 where
  reads writes : Uaccess → Schedule → (nonblock : Bool) → (buf count : ℕ) → Call
  ioctls : ℕ → Call

pub call : Call → Fifo → Done
call (reads k sched nonblock buf count) dev = read k sched nonblock buf count dev
call (writes k sched nonblock buf count) dev = write k sched nonblock buf count dev
call (ioctls cmd) dev = unlocked_ioctl cmd dev

-- How many SIGIO a file is sent by the calls of the kernel, and by a list of calls.
abbrev pub sigios : ℕ → List KernelCall → ℕ
sigios id [] = 0
sigios id (sigio fs ∷ l) = (if contains id fs then 1 else 0) + sigios id l
sigios id (c ∷ l) = sigios id l

pub heard : ℕ → List Call → Fifo → ℕ
heard id [] dev = 0
heard id (c ∷ cs) dev = let d = call c dev in sigios id d.log + heard id cs d.dev

-- How many lines input_handler prints: SIGIO of a file goes to its owner.
abbrev pub owned_by : Option ℕ → ℕ → Bool
owned_by none pid = false
owned_by (some owner) pid = owner == pid

pub printed : Started → List Call → ℕ
printed s cs =
    if s.process.handler && owned_by s.opened.owner s.process.pid
    then heard s.opened.file.id cs s.dev
    else 0

-- Whether a call is a write that succeeds, and how many of a list are.
abbrev pub stored : Call → Ret → ℕ
stored (writes k sched nonblock buf count) (ok n) = 1
stored c r = 0

pub writes_done : List Call → Fifo → ℕ
writes_done [] dev = 0
writes_done (c ∷ cs) dev = let d = call c dev in stored c d.ret + writes_done cs d.dev

-- Nobody takes the file off the list while a call sleeps.
abbrev pub KeepsFile : ℕ → Call → Type 0
KeepsFile id (reads k sched nonblock buf count) =
    (d : Fifo) → contains id d.async_queue ≡ true → contains id (sched d).0.async_queue ≡ true
KeepsFile id (writes k sched nonblock buf count) =
    (d : Fifo) → contains id d.async_queue ≡ true → contains id (sched d).0.async_queue ≡ true
KeepsFile id (ioctls cmd) = Unit

pub data AllKeep (id : ℕ) : List Call → Type 0 where
  no_calls : AllKeep id []
  keeps : {c : Call} {cs : List Call} → KeepsFile id c → AllKeep id cs → AllKeep id (c ∷ cs)

module _ (id : ℕ) where
  -- What a call does to a listed file.
  abbrev Notified : (Ret → ℕ) → Done → Type 0
  Notified by d = (sigios id d.log ≡ by d.ret) × (contains id d.dev.async_queue ≡ true)

  abbrev by_write : Ret → ℕ
  by_write (ok n) = 1
  by_write (err e) = 0
