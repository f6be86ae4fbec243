-- ===== src/Globalfifo.antt =====
-- globalfifo/globalfifo.c, the FIFO character device: its state and its file operations.
-- A handler is a function of the device and of what the kernel answers; its result holds the new
-- device, the return value, the bytes that a successful copy_to_user delivered, and the calls of
-- the kernel that it made, in order. printk is left out.
pub mod Invariant
pub mod Semaphore
pub mod Queue
pub mod Refine
pub mod Observed
pub mod Stream
pub mod Sleepers
pub mod Threads
pub mod Conserve
pub mod Drain
pub mod Load
pub mod Files
pub mod Notify
mod Tests
use lkm_practice.Base.{
  ℕ, ◌+◌, ◌-◌, ◌%◌, ◌^◌, Bool, true, false, List, [], ◌∷◌, ◌++◌, ltb, ◌==◌, if◌then◌else◌, take,
  zeroes, blit,
}
use lkm_practice.Kernel.{eagain, erestartsys, efault, einval, Ret, ok, err, Uaccess}

-- GLOBALFIFO_SIZE
abbrev pub size : ℕ
size = 0x1000

-- struct globalfifo_dev. The semaphore and the wait queues are read off the calls of a handler;
-- `async_queue` lists the files that asked for SIGIO. A byte is any number.
pub record Fifo : Type 0 where
  pub current_len : ℕ  -- unsigned int
  pub mem : List ℕ
  pub async_queue : List ℕ

pub data WaitQueue : Type 0 where
  r_wait w_wait : WaitQueue

pub data TaskState : Type 0 where
  interruptible running : TaskState

-- `down` and `up` are on the device's semaphore; `sigio` is kill_fasync with SIGIO.
pub data KernelCall : Type 0 where
  down up schedule : KernelCall
  add_wait remove_wait poll_wait wake_up : WaitQueue → KernelCall
  set_state : TaskState → KernelCall
  sigio : List ℕ → KernelCall

pub record Done : Type 0 where
  pub dev : Fifo
  pub ret : Ret
  pub sent : List ℕ
  pub log : List KernelCall

-- A handler up to its schedule(): it has returned, or it sleeps.
pub data Entered : Type 0 where
  done : Done → Entered
  sleeps : List KernelCall → Entered

-- The labels out2 and out at the end of the read and write handlers.
abbrev out2 : List KernelCall
out2 = remove_wait w_wait ∷ set_state running ∷ []

abbrev out : List KernelCall
out = up ∷ out2

-- The entry of a handler.
abbrev pub enqueued : WaitQueue → List KernelCall
enqueued q = down ∷ add_wait q ∷ []

-- A sum and a difference of unsigned ints.
abbrev pub add32 : ℕ → ℕ → ℕ
add32 a b = (a + b) % 2 ^ 32

abbrev pub sub32 : ℕ → ℕ → ℕ
sub32 a b = (a + 2 ^ 32 - b) % 2 ^ 32

-- `if (count > limit) count = limit;`
abbrev pub clamp : ℕ → ℕ → ℕ
clamp count limit = if ltb limit count then limit else count

abbrev pub is_nil : List ℕ → Bool
is_nil [] = true
is_nil (x ∷ xs) = false

-- Lines 157 to 186, with the semaphore held: `pre` are the calls made since the caller's entry or
-- its wake-up. `current_len -= n` runs only at n ≤ current_len, and so does not wrap.
pub read_copy : Uaccess → List KernelCall → ℕ → ℕ → Fifo → Done
read_copy k pre buf count dev =
    let n = clamp count dev.current_len in
    let bytes = take n dev.mem in
    if k.to_user buf bytes == 0
    then record {
      dev = record dev {
        mem = k.memcpy dev.mem 0 n (dev.current_len - n);
        current_len = dev.current_len - n;
      };
      ret = ok n;
      sent = bytes;
      log = pre ++ wake_up w_wait ∷ out;
    }
    else record { dev = dev; ret = err efault; sent = []; log = pre ++ out }

-- Lines 130 to 146.
pub read_enter : Uaccess → Bool → ℕ → ℕ → Fifo → Entered
read_enter k nonblock buf count dev =
    let pre = enqueued r_wait in
    if dev.current_len == 0
    then (if nonblock
        then done (record { dev = dev; ret = err eagain; sent = []; log = pre ++ out })
        else sleeps (pre ++ set_state interruptible ∷ up ∷ schedule ∷ []))
    else done (read_copy k pre buf count dev)

-- Lines 148 to 186, after schedule(): `signal` is signal_pending(current).
pub read_wake : Uaccess → Bool → ℕ → ℕ → Fifo → Done
read_wake k signal buf count dev =
    if signal
    then record { dev = dev; ret = err erestartsys; sent = []; log = out2 }
    else read_copy k (down ∷ []) buf count dev

-- Lines 222 to 252, with the semaphore held.
pub write_copy : Uaccess → List KernelCall → ℕ → ℕ → Fifo → Done
write_copy k pre buf count dev =
    let n = clamp count (sub32 size dev.current_len) in
    let (missed, bytes) = k.from_user buf n in
    let mem = blit dev.mem dev.current_len bytes in
    if missed == 0
    then record {
      dev = record dev { mem = mem; current_len = add32 dev.current_len n };
      ret = ok n;
      sent = [];
      log =
          pre
          ++ wake_up r_wait
            ∷ ((if is_nil dev.async_queue then [] else sigio dev.async_queue ∷ []) ++ out);
    }
    else record { dev = record dev { mem = mem }; ret = err efault; sent = []; log = pre ++ out }

-- Lines 197 to 212.
pub write_enter : Uaccess → Bool → ℕ → ℕ → Fifo → Entered
write_enter k nonblock buf count dev =
    let pre = enqueued w_wait in
    if dev.current_len == size
    then (if nonblock
        then done (record { dev = dev; ret = err eagain; sent = []; log = pre ++ out })
        else sleeps (pre ++ set_state interruptible ∷ up ∷ schedule ∷ []))
    else done (write_copy k pre buf count dev)

-- Lines 213 to 252, after schedule().
pub write_wake : Uaccess → Bool → ℕ → ℕ → Fifo → Done
write_wake k signal buf count dev =
    if signal
    then record { dev = dev; ret = err erestartsys; sent = []; log = out2 }
    else write_copy k (down ∷ []) buf count dev

-- What the other processes do to the device while the caller sleeps in schedule(), and whether a
-- signal is pending when it returns.
abbrev pub Schedule : Type 0
Schedule = Fifo → Fifo × Bool

abbrev resume : Schedule → (Bool → Fifo → Done) → Fifo → Entered → Done
resume sched wake dev (done d) = d
resume sched wake dev (sleeps pre) =
    let (dev', signal) = sched dev in let d = wake signal dev' in record d { log = pre ++ d.log }

pub read : Uaccess → Schedule → Bool → ℕ → ℕ → Fifo → Done
read k sched nonblock buf count dev =
    resume sched (λ signal dev'. read_wake k signal buf count dev') dev
      (read_enter k nonblock buf count dev)

pub write : Uaccess → Schedule → Bool → ℕ → ℕ → Fifo → Done
write k sched nonblock buf count dev =
    resume sched (λ signal dev'. write_wake k signal buf count dev') dev
      (write_enter k nonblock buf count dev)

-- FIFO_CLEAR
abbrev pub fifo_clear : ℕ
fifo_clear = 0x1

pub unlocked_ioctl : ℕ → Fifo → Done
unlocked_ioctl cmd dev =
    if cmd == fifo_clear
    then record {
      dev = record dev { current_len = 0; mem = zeroes size };
      ret = ok 0;
      sent = [];
      log = down ∷ up ∷ [];
    }
    else record { dev = dev; ret = err einval; sent = []; log = [] }

-- A field for each bit of the mask.
pub record Mask : Type 0 where
  pub pollin : Bool
  pub pollrdnorm : Bool
  pub pollout : Bool
  pub pollwrnorm : Bool

pub poll : Fifo → Mask × List KernelCall
poll dev =
    let none_set : Mask = record {
      pollin = false;
      pollrdnorm = false;
      pollout = false;
      pollwrnorm = false;
    } in
    let mask =
      if dev.current_len == 0
      then none_set
      else record none_set { pollin = true; pollrdnorm = true } in
    let mask' =
      if dev.current_len == size then mask else record mask { pollout = true; pollwrnorm = true } in
    (mask', down ∷ poll_wait r_wait ∷ poll_wait w_wait ∷ up ∷ [])
