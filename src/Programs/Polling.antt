-- ===== src/Programs/Polling.antt =====
-- globalfifo/pollmonitor.c and globalfifo/epollmonitor.c: programs that wait for the FIFO with
-- select and with epoll_wait.
use lkm_practice.Base.{
  ℕ, ◌≤◌, ◌≡◌, refl, sym, ap, ◌∙◌, Bool, true, false, not, ◌⊎◌, inl, inr, Bool-cases, Option, none,
  some, List, [], ◌∷◌, ◌++◌, arith, ltb, ◌==◌, if◌then◌else◌, length, append-nil, append_assoc,
  length-append,
}
use lkm_practice.Kernel.{Ret, ok, err}
use lkm_practice.Globalfifo.{Fifo, Mask, poll, size, is_nil, unlocked_ioctl, fifo_clear}
use lkm_practice.Globalfifo.Invariant.{IsValid}
use lkm_practice.Globalfifo.Queue.{contents, clear_lem}
use lkm_practice.Globalfifo.Refine.{poll_lem, is_nil-length}

-- What the programs print.
pub data Line : Type 0 where
  ioctl_failed can_be_read can_be_written open_failure : Line
  no_input not_empty wait_failed create_failed ctl_failed : Line

-- ioctl(fd, FIFO_CLEAR, 0), and what is printed after it.
pub clear : Fifo → Fifo × List Line
clear dev =
    let d = unlocked_ioctl fifo_clear dev in
    elim d.ret [ ok n ↦ (d.dev, []) | err e ↦ (d.dev, ioctl_failed ∷ []) ]

-- The sets that select leaves for a file whose poll gives a mask: `none` is that it blocks.
abbrev pub Select : Type 0
Select = Mask → Option (Bool × Bool)

-- The body of the loop of pollmonitor, at the device that select finds: `none` is that it blocks.
pub round : Select → Fifo → Option (List Line)
round select dev = elim (select (poll dev).0) [
  | none ↦ none
  | some sets ↦
      some
        ((if sets.0 then can_be_read ∷ [] else []) ++ (if sets.1 then can_be_written ∷ [] else []))
]

-- Where pollmonitor is: it has returned, select blocks, or it goes round.
pub data Monitor : Type 0 where
  returned blocked running : List Line → Monitor

-- The loop, at the devices that select finds in turn.
pub loop : Select → List Line → List Fifo → Monitor
loop select out [] = running out
loop select out (dev ∷ devs) = elim (round select dev) [
  | none ↦ blocked out
  | some lines ↦ loop select (out ++ lines) devs
]

-- main of pollmonitor.c: by the device that open gives, if any, and the devices that the others leave
-- from the one that it has cleared.
pub monitor_main : Select → Option Fifo → (Fifo → List Fifo) → Monitor
monitor_main select none others = returned (open_failure ∷ [])
monitor_main select (some dev) others = let (dev', out) = clear dev in loop select out (others dev')

-- select(2): it waits until the file can be read or written, and says which.
pub record IsSelect (select : Select) : Type 0 where
  pub blocks :
      (m : Mask)
      → m.pollin ≡ false
      → m.pollrdnorm ≡ false
      → m.pollout ≡ false
      → m.pollwrnorm ≡ false
      → select m ≡ none
  pub returns :
      (m : Mask)
      → (m.pollin ≡ true) ⊎ (m.pollout ≡ true)
      → m.pollrdnorm ≡ m.pollin
      → m.pollwrnorm ≡ m.pollout
      → select m ≡ some (m.pollin, m.pollout)

-- The lines that fit the bytes in the queue.
abbrev pub lines_for : List ℕ → List Line
lines_for q =
    (if is_nil q then [] else can_be_read ∷ [])
    ++ (if ltb (length q) size then can_be_written ∷ [] else [])

pub data AllValid : List Fifo → Type 0 where
  no_devices : AllValid []
  valid : {dev : Fifo} {devs : List Fifo} → IsValid dev → AllValid devs → AllValid (dev ∷ devs)

clear-cleared : (dev : Fifo) → clear dev ≡ ((unlocked_ioctl fifo_clear dev).dev, [])
unfolding clear
clear-cleared dev = ground (arith, (clear_lem dev).2)

-- What pollmonitor prints at a list of devices.
abbrev pub lines_of : List Fifo → List Line
lines_of [] = []
lines_of (dev ∷ devs) = lines_for (contents dev) ++ lines_of devs

module _ (select : Select) (sound : IsSelect select) where
  round-lines : {dev : Fifo} → IsValid dev → round select dev ≡ some (lines_for (contents dev))
  unfolding round
  round-lines {dev} v =
      let m = (poll dev).0 in
      let (pin, prd, pout, pwr) = poll_lem v in
      let some_set : (m.pollin ≡ true) ⊎ (m.pollout ≡ true) =
        elim (Bool-cases (is_nil (contents dev))) [
          | inl empty ↦ inr (ground (arith, pout, is_nil-length (contents dev)))
          | inr full ↦ inl (ground (arith, pin))
        ] in
      ground (arith, sound.returns m some_set (prd ∙ sym pin) (pwr ∙ sym pout))

  loop-lines :
      (out : List Line) {devs : List Fifo}
      → AllValid devs
      → loop select out devs ≡ running (out ++ lines_of devs)
  unfolding loop
  loop-lines out no_devices = ap running (sym (append-nil out))
  loop-lines out (valid {dev} {devs} v rest) =
      rw (loop, round-lines v)
        (loop-lines (out ++ lines_for (contents dev)) rest
          ∙ ap running (append_assoc out (lines_for (contents dev)) (lines_of devs)))

  some_line : (q : List ℕ) → 1 ≤ length (lines_for q)
  some_line q = ground (arith, is_nil-length q)

  busy : (devs : List Fifo) → length devs ≤ length (lines_of devs)
  busy [] = omega arith
  busy (dev ∷ devs) =
      let here = some_line (contents dev) in
      let rest = busy devs in
      omega (arith, length-append (lines_for (contents dev)) (lines_of devs))

  -- If select returns as soon as the device is readable or writable, it never blocks pollmonitor
  -- at well-formed devices: in each round the device is one of the two, so that it prints at least
  -- a line a round, the first line exactly when a read would find a byte, and the second exactly
  -- when a write would find room.
  pub monitor_main-busy :
      (dev : Fifo) (others : Fifo → List Fifo)
      → let found = others (unlocked_ioctl fifo_clear dev).dev in
        AllValid found
        → (monitor_main select (some dev) others ≡ running (lines_of found))
          × (length found ≤ length (lines_of found))
  unfolding monitor_main
  monitor_main-busy dev others all = (
    rw (clear-cleared dev) (loop-lines [] all),
    busy (others (unlocked_ioctl fifo_clear dev).dev),
  )

-- What epoll_wait returns, of the masks that the file has whenever the kernel polls it.
abbrev pub EpollWait : Type 0
EpollWait = List Mask → Ret

abbrev pub input_in : List Mask → Bool
input_in [] = false
input_in (m ∷ ms) = if m.pollin then true else input_in ms

-- epoll_wait(2) on EPOLLIN | EPOLLPRI with a timeout: it returns 1 once the file can be read, and 0
-- when the time has passed.
pub record IsEpollWait (wait : EpollWait) : Type 0 where
  pub ready : (ms : List Mask) → input_in ms ≡ true → wait ms ≡ ok 1
  pub timeout : (ms : List Mask) → input_in ms ≡ false → wait ms ≡ ok 0

-- What is printed of what epoll_wait returns.
abbrev pub report : Ret → Line
report (err e) = wait_failed
report (ok n) = if n == 0 then no_input else not_empty

abbrev pub masks : List Fifo → List Mask
masks [] = []
masks (dev ∷ devs) = (poll dev).0 ∷ masks devs

-- main of epollmonitor.c: by the device that open gives, if any, whether epoll_create and the two calls
-- of epoll_ctl succeed, and the devices that the others leave while it waits, from the one that it has
-- cleared.
pub epoll_main :
    EpollWait → Option Fifo → (created added removed : Bool) → (Fifo → List Fifo) → List Line
epoll_main wait none created added removed others = open_failure ∷ []
epoll_main wait (some dev) created added removed others =
    let (dev', out) = clear dev in
    let ret = wait (masks (dev' ∷ others dev')) in
    if not created
    then out ++ create_failed ∷ []
    else (if not added
        then out ++ ctl_failed ∷ []
        else out ++ report ret ∷ (if removed then [] else ctl_failed ∷ []))

-- Whether a device of a list holds bytes.
abbrev pub some_bytes : List Fifo → Bool
some_bytes [] = false
some_bytes (dev ∷ devs) = if is_nil (contents dev) then some_bytes devs else true

input_in-masks : {devs : List Fifo} → AllValid devs → input_in (masks devs) ≡ some_bytes devs
input_in-masks no_devices = refl
input_in-masks (valid {dev} {devs} v rest) = ground (arith, (poll_lem v).0, input_in-masks rest)

-- With epoll_create and epoll_ctl that succeed, epollmonitor prints that the FIFO is not empty if a
-- device that the kernel polls during the wait holds bytes, and that nothing came if none does; what
-- the FIFO held before does not count.
pub epoll_main-reports :
    (wait : EpollWait)
    → IsEpollWait wait
    → (dev : Fifo) (others : Fifo → List Fifo)
    → AllValid (others (unlocked_ioctl fifo_clear dev).dev)
    → epoll_main wait (some dev) true true true others
      ≡ (if some_bytes (others (unlocked_ioctl fifo_clear dev).dev) then not_empty else no_input)
        ∷ []
unfolding epoll_main
epoll_main-reports wait sound dev others all =
    let (v, empty, r) = clear_lem dev in
    let dev' = (unlocked_ioctl fifo_clear dev).dev in
    let seen : input_in (masks (dev' ∷ others dev')) ≡ some_bytes (others dev') =
      ground (arith, input_in-masks (valid v all), empty) in
    rw (clear-cleared dev) (elim (Bool-cases (some_bytes (others dev'))) [
      | inl e ↦ ground (arith, e, sound.ready (masks (dev' ∷ others dev')) (seen ∙ e))
      | inr e ↦ ground (arith, e, sound.timeout (masks (dev' ∷ others dev')) (seen ∙ e))
    ])
