-- ===== src/Programs/Tests.antt =====
-- The programs at concrete inputs.
use lkm_practice.Base.{
  ℕ, ◌≤◌, ◌≡◌, ◌≢◌, refl, Bool, true, false, none, some, List, [], ◌∷◌, arith, ◌||◌, if◌then◌else◌,
  length, replicate, zeroes, length-zeroes,
}
use lkm_practice.Kernel.{ok}
use lkm_practice.Globalfifo.{Fifo}
use lkm_practice.Programs.Driver.{Opened}
use lkm_practice.Programs.Drivers.{globalmem_driver}
use lkm_practice.Programs.Text.{until_zero-append, IsText, empty, longer}
use lkm_practice.Programs.Echo
use lkm_practice.Programs.Echo.{shows, main-shows}
use lkm_practice.Programs.Menu
use lkm_practice.Programs.Menu.{
  Command, read_it, write_it, clear_it, rewind_it, other, globalmem_test1, lock_test1, AllFit,
  none_typed, fits, overrun, main-ne-overrun, main-overrun,
}
use lkm_practice.Programs.Polling.{
  Select, IsSelect, AllValid, no_devices, valid, monitor_main, running, lines_of, monitor_main-busy,
}
use lkm_practice.Second.{Dev, timer_handler, open_file}
use lkm_practice.Second.Timer.{World, tick, expire, handle, Run, stay, next, due, lag}
use lkm_practice.Second.Count
use lkm_practice.Programs.Seconds
use lkm_practice.Programs.Seconds.{Climbs, latest, seconds_in, unread, then_read, main-Climbs}

abbrev text : List ℕ
text = 104 ∷ 105 ∷ []

text-IsText : IsText text
text-IsText = longer (omega arith) (longer (omega arith) empty)

-- A device that was used before.
abbrev used : Opened
used = record { mem = 1 ∷ 2 ∷ 3 ∷ []; pos = 0 }

main-shows_example :
    Echo.main (globalmem_driver true) (some used) text (7 ∷ 7 ∷ []) ≡ shows text (ok 2) text
main-shows_example =
    main-shows (globalmem_driver true) refl (omega arith) (omega arith) used text (7 ∷ 7 ∷ []) refl
      (omega arith) text-IsText

abbrev typed : List Command
typed = clear_it ∷ write_it text ∷ rewind_it ∷ read_it ∷ other ∷ []

abbrev started : Menu.State
started = record { fd = used; recvbuf = replicate 1024 0 }

main-ne-overrun_example :
    Menu.main globalmem_test1 (globalmem_driver false) started [] typed ≢ overrun
main-ne-overrun_example =
    main-ne-overrun globalmem_test1 (globalmem_driver false) (omega arith) started [] (omega arith)
      ([], until_zero-append (replicate 923 0) empty)
      (fits refl (fits refl (fits refl (fits refl (fits refl none_typed)))))

abbrev zeroed : Opened
zeroed = record { mem = zeroes 0x1000; pos = 0 }

abbrev fifo : Fifo
fifo = record { current_len = 4; mem = zeroes 0x1000; async_queue = [] }

-- Another process writes a byte after the clear.
abbrev one_byte : Fifo
one_byte = record fifo { current_len = 1 }

fifo-AllValid : AllValid (fifo ∷ one_byte ∷ [])
fifo-AllValid =
    valid (record { full_array = length-zeroes 0x1000; within = omega arith })
      (valid (record { full_array = length-zeroes 0x1000; within = omega arith }) no_devices)

-- select as its manual page has it.
abbrev selects : Select
selects m =
    if m.pollin || m.pollrdnorm || m.pollout || m.pollwrnorm
    then some (m.pollin || m.pollrdnorm, m.pollout || m.pollwrnorm)
    else none

selects-IsSelect : IsSelect selects
selects-IsSelect = record {
  blocks = λ m a b c d. ground arith;
  returns = λ m some_set a b. ground arith;
}

monitor_main-busy_example :
    (monitor_main selects (some fifo) (λ dev. fifo ∷ one_byte ∷ [])
      ≡ running (lines_of (fifo ∷ one_byte ∷ [])))
    × (2 ≤ length (lines_of (fifo ∷ one_byte ∷ [])))
monitor_main-busy_example =
    monitor_main-busy selects selects-IsSelect fifo (λ dev. fifo ∷ one_byte ∷ []) fifo-AllValid

-- The clock has two ticks in a second, and the program reads at the start and after a second.
abbrev unused_dev : Dev
unused_dev = record { counter = 7; s_timer = none }

abbrev one_second : World
one_second = record { clock = 7; dev = record { counter = 1; s_timer = some 9 }; running = none }

abbrev just_opened : World
just_opened = record { clock = 5; dev = record { counter = 0; s_timer = some 7 }; running = none }

opened_now : Count.Opened 2 5 unused_dev just_opened
unfolding open_file
opened_now = (refl, refl, refl)

one_counted : Run 2 0 just_opened one_second
unfolding timer_handler due lag
one_counted =
    next (next (next (next stay (tick refl refl)) (tick refl refl)) (expire 7 refl refl refl))
      (handle 7 refl)

main-Climbs_example :
    let rs : List (Bool × Dev) = (false, just_opened.dev) ∷ (false, one_second.dev) ∷ [] in
    Climbs 0 (latest 0 rs) (seconds_in (Seconds.main (some rs)))
main-Climbs_example =
    main-Climbs 2 0 (omega arith) 5 unused_dev opened_now
      (then_read false stay (omega arith) (then_read false one_counted (omega arith) unread))
