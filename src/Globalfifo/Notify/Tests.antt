-- ===== src/Globalfifo/Notify/Tests.antt =====
-- globalfifo/asyncmonitor.c beside a write and a read.
use lkm_practice.Base.{true, false, some, none, List, [], ◌∷◌, ◌==◌, if◌then◌else◌, zeroes}
use lkm_practice.Kernel.{ok}
use lkm_practice.Kernel.Samples.{mapped}
use lkm_practice.Globalfifo.{Fifo, size}
use lkm_practice.Globalfifo.Files.{File, FasyncHelper}
use lkm_practice.Globalfifo.Notify.{Call, reads, writes, ioctls, Process, OpenFile, Unix, notify}

-- A list with the newest file in front.
abbrev fasync_helper : FasyncHelper
fasync_helper fd id mode queue = if mode == 0 then (ok 0, []) else (ok 1, id ∷ queue)

abbrev monitor : File
monitor = record { id = 5; private_data = 1 }

abbrev dev : Fifo
dev = record { current_len = 0; mem = zeroes size; async_queue = 4 ∷ [] }

abbrev calls : List Call
calls =
    writes mapped (λ d. (d, false)) true 10 3
    ∷ reads mapped (λ d. (d, false)) true 0 2
    ∷ ioctls 1
    ∷ writes mapped (λ d. (d, false)) false 10 1
    ∷ []

abbrev linux : Unix
linux = record {
  signal = λ p. record p { handler = true };
  set_owner = λ pid f. record f { owner = some pid };
  get_flags = λ f. f.flags;
  set_flags = λ driver flags f d. (record f { flags = flags }, notify driver f.flags.0 flags.0 d);
}

abbrev program : Process
program = record { pid = 42; handler = false }

abbrev opened : OpenFile
opened = record { file = monitor; owner = none; flags = (false, 2) }
