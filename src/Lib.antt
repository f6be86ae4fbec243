-- ===== src/Lib.antt =====
-- Character and block drivers of the repository, for the Linux kernel.
--
-- The repository is a collection of small kernel modules, each in a directory of its own, built and
-- loaded by itself. What they share is the kernel: the registration of devices, the copies to and
-- from user space, semaphores and wait queues. The modules here:
--
-- - Base: lists, tests, integers and machine words, over the native natural numbers (Base/Lists,
--   Base/Tests, Base/Int), and the memory of a device as a list of bytes, with a block write `blit`
--   and a range `window` (Base/Bytes), and a function changed at one number (Base/Update).
-- - Kernel: results and error numbers, and the functions of the kernel that move bytes, as a record
--   that the handlers take (Kernel/Defs); the registration of character devices, as the calls that
--   a driver makes and what they leave registered (Kernel/Chrdev); a user space that is mapped and
--   one that is not, for runs (Kernel/Samples).
-- - Globalfifo: globalfifo/globalfifo.c. `Fifo` is struct globalfifo_dev; `read`, `write`,
--   `unlocked_ioctl` and `poll` are its handlers globalfifo_read and so on, `open_file`, `fasync`
--   and `release` are in Globalfifo/Files, `init`, `exit` and `setup_cdev` in Globalfifo/Load. A
--   handler that can sleep is two functions, up to schedule() (`read_enter`, `write_enter`) and
--   from there (`read_wake`, `write_wake`); `read` and `write` put them together with what the
--   other processes do in between. Globalfifo/Queue is the byte queue that the driver promises,
--   Globalfifo/Refine compares the two; Globalfifo/Stream is any number of processes that use the
--   device at once, as a step relation, Globalfifo/Conserve what they see of the stream of bytes,
--   and Globalfifo/Drain a single reader that gets all of it. Globalfifo/Threads is the same with
--   the sections between down() and up() cut into pieces: what each piece does is in
--   Threads/Sections and its children, what a step shows of the stream in Threads/Steps, and that
--   Globalfifo/Stream is what users see of it in Threads/Atomic; Threads/Finish and
--   Threads/Progress are about the steps that free the semaphore. Globalfifo/Sleepers has the same
--   processes with wake-ups that reach a sleeper or not, Sleepers/Awake says who sleeps in vain,
--   and Sleepers/Served who is woken. Globalfifo/Observed is the quotient of the device by what its
--   users cannot observe. Globalfifo/Invariant and Globalfifo/Semaphore have the state of the
--   device and the calls of locks, queues and signals.
-- - Globalmem: globalmem/globalmem.c. `read`, `write`, `llseek` and `compat_ioctl` are
--   globalmem_read and so on, functions of the memory and the position of the file; the size of the
--   memory is a parameter. Globalmem/Access is about reads and writes, Globalmem/Seek about
--   positions, Globalmem/Calls about sequences of calls, Globalmem/Load about loading.
-- - GlobalmemLock: globalmem_lock/globalmem_lock.c, the same device with a mutex and a timer; a
--   handler's result has the calls of the mutex too. GlobalmemLock/Locking compares it with
--   Globalmem.
-- - Sbull: sbull/sbull.c, the RAM disk. `do_simple_request` and `queue_rq` are do_simple_request
--   and _queue_rq, with the loop over a request's segments as a recursion over their buffers;
--   `transfer` is sbull_transfer. Sbull/Setup has setup_device and the loop of sbull_exit,
--   Sbull/Users the block_device_operations. Sbull/Transfer and Sbull/Outcome are about requests,
--   Sbull/Guard about the range check of sbull_transfer, Sbull/Load about sbull_init and
--   sbull_exit. Sbull/Disk compares requests with a disk, a function from addresses to bytes, on
--   which sectors begin any number of bytes apart.
-- - Expfs: expfs/expfs.c, the file system in memory: `read`, `write` and `llseek` on the block of
--   an open file (Expfs/File, Expfs/Seek), and the entries in a directory's block, with `lookup`,
--   `add_entry` and `erase_entry` (Expfs/Entries, Expfs/Names). A directory's block is an array of
--   the four entries that fit into its buffer. Expfs/Blocks has the array of blocks, with
--   `do_create`, `unlink`, `rmdir`, `rename` and `symlink_in`; what keeps it well formed is
--   Expfs/Blocks/Valid, and its children are about one operation each. Expfs/Mount has loading,
--   mounting, the inodes and `iterate`; Expfs/Tree is any sequence of operations on a mounted file
--   system, as a step relation, and Expfs/Directories is the specification that they refine: each
--   directory a list of names with numbers. Expfs/Contents and Expfs/Persistence are about a file
--   that others work around: its block, and its name. Expfs/Dcache adds the dentries that the
--   kernel caches, by which it calls unlink, rmdir and rename; its children say that they agree
--   with the directories, what users see, and what stays. Where the source writes behind an array,
--   the outcome is `overrun`.
-- - Second: second/second.c, a device that counts seconds. `timer_handler`, `open_file`, `release`
--   and `read` are second_timer_handler and so on. Second/Timer has the clock and what the kernel
--   does with the timer, as a step relation on the number of ticks, of which jiffies is the low
--   word; how late the kernel may be is a parameter. Second/Count and Second/Alive are about the
--   device while it is open, Second/Release about the time after, Second/Load about loading.
-- - AddSub: add_sub/add_sub.c and test/test.c, two functions on longs. Unload: unload/unload.c,
--   which sets a module in the kernel's list back to life. KernThread: kern_thread/kern_thread.c,
--   two threads that loop, as program counters that a scheduler moves. HackThread:
--   hack_thread/hack_thread.c, which prints the first tasks of the kernel's list.
-- - Programs: the programs beside the drivers, each with its driver. Programs/Driver is what those
--   of globalmem and globalmem_lock rely on of a device file, a record of operations and laws;
--   Programs/Drivers fills it with both drivers. Programs/Echo is globalmem/test.c, Programs/Menu
--   globalmem/test1.c and globalmem_lock/test1.c, Programs/Timing globalmem_lock/test2.c,
--   Programs/Polling globalfifo/pollmonitor.c and globalfifo/epollmonitor.c, Programs/Seconds
--   second/second_test.c; `main` is main in each. globalfifo/asyncmonitor.c is Globalfifo/Notify.
--
-- What the kernel does is a parameter. copy_to_user and copy_from_user say how many bytes they
-- left; the hypothesis `IsFilling` on them is their documentation: n bytes arrive in any case.
-- memcpy is a parameter too, because globalfifo_read calls it on ranges that overlap, for which its
-- documentation says nothing: `CopiesDisjoint` is that documentation, and theorems on what is left
-- in the device have it with the condition that a read asks for at least half of what the device
-- holds. The block layer's blk_update_request, fasync_helper and the registration functions are
-- parameters in the same way.
--
-- Numbers: unsigned int and unsigned long wrap at 2 ^ 32 and 2 ^ 64, written out. A byte is any
-- natural number. No definition of the model needs fuel: a loop is a recursion on a list, or on the
-- rounds that its bound leaves.
--
-- The semaphore is held by one process at a time, so in Globalfifo/Stream and Globalfifo/Sleepers a
-- step runs from one down() to the next up() or schedule(). Globalfifo/Threads has what is behind
-- that: a process waits in down() and goes on when nobody holds the semaphore, and a copy or the
-- memset of FIFO_CLEAR is any number of pieces of any length, between which other processes run;
-- memcpy is one piece. A sleeper may get up at any time there, woken or not. The mutex of
-- globalmem_lock/globalmem_lock.c is never initialised, so threads that meet at it are not
-- modelled. The order in which processes that wait get the semaphore, the printing of the drivers,
-- and the wait queues' lists of processes are not modelled; poll, which changes nothing, is left
-- out of the step relations.
--
-- Not modelled: expfs_exit, expfs_mount and expfs_kill_sb, which only call the kernel;
-- procfs_rw/procfs_rw.c, hello/hello.c and addrsniffer/addrsniffer.c, which only print;
-- vmem_disk/vmem_disk.c, which has no code. intrsimulate/intrsimulate.c does not compile as it
-- stands. The scripts and generateCharDeviceDriver.py are not part of a module.
pub mod Base
pub mod Kernel
pub mod Globalfifo
pub mod Globalmem
pub mod GlobalmemLock
pub mod Sbull
pub mod Expfs
pub mod Programs
pub mod Second
pub mod AddSub
pub mod Unload
pub mod KernThread
pub mod HackThread
