-- ===== src/Globalmem/Calls.antt =====
-- globalmem.c: any sequence of calls on one open file.
use lkm_practice.Base.{ℕ, ◌≤◌, ◌≡◌, List, [], ◌∷◌, arith, length, length-zeroes, ℤ}
use lkm_practice.Kernel.{Uaccess, IsFilling}
use lkm_practice.Globalmem.{Done, read, write, compat_ioctl, llseek}
use lkm_practice.Globalmem.Access.{write_frame}
use lkm_practice.Globalmem.Seek.{llseek_bounded}

-- The calls of the file operations, with their arguments.
pub data Op : Type 0 where
  read_op write_op : (buf asked : ℕ) → Op
  seek_op : ℤ → ℕ → Op
  ioctl_op : ℕ → Op

-- The device's memory and the file's position.
pub record State : Type 0 where
  pub mem : List ℕ
  pub f_pos : ℕ

abbrev pub state : Done → State
state d = record { mem = d.mem; f_pos = d.f_pos }

module _ (size : ℕ) (k : Uaccess) where
  unfoldable pub step : State → Op → State
  step s (read_op buf asked) = state (read size k buf asked s.mem s.f_pos)
  step s (write_op buf asked) = state (write size k buf asked s.mem s.f_pos)
  step s (seek_op offset orig) = record s { f_pos = (llseek size offset orig s.f_pos).0 }
  step s (ioctl_op cmd) = state (compat_ioctl size cmd s.mem s.f_pos)

  unfoldable pub run : State → List Op → State
  run s [] = s
  run s (op ∷ ops) = run (step s op) ops

pub record IsValid (size : ℕ) (s : State) : Type 0 where
  pub full_array : length s.mem ≡ size
  pub within : s.f_pos ≤ size

module _ (size : ℕ) (k : Uaccess) (filling : IsFilling k) where
  read-IsValid :
      (buf asked : ℕ) {s : State}
      → IsValid size s
      → IsValid size (state (read size k buf asked s.mem s.f_pos))
  unfolding read
  read-IsValid buf asked v = ground arith

  write-within :
      (buf asked : ℕ) {s : State}
      → IsValid size s
      → (write size k buf asked s.mem s.f_pos).f_pos ≤ size
  unfolding write
  write-within buf asked v = ground arith

  ioctl-IsValid :
      (cmd : ℕ) {s : State}
      → IsValid size s
      → IsValid size (state (compat_ioctl size cmd s.mem s.f_pos))
  unfolding compat_ioctl
  ioctl-IsValid cmd v = ground (arith, length-zeroes size)

  step-IsValid : {s : State} (op : Op) → IsValid size s → IsValid size (step size k s op)
  unfolding step
  step-IsValid (read_op buf asked) v = read-IsValid buf asked v
  step-IsValid {s} (write_op buf asked) v = record {
    full_array = (write_frame size k buf asked s.mem s.f_pos filling v.full_array).0;
    within = write-within buf asked v;
  }
  step-IsValid {s} (seek_op offset orig) v = record {
    full_array = v.full_array;
    within = llseek_bounded size orig s.f_pos offset v.within;
  }
  step-IsValid (ioctl_op cmd) v = ioctl-IsValid cmd v

  -- Any sequence of reads, writes, seeks and ioctls, with any arguments and whatever the copies to
  -- and from the user answer, keeps the size of the memory and the position within it; so no call
  -- of it touches a byte outside.
  pub run-IsValid : (ops : List Op) {s : State} → IsValid size s → IsValid size (run size k s ops)
  unfolding run
  run-IsValid [] v = v
  run-IsValid (op ∷ ops) v = run-IsValid ops (step-IsValid op v)
