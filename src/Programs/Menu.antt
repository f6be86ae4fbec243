-- ===== src/Programs/Menu.antt =====
-- globalmem/test1.c and globalmem_lock/test1.c: a program that reads commands and tries the device; the
-- two differ in the sizes of their buffers and in how much they read.
use lkm_practice.Base.{
  ℕ, ◌+◌, ◌^◌, ◌≤◌, ◌<◌, ◌≡◌, ◌≢◌, refl, ap, ◌∙◌, Bool, true, none, some, List, [], ◌∷◌, ◌++◌,
  arith, ltb, leb, if◌then◌else◌, length, drop, blit, length-window, length-take,
}
use lkm_practice.Kernel.{Ret}
use lkm_practice.Programs.Driver.{Opened, MemDriver, cut}
use lkm_practice.Programs.Text.{until_zero, until_zero-drop, drop-blit_start}

-- The sizes of sendbuf and recvbuf, and the count that is handed to read.
pub record Program : Type 0 where
  pub send_size : ℕ
  pub recv_size : ℕ
  pub asked : ℕ

abbrev pub globalmem_test1 : Program
globalmem_test1 = record { send_size = 1024; recv_size = 1024; asked = 100 }

abbrev pub lock_test1 : Program
lock_test1 = record { send_size = 1024000; recv_size = 1024; asked = 1024000 }

-- What is typed: a number, and a string after 2.
pub data Command : Type 0 where
  leave read_it clear_it rewind_it other : Command
  write_it : List ℕ → Command

-- What is printed besides the menu.
pub data Line : Type 0 where
  read_line : List ℕ → Line
  ret_line : Ret → Line

pub record State : Type 0 where
  pub fd : Opened
  pub recvbuf : List ℕ

-- A round of the loop: it goes on, main returns, or a buffer is overrun, written or read.
pub data Round : Type 0 where
  goes_on : State → List Line → Round
  leaves : Round
  overruns : Round

pub round : Program → MemDriver → State → Command → Round
round p d s leave = leaves
round p d s read_it =
    let (file, ret, bytes) = d.read p.asked s.fd in
    let buf = blit s.recvbuf 0 bytes in
    if ltb p.recv_size (length bytes) then overruns else elim (until_zero buf) [
      | none ↦ overruns
      | some str ↦ goes_on (record { fd = file; recvbuf = buf }) (read_line str ∷ [])
    ]
round p d s (write_it str) =
    let (file, ret) = d.write str s.fd in
    if leb p.send_size (length str)
    then overruns
    else goes_on (record s { fd = file }) (ret_line ret ∷ [])
round p d s clear_it = goes_on (record s { fd = (d.clear s.fd).0 }) []
round p d s rewind_it = goes_on (record s { fd = (d.rewind s.fd).0 }) []
round p d s other = goes_on s []

-- main on what is typed: it has returned, waits for more, or has overrun a buffer.
pub data Outcome : Type 0 where
  returned : List Line → Outcome
  waits : State → List Line → Outcome
  overrun : Outcome

pub main : Program → MemDriver → State → List Line → List Command → Outcome
main p d s out [] = waits s out
main p d s out (c ∷ cs) = elim (round p d s c) [
  | leaves ↦ returned out
  | overruns ↦ overrun
  | goes_on s' lines ↦ main p d s' (out ++ lines) cs
]

-- Strings that fit into sendbuf.
abbrev pub fits_in : Program → Command → Bool
fits_in p (write_it str) = ltb (length str) p.send_size
fits_in p c = true

pub data AllFit (p : Program) : List Command → Type 0 where
  none_typed : AllFit p []
  fits : {c : Command} {cs : List Command} → fits_in p c ≡ true → AllFit p cs → AllFit p (c ∷ cs)

-- recvbuf has a zero behind what a read may store.
abbrev pub HasEnd : Program → State → Type 0
HasEnd p s = (str : List ℕ) × (until_zero (drop p.asked s.recvbuf) ≡ some str)

module _ (p : Program) (d : MemDriver) (small : p.asked < 2 ^ 32) where
  abbrev bytes_read : State → List ℕ
  bytes_read s = (d.read p.asked s.fd).2

  -- A read stores no more than it was asked for.
  short_read : (s : State) → length (bytes_read s) ≤ p.asked
  short_read s =
      let n = cut d.size p.asked s.fd in
      ground (arith, d.read_lem p.asked s.fd, length-take n (drop s.fd.pos s.fd.mem))

  -- A round that overruns nothing, and what it leaves.
  data Safe (s : State) (c : Command) : Type 0 where
    over : round p d s c ≡ leaves → Safe s c
    on :
        (s' : State) (lines : List Line) → round p d s c ≡ goes_on s' lines → HasEnd p s' → Safe s c

  round-Safe :
      (s : State) (c : Command) → p.asked ≤ p.recv_size → HasEnd p s → fits_in p c ≡ true → Safe s c
  unfolding round
  round-Safe s leave room end fit = over refl
  round-Safe s clear_it room end fit = on (record s { fd = (d.clear s.fd).0 }) [] refl end
  round-Safe s rewind_it room end fit = on (record s { fd = (d.rewind s.fd).0 }) [] refl end
  round-Safe s other room end fit = on s [] refl end
  round-Safe s (write_it str) room end fit =
      on (record s { fd = (d.write str s.fd).0 }) (ret_line (d.write str s.fd).1 ∷ [])
        (ground arith) end
  round-Safe s read_it room (str, end) fit =
      let bytes = bytes_read s in
      let short = short_read s in
      let buf = blit s.recvbuf 0 bytes in
      let kept : until_zero (drop p.asked buf) ≡ some str =
        ap until_zero (drop-blit_start p.asked s.recvbuf bytes short) ∙ end in
      let (t, found) = until_zero-drop p.asked buf str kept in
      on (record { fd = (d.read p.asked s.fd).0; recvbuf = buf }) (read_line t ∷ [])
        (ground (arith, found, short)) (str, kept)

  -- Whatever is typed, the program overruns no buffer, if it asks for no more bytes than recvbuf
  -- has and for less than 2 ^ 32, if recvbuf has a zero behind those bytes to begin with, and if
  -- the strings that are typed fit into sendbuf.
  pub main-ne-overrun :
      (s : State) (out : List Line) {cs : List Command}
      → p.asked ≤ p.recv_size
      → HasEnd p s
      → AllFit p cs
      → main p d s out cs ≢ overrun
  unfolding main
  main-ne-overrun s out room end none_typed = λ e. absurd (ground (arith, e))
  main-ne-overrun s out room end (fits {c} {cs} fit rest) = elim (round-Safe s c room end fit) [
    | over e ↦ rw (main, e) (λ h. absurd (ground (arith, h)))
    | on s' lines e end' ↦ rw (main, e) (main-ne-overrun s' (out ++ lines) room end' rest)
  ]

  -- A read overruns recvbuf at once where the device has more bytes behind the position than fit
  -- into it, and the program asks for more.
  pub main-overrun :
      (s : State) (out : List Line) (cs : List Command)
      → length s.fd.mem ≡ d.size
      → s.fd.pos + p.recv_size < d.size
      → p.recv_size < p.asked
      → main p d s out (read_it ∷ cs) ≡ overrun
  unfolding main round
  main-overrun s out cs full before more =
      let n = cut d.size p.asked s.fd in
      ground (arith, d.read_lem p.asked s.fd, length-window s.fd.pos n s.fd.mem)
