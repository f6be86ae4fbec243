-- ===== src/Sbull/Guard.antt =====
-- sbull.c: the range check of sbull_transfer.
use lkm_practice.Base.{
  ℕ, ◌+◌, ◌-◌, ◌*◌, ◌^◌, ◌≤◌, ◌<◌, ◌≡◌, ◌↔◌, Bool, true, false, none, List, arith, length,
}
use lkm_practice.Sbull.{Dev, transfer, transfer_bytes}
use lkm_practice.Sbull.Outcome.{IsValid}

-- With a buffer for all its bytes, a transfer of a sector number and a count below 2 ^ 55 copies out
-- of range exactly when the sum of offset and length in bytes is at least 2 ^ 64 and, cut to 64 bits,
-- is at most the size of the device.
pub transfer_fault_iff :
    (write : Bool) (sector nsect : ℕ) (buffer : List ℕ) {dev : Dev}
    → IsValid dev
    → sector < 2 ^ 55
    → nsect < 2 ^ 55
    → nsect * 512 ≤ length buffer
    → (transfer write sector nsect buffer dev ≡ none)
      ↔ ((2 ^ 55 ≤ sector + nsect) × ((sector + nsect - 2 ^ 55) * 512 ≤ dev.size))
unfolding transfer transfer_bytes
transfer_fault_iff true sector nsect buffer v hs hn room = (λ e. ground arith, λ e. ground arith)
transfer_fault_iff false sector nsect buffer v hs hn room = (λ e. ground arith, λ e. ground arith)
