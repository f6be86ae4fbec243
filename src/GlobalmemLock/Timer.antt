-- ===== src/GlobalmemLock/Timer.antt =====
-- globalmem_lock.c: timer_start and timer_end, which measure a handler for a message.
use lkm_practice.Base.{ℕ, ◌+◌, ◌*◌, ◌≡◌, ◌↔◌, arith, ℤ, pos_part, neg_part, sub_ℕ}

-- struct timespec
pub record Timespec : Type 0 where
  pub tv_sec : ℕ
  pub tv_nsec : ℕ

-- `now` is what getrawmonotonic stores.
unfoldable pub timer_start : Timespec → Timespec
timer_start now = now

unfoldable pub timer_end : Timespec → Timespec → ℤ
timer_end start_time now = sub_ℕ now.tv_nsec start_time.tv_nsec

abbrev pub nanoseconds : Timespec → ℕ
nanoseconds t = t.tv_sec * 1_000_000_000 + t.tv_nsec

-- `d` nanoseconds lead from `a` to `b`.
abbrev pub Elapsed : Timespec → Timespec → ℤ → Type 0
Elapsed a b d = nanoseconds a + pos_part d ≡ nanoseconds b + neg_part d

-- What timer_end returns is the time since timer_start exactly when both clock readings fall into
-- one second; the seconds are left out of the difference.
pub timer_end_iff :
    (start_time now : Timespec)
    → Elapsed start_time now (timer_end (timer_start start_time) now)
      ↔ (start_time.tv_sec ≡ now.tv_sec)
unfolding timer_start timer_end
timer_end_iff start_time now = (λ e. ground arith, λ e. ground arith)
