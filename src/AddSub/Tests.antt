-- ===== src/AddSub/Tests.antt =====
-- add_sub.c and test.c: runs at concrete inputs.
use lkm_practice.Base.{◌-◌, ◌^◌, ◌≡◌, refl, ℤ, pos, negsuc, add64, ◌+ℤ◌}
use lkm_practice.Kernel.{ok}
use lkm_practice.AddSub.{add_integer, sub_integer, test_init, add, sub}

abbrev long_max : ℤ
long_max = pos (2 ^ 63 - 1)

add_wraps : add_integer long_max (pos 1) ≡ negsuc (2 ^ 63 - 1)
unfolding add_integer add64 ◌+ℤ◌
add_wraps = refl

defaults : test_init (pos 1) (pos 1) (pos 1) ≡ record { word = add; result = pos 2; ret = ok 0 }
unfolding test_init add_integer add64 ◌+ℤ◌
defaults = refl

other : test_init (pos 1) (pos 3) (pos 0) ≡ record { word = sub; result = negsuc 1; ret = ok 0 }
unfolding test_init sub_integer
other = refl
