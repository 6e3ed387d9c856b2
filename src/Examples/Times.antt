-- ===== src/Examples/Times.antt =====
-- Times and roundings (include/time/utime.h, include/intarith.h) at concrete inputs.
use replica_wbcache.Prelude.{◌+◌, ◌%◌, ◌≤◌, ◌<◌, ◌≡◌, ◌↔◌, true, false, arith}
use replica_wbcache.Utime.{
  Utime, utime, billion, IsUtime, IsNormal, make, to_nsec, add, lt, le, gt, ge, eq,
}
use replica_wbcache.Utime.Arith.{to_nsec-add, add_whole_second}
use replica_wbcache.Utime.Order.{compare-to_nsec}
use replica_wbcache.Intarith.{round_up_to}
use replica_wbcache.Intarith.Rounding.{round_up_to_least}

abbrev long : Utime
long = utime 7 2500000000

abbrev early : Utime
early = utime 3 600000000

abbrev late : Utime
late = utime 9 400000000

long-IsUtime : IsUtime long
long-IsUtime = record { sec_fits = omega arith; nsec_fits = omega arith }

early-IsNormal : IsNormal early
early-IsNormal = record { sec_fits = omega arith; nsec_below = omega arith }

late-IsNormal : IsNormal late
late-IsNormal = record { sec_fits = omega arith; nsec_below = omega arith }

late-IsUtime : IsUtime late
late-IsUtime = record { sec_fits = omega arith; nsec_fits = omega arith }

to_nsec-add_example : to_nsec (add early late) ≡ to_nsec early + to_nsec late
to_nsec-add_example = to_nsec-add early late early-IsNormal late-IsNormal (omega arith)

add_whole_second_example :
    ((add early late).tv_nsec ≡ billion)
    × (to_nsec (add early late) ≡ to_nsec (make (3 + 9 + 1) 0))
    × (eq (add early late) (make (3 + 9 + 1) 0) ≡ false)
add_whole_second_example =
    add_whole_second early late early-IsNormal late-IsNormal (omega arith) (omega arith)

earlier : to_nsec early ≤ to_nsec late
unfolding to_nsec
earlier = omega arith

compare-to_nsec_example :
    ((lt early late ≡ true) ↔ (to_nsec early < to_nsec late))
    × ((le early late ≡ true) ↔ (to_nsec early ≤ to_nsec late))
    × ((gt early late ≡ true) ↔ (to_nsec late < to_nsec early))
    × ((ge early late ≡ true) ↔ (to_nsec late ≤ to_nsec early))
    × ((eq early late ≡ true) ↔ (to_nsec early ≡ to_nsec late))
compare-to_nsec_example = compare-to_nsec early late early-IsNormal late-IsNormal

round_up_to_least_example :
    (13 ≤ round_up_to 13 8) × (round_up_to 13 8 < 13 + 8) × (round_up_to 13 8 % 8 ≡ 0)
round_up_to_least_example = round_up_to_least 13 8 (omega arith) (omega arith)
