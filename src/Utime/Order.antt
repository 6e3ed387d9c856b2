-- ===== src/Utime/Order.antt =====
-- The comparisons of times against the order of their nanoseconds.
use replica_wbcache.Prelude.{◌≤◌, ◌<◌, ◌≡◌, ◌↔◌, true, arith}
use replica_wbcache.Utime.{Utime, IsNormal, to_nsec, lt, le, gt, ge, eq}

-- On normalised times `<`, `<=`, `>`, `>=` and `==` are the comparisons of the nanoseconds.
pub compare-to_nsec :
    (a b : Utime)
    → IsNormal a
    → IsNormal b
    → ((lt a b ≡ true) ↔ (to_nsec a < to_nsec b))
      × ((le a b ≡ true) ↔ (to_nsec a ≤ to_nsec b))
      × ((gt a b ≡ true) ↔ (to_nsec b < to_nsec a))
      × ((ge a b ≡ true) ↔ (to_nsec b ≤ to_nsec a))
      × ((eq a b ≡ true) ↔ (to_nsec a ≡ to_nsec b))
unfolding lt le gt ge eq to_nsec
compare-to_nsec a b na nb = (ground arith, ground arith, ground arith, ground arith, ground arith)
