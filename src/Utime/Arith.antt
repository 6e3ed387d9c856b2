-- ===== src/Utime/Arith.antt =====
-- Sums and differences of times against their nanoseconds.
use replica_wbcache.Prelude.{◌+◌, ◌-◌, ◌/◌, ◌%◌, ◌^◌, ◌≤◌, ◌<◌, ◌≡◌, ◌↔◌, false, arith}
use replica_wbcache.Utime.{
  Utime, billion, IsUtime, IsNormal, normalize, make, to_nsec, add, add_assign, sub, sub_assign, eq,
  copy_to_timeval, set_from_timeval,
}

-- Normalising a time of two 32-bit fields keeps its nanoseconds, if the seconds with the carry fit
-- 32 bits.
pub to_nsec-normalize :
    (t : Utime)
    → IsUtime t
    → t.tv_sec + t.tv_nsec / billion < 2 ^ 32
    → to_nsec (normalize t) ≡ to_nsec t
unfolding to_nsec normalize
to_nsec-normalize t fits room = ground arith

-- Normalising leaves at most 10^9 nanoseconds, and 10^9 exactly where there were 10^9.
pub normalize-le :
    (t : Utime)
    → ((normalize t).tv_nsec ≤ billion)
      × (((normalize t).tv_nsec ≡ billion) ↔ (t.tv_nsec ≡ billion))
unfolding normalize
normalize-le t = ground arith

-- The sum of two normalised times is their sum in nanoseconds, if the seconds and a carry fit 32
-- bits.
pub to_nsec-add :
    (a b : Utime)
    → IsNormal a
    → IsNormal b
    → a.tv_sec + b.tv_sec + 1 < 2 ^ 32
    → to_nsec (add a b) ≡ to_nsec a + to_nsec b
unfolding to_nsec add
to_nsec-add a b na nb room = ground arith

-- On times of 32-bit fields, `+=` computes what `+` computes.
pub add_assign-eq-add : (a b : Utime) → IsUtime a → IsUtime b → add_assign a b ≡ add a b
unfolding add add_assign
add_assign-eq-add a b fa fb = ground arith

-- Two normalised times whose nanoseconds make exactly one second, and whose seconds fit, have a
-- sum that keeps 10^9 nanoseconds, and so differs by `==` from the equal time of whole seconds.
pub add_whole_second :
    (a b : Utime)
    → IsNormal a
    → IsNormal b
    → a.tv_nsec + b.tv_nsec ≡ billion
    → a.tv_sec + b.tv_sec + 1 < 2 ^ 32
    → ((add a b).tv_nsec ≡ billion)
      × (to_nsec (add a b) ≡ to_nsec (make (a.tv_sec + b.tv_sec + 1) 0))
      × (eq (add a b) (make (a.tv_sec + b.tv_sec + 1) 0) ≡ false)
unfolding add to_nsec eq
add_whole_second a b na nb whole room = ground arith

-- The difference of two normalised times, the first not the earlier one, makes the first when the
-- second is added in nanoseconds, and it is normalised.
pub to_nsec-sub :
    (a b : Utime)
    → IsNormal a
    → IsNormal b
    → to_nsec b ≤ to_nsec a
    → (to_nsec (sub a b) + to_nsec b ≡ to_nsec a) × IsNormal (sub a b)
unfolding to_nsec sub
to_nsec-sub a b na nb le = ground arith

-- On normalised times `-=` computes what `-` computes, also where the seconds wrap.
pub sub_assign-eq-sub : (a b : Utime) → IsNormal a → IsNormal b → sub_assign a b ≡ sub a b
unfolding sub sub_assign
sub_assign-eq-sub a b na nb = ground arith

-- A normalised time that goes through a timeval is normalised and loses only the nanoseconds below
-- a microsecond.
pub timeval_round_trip :
    (t : Utime)
    → IsNormal t
    → (to_nsec (set_from_timeval (copy_to_timeval t)) ≡ to_nsec t - t.tv_nsec % 1000)
      × IsNormal (set_from_timeval (copy_to_timeval t))
unfolding to_nsec set_from_timeval copy_to_timeval
timeval_round_trip t n = ground arith
