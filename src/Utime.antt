-- ===== src/Utime.antt =====
-- include/time/utime.h: a time in seconds and nanoseconds, both `uint32_t`. The operations on
-- `double` and the printer are not here.
pub mod Arith
pub mod Order
use Prim.Native.Nat.{min}
use replica_wbcache.Prelude.{
  ℕ, ◌+◌, ◌-◌, ◌*◌, ◌/◌, ◌%◌, ◌^◌, ◌<◌, Bool, ◌&&◌, ◌||◌, not, ltb, ◌==◌, if◌then◌else◌,
}

pub record Utime : Type 0 where
  pub tv_sec : ℕ
  pub tv_nsec : ℕ

abbrev pub billion : ℕ
billion = 1000000000

abbrev pub u32 : ℕ → ℕ
u32 n = n % 2 ^ 32

abbrev pub utime : ℕ → ℕ → Utime
utime s n = record { tv_sec = s; tv_nsec = n }

unfoldable pub cap_to_u32_max : ℕ → ℕ
cap_to_u32_max t = min t (2 ^ 32 - 1)

unfoldable pub is_zero : Utime → Bool
is_zero t = t.tv_sec == 0 && t.tv_nsec == 0

-- The sum of the seconds is taken in 64 bits.
unfoldable pub normalize : Utime → Utime
unfolding cap_to_u32_max
normalize t =
    if ltb billion t.tv_nsec
    then utime (cap_to_u32_max (t.tv_sec + t.tv_nsec / billion)) (t.tv_nsec % billion)
    else t

-- utime_t(time_t, int): both arguments come as bit patterns.
unfoldable pub make : ℕ → ℕ → Utime
unfolding normalize
make s n = normalize (utime (u32 s) (u32 n))

unfoldable pub usec : Utime → ℕ
usec t = t.tv_nsec / 1000

unfoldable pub to_nsec : Utime → ℕ
to_nsec t = (t.tv_nsec + t.tv_sec * billion) % 2 ^ 64

unfoldable pub to_msec : Utime → ℕ
to_msec t = (t.tv_nsec / 1000000 + t.tv_sec * 1000) % 2 ^ 64

-- struct timeval
pub record Timeval : Type 0 where
  pub tv_sec : ℕ
  pub tv_usec : ℕ

unfoldable pub copy_to_timeval : Utime → Timeval
copy_to_timeval t = record { tv_sec = t.tv_sec; tv_usec = t.tv_nsec / 1000 }

unfoldable pub set_from_timeval : Timeval → Utime
set_from_timeval v = utime (u32 v.tv_sec) (u32 (v.tv_usec * 1000))

-- operator+
unfoldable pub add : Utime → Utime → Utime
unfolding make cap_to_u32_max
add a b = make (cap_to_u32_max (a.tv_sec + b.tv_sec)) (u32 (a.tv_nsec + b.tv_nsec))

-- operator+=
unfoldable pub add_assign : Utime → Utime → Utime
unfolding normalize cap_to_u32_max
add_assign a b =
    normalize (utime (cap_to_u32_max (a.tv_sec + b.tv_sec)) (u32 (a.tv_nsec + b.tv_nsec)))

abbrev borrow : Utime → Utime → ℕ
borrow a b = if ltb a.tv_nsec b.tv_nsec then 1 else 0

-- operator-: the seconds are subtracted in `time_t` and then cut to 32 bits.
unfoldable pub sub : Utime → Utime → Utime
unfolding make
sub a b =
    make (u32 (a.tv_sec + 2 ^ 32 + 2 ^ 32 - b.tv_sec - borrow a b))
      (u32 (a.tv_nsec + 2 ^ 32 - b.tv_nsec + borrow a b * billion))

-- operator-=
unfoldable pub sub_assign : Utime → Utime → Utime
sub_assign a b =
    let sec = u32 (a.tv_sec + 2 ^ 32 - b.tv_sec) in
    if not (ltb a.tv_nsec b.tv_nsec)
    then utime sec (a.tv_nsec - b.tv_nsec)
    else utime (u32 (sec + 2 ^ 32 - 1)) (u32 (a.tv_nsec + billion - b.tv_nsec))

-- operator>, operator<, operator<=, operator>=, operator== and operator!=
unfoldable pub gt : Utime → Utime → Bool
gt a b = ltb b.tv_sec a.tv_sec || (a.tv_sec == b.tv_sec && ltb b.tv_nsec a.tv_nsec)

unfoldable pub lt : Utime → Utime → Bool
lt a b = ltb a.tv_sec b.tv_sec || (a.tv_sec == b.tv_sec && ltb a.tv_nsec b.tv_nsec)

unfoldable pub le : Utime → Utime → Bool
unfolding gt
le a b = not (gt a b)

unfoldable pub ge : Utime → Utime → Bool
unfolding lt
ge a b = not (lt a b)

unfoldable pub eq : Utime → Utime → Bool
eq a b = a.tv_sec == b.tv_sec && a.tv_nsec == b.tv_nsec

unfoldable pub ne : Utime → Utime → Bool
unfolding eq
ne a b = not (eq a b)

-- What the fields can hold, and what a normalised time holds.
pub record IsUtime (t : Utime) : Type 0 where
  pub sec_fits : t.tv_sec < 2 ^ 32
  pub nsec_fits : t.tv_nsec < 2 ^ 32

pub record IsNormal (t : Utime) : Type 0 where
  pub sec_fits : t.tv_sec < 2 ^ 32
  pub nsec_below : t.tv_nsec < billion
