-- ===== src/Prelude/Table.antt =====
-- A statement about every number below a bound, by evaluation.
use Prim.Native.Nat.{ℕ, zero, suc, ◌<◌}
use mathlib.Core.Path.{◌≡◌}
use mathlib.Core.Bool.{Bool, true, ◌&&◌}
use native.Mathlib.Omega.{arith}
use replica_wbcache.Prelude.Tests.{◌==◌, ==_iff}

-- Whether a test holds at each of 0, …, count - 1.
unfoldable pub holds_below : (ℕ → Bool) → ℕ → Bool
holds_below test zero = true
holds_below test (suc count) = holds_below test count && test count

pub holds_below_lem :
    (test : ℕ → Bool) (count i : ℕ) → i < count → holds_below test count ≡ true → test i ≡ true
unfolding holds_below
holds_below_lem test zero i inside all = absurd (omega arith)
holds_below_lem test (suc count) i inside all = ground (arith, holds_below_lem test count i)

-- Two functions that agree at every number below `n`, as a table shows.
pub agree_below :
    (n : ℕ) (f g : ℕ → ℕ) (x : ℕ) → holds_below (λ y. f y == g y) n ≡ true → x < n → f x ≡ g x
agree_below n f g x h lt = (==_iff (f x) (g x)).0 (holds_below_lem (λ y. f y == g y) n x lt h)
