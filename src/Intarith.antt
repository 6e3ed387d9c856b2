-- ===== src/Intarith.antt =====
-- include/intarith.h: rounding on 64-bit words, by division and by masks.
pub mod Rounding
pub mod Powers
use Prim.Native.Nat.{bit_and}
use replica_wbcache.Prelude.{ℕ, ◌+◌, ◌-◌, ◌*◌, ◌/◌, ◌%◌, ◌^◌, if◌then◌else◌, ◌==◌, Bool}

abbrev pub u64 : ℕ → ℕ
u64 n = n % 2 ^ 64

-- Every operation is one of C on `uint64_t`; a division by zero is not modelled.
unfoldable pub div_round_up : ℕ → ℕ → ℕ
div_round_up n d = u64 (n + d + 2 ^ 64 - 1) / d

unfoldable pub round_up_to : ℕ → ℕ → ℕ
round_up_to n d = if n % d == 0 then n else u64 (n + d - n % d)

unfoldable pub shift_round_up : ℕ → ℕ → ℕ
shift_round_up x y = u64 (x + 2 ^ y + 2 ^ 64 - 1) / 2 ^ y

-- `-x`
abbrev pub negated : ℕ → ℕ
negated x = u64 (2 ^ 64 - x)

unfoldable pub isp2 : ℕ → Bool
isp2 x = bit_and x (u64 (x + (2 ^ 64 - 1))) == 0

unfoldable pub p2align : (x align : ℕ) → ℕ
p2align x align = bit_and x (negated align)

unfoldable pub p2phase : (x align : ℕ) → ℕ
p2phase x align = bit_and x (u64 (align + (2 ^ 64 - 1)))

unfoldable pub p2nphase : (x align : ℕ) → ℕ
p2nphase x align = bit_and (negated x) (u64 (align + (2 ^ 64 - 1)))

unfoldable pub p2roundup : (x align : ℕ) → ℕ
p2roundup x align = negated (bit_and (negated x) (negated align))
