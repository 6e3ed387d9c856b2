-- ===== src/Prelude/Masks.antt =====
-- `&` with the masks of a power of two: the digits below it, and those from it on.
use Prim.Native.Nat.{
  ℕ, zero, suc, ◌+◌, ◌-◌, ◌*◌, ◌/◌, ◌^◌, ◌≤◌, ◌<◌, digits, min, bit_and, bit_and-bitwise,
}
use mathlib.Core.Path.{◌≡◌, refl, ap, ◌∙◌}
use native.Mathlib.Omega.{arith}
use native.Mathlib.Nat.{pow-suc}

abbrev and_digits : ℕ → ℕ → ℕ → ℕ
and_digits count a b = digits (λ rest. 0) min count a b

zero_digits : (count a : ℕ) → and_digits count a 0 ≡ 0
zero_digits zero a = refl
zero_digits (suc count) zero = refl
zero_digits (suc count) (suc a) = omega (arith, zero_digits count (suc a / 2))

pub pow_positive : (k : ℕ) → 1 ≤ 2 ^ k
pow_positive zero = omega arith
pow_positive (suc k) = omega (arith, pow-suc 2 k, pow_positive k)

pub multiple_step : (q k : ℕ) → q * 2 ^ suc k ≡ 2 * (q * 2 ^ k)
multiple_step q k =
    let twice : q * (2 ^ k * 2) ≡ 2 * (q * 2 ^ k) = omega arith in
    ap (λ (t : ℕ). q * t) (pow-suc 2 k) ∙ twice

below_digits :
    (k count x q r : ℕ)
    → x ≡ q * 2 ^ k + r
    → r < 2 ^ k
    → x ≤ count
    → and_digits count x (2 ^ k - 1) ≡ r
below_digits zero zero x q r e small enough = omega arith
below_digits zero (suc count) zero q r e small enough = omega arith
below_digits zero (suc count) (suc x) q r e small enough =
    omega (arith, zero_digits count (suc x / 2))
below_digits (suc k) zero x q r e small enough = omega arith
below_digits (suc k) (suc count) zero q r e small enough = omega arith
below_digits (suc k) (suc count) (suc x) q r e small enough =
    let half : suc x / 2 ≡ q * 2 ^ k + r / 2 = omega (arith, multiple_step q k) in
    let mask : (2 ^ suc k - 1) / 2 ≡ 2 ^ k - 1 = omega (arith, pow-suc 2 k, pow_positive k) in
    let next : and_digits count (suc x / 2) ((2 ^ suc k - 1) / 2) ≡ r / 2 =
      ap (and_digits count (suc x / 2)) mask
      ∙ below_digits k count (suc x / 2) q (r / 2) half (omega (arith, pow-suc 2 k))
          (omega arith) in
    omega (arith, next, multiple_step q k, pow-suc 2 k, pow_positive k)

-- A mask below a power of two keeps the remainder.
pub bit_and-below : (k q r : ℕ) → r < 2 ^ k → bit_and (q * 2 ^ k + r) (2 ^ k - 1) ≡ r
bit_and-below k q r small =
    bit_and-bitwise (q * 2 ^ k + r) (2 ^ k - 1)
    ∙ below_digits k (q * 2 ^ k + r) (q * 2 ^ k + r) q r refl small (omega arith)

-- The mask from a power of two on, of `w` digits more, keeps the multiple.
above_digits :
    (k w count x q r : ℕ)
    → x ≡ q * 2 ^ k + r
    → r < 2 ^ k
    → q < 2 ^ w
    → x ≤ count
    → and_digits count x ((2 ^ w - 1) * 2 ^ k) ≡ q * 2 ^ k
above_digits zero w count x q r e small fits enough =
    let mask : (2 ^ w - 1) * 2 ^ 0 ≡ 2 ^ w - 1 = omega arith in
    ap (and_digits count x) mask
    ∙ below_digits w count x 0 x (omega arith) (omega arith) enough
    ∙ omega arith
above_digits (suc k) w zero x q r e small fits enough = omega arith
above_digits (suc k) w (suc count) zero q r e small fits enough = omega arith
above_digits (suc k) w (suc count) (suc x) q r e small fits enough =
    let half : suc x / 2 ≡ q * 2 ^ k + r / 2 = omega (arith, multiple_step q k) in
    let mask : (2 ^ w - 1) * 2 ^ suc k / 2 ≡ (2 ^ w - 1) * 2 ^ k =
      omega (arith, multiple_step (2 ^ w - 1) k) in
    let next : and_digits count (suc x / 2) ((2 ^ w - 1) * 2 ^ suc k / 2) ≡ q * 2 ^ k =
      ap (and_digits count (suc x / 2)) mask
      ∙ above_digits k w count (suc x / 2) q (r / 2) half (omega (arith, pow-suc 2 k)) fits
          (omega arith) in
    omega (arith, next, multiple_step q k, multiple_step (2 ^ w - 1) k)

pub bit_and-above :
    (k w q r : ℕ)
    → r < 2 ^ k
    → q < 2 ^ w
    → bit_and (q * 2 ^ k + r) ((2 ^ w - 1) * 2 ^ k) ≡ q * 2 ^ k
bit_and-above k w q r small fits =
    bit_and-bitwise (q * 2 ^ k + r) ((2 ^ w - 1) * 2 ^ k)
    ∙ above_digits k w (q * 2 ^ k + r) (q * 2 ^ k + r) q r refl small fits (omega arith)
