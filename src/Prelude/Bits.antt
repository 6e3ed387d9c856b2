-- ===== src/Prelude/Bits.antt =====
-- Exclusive or at variables, from the recursion on binary digits that the native operation
-- stands for.
use Prim.Native.Nat.{
  ℕ, zero, suc, ◌+◌, ◌*◌, ◌/◌, ◌%◌, ◌^◌, ◌≤◌, ◌<◌, bit_xor, digits, differ, bit_xor-bitwise, min,
  bit_and, bit_and-bitwise,
}
use mathlib.Core.Path.{◌≡◌, refl, sym, ap, ◌∙◌}
use native.Mathlib.Omega.{arith}
use native.Mathlib.Nat.{pow-suc}

abbrev xor_digits : ℕ → ℕ → ℕ → ℕ
xor_digits n a b = digits (λ b. b) differ n a b

xor_digits_fuel : (n m a b : ℕ) → a ≤ n → a ≤ m → xor_digits n a b ≡ xor_digits m a b
xor_digits_fuel zero zero a b p q = refl
xor_digits_fuel zero (suc m) zero b p q = refl
xor_digits_fuel zero (suc m) (suc a) b p q = absurd (omega arith)
xor_digits_fuel (suc n) zero zero b p q = refl
xor_digits_fuel (suc n) zero (suc a) b p q = absurd (omega arith)
xor_digits_fuel (suc n) (suc m) zero b p q = refl
xor_digits_fuel (suc n) (suc m) (suc a) b p q =
    omega (arith, xor_digits_fuel n m (suc a / 2) (b / 2) (omega arith) (omega arith))

pub zero-bit_xor : (b : ℕ) → bit_xor 0 b ≡ b
zero-bit_xor b = bit_xor-bitwise 0 b

differ_lem : (x y : ℕ) → x < 2 → y < 2 → differ x y ≡ (x + y) % 2
differ_lem zero y h k = omega arith
differ_lem (suc zero) zero h k = refl
differ_lem (suc zero) (suc zero) h k = refl
differ_lem (suc zero) (suc (suc y)) h k = absurd (omega arith)
differ_lem (suc (suc x)) y h k = absurd (omega arith)

-- The law of the lowest digit.
pub bit_xor_step : (a b : ℕ) → bit_xor a b ≡ bit_xor (a / 2) (b / 2) * 2 + (a % 2 + b % 2) % 2
bit_xor_step zero b = omega (arith, zero-bit_xor b, zero-bit_xor (b / 2))
bit_xor_step (suc a) b = omega (
  arith,
  bit_xor-bitwise (suc a) b,
  bit_xor-bitwise (suc a / 2) (b / 2),
  xor_digits_fuel a (suc a / 2) (suc a / 2) (b / 2) (omega arith) (omega arith),
  differ_lem (suc a % 2) (b % 2) (omega arith) (omega arith),
)

-- The laws go from halves to wholes; `n` bounds the first number.
xor_zero_below : (n a : ℕ) → a ≤ n → bit_xor a 0 ≡ a
xor_zero_below n zero h = refl
xor_zero_below zero (suc a) h = absurd (omega arith)
xor_zero_below (suc n) (suc a) h =
    omega (arith, bit_xor_step (suc a) 0, xor_zero_below n (suc a / 2) (omega arith))

pub bit_xor-zero : (a : ℕ) → bit_xor a 0 ≡ a
bit_xor-zero a = xor_zero_below a a (omega arith)

xor_comm_below : (n a b : ℕ) → a ≤ n → bit_xor a b ≡ bit_xor b a
xor_comm_below n zero b h = zero-bit_xor b ∙ sym (bit_xor-zero b)
xor_comm_below zero (suc a) b h = absurd (omega arith)
xor_comm_below (suc n) (suc a) b h = omega (
  arith,
  bit_xor_step (suc a) b,
  bit_xor_step b (suc a),
  xor_comm_below n (suc a / 2) (b / 2) (omega arith),
)

pub bit_xor_comm : (a b : ℕ) → bit_xor a b ≡ bit_xor b a
bit_xor_comm a b = xor_comm_below a a b (omega arith)

pub bit_xor_half : (a b : ℕ) → bit_xor a b / 2 ≡ bit_xor (a / 2) (b / 2)
bit_xor_half a b = omega (arith, bit_xor_step a b)

pub bit_xor_parity : (a b : ℕ) → bit_xor a b % 2 ≡ (a % 2 + b % 2) % 2
bit_xor_parity a b = omega (arith, bit_xor_step a b)

xor_assoc_below : (n a b c : ℕ) → a ≤ n → bit_xor (bit_xor a b) c ≡ bit_xor a (bit_xor b c)
xor_assoc_below n zero b c h =
    ap (λ (t : ℕ). bit_xor t c) (zero-bit_xor b) ∙ sym (zero-bit_xor (bit_xor b c))
xor_assoc_below zero (suc a) b c h = absurd (omega arith)
xor_assoc_below (suc n) (suc a) b c h =
    let left : bit_xor (bit_xor (suc a) b / 2) (c / 2)
        ≡ bit_xor (bit_xor (suc a / 2) (b / 2)) (c / 2) =
      ap (λ (t : ℕ). bit_xor t (c / 2)) (bit_xor_half (suc a) b) in
    let right : bit_xor (suc a / 2) (bit_xor b c / 2)
        ≡ bit_xor (suc a / 2) (bit_xor (b / 2) (c / 2)) =
      ap (λ (t : ℕ). bit_xor (suc a / 2) t) (bit_xor_half b c) in
    omega (
      arith,
      bit_xor_step (bit_xor (suc a) b) c,
      bit_xor_step (suc a) (bit_xor b c),
      bit_xor_parity (suc a) b,
      bit_xor_parity b c,
      left,
      right,
      xor_assoc_below n (suc a / 2) (b / 2) (c / 2) (omega arith),
    )

pub bit_xor_assoc : (a b c : ℕ) → bit_xor (bit_xor a b) c ≡ bit_xor a (bit_xor b c)
bit_xor_assoc a b c = xor_assoc_below a a b c (omega arith)

xor_self_below : (n a : ℕ) → a ≤ n → bit_xor a a ≡ 0
xor_self_below n zero h = refl
xor_self_below zero (suc a) h = absurd (omega arith)
xor_self_below (suc n) (suc a) h =
    omega (arith, bit_xor_step (suc a) (suc a), xor_self_below n (suc a / 2) (omega arith))

pub bit_xor_self : (a : ℕ) → bit_xor a a ≡ 0
bit_xor_self a = xor_self_below a a (omega arith)

-- Four terms, regrouped.
pub bit_xor_swap :
    (a b c d : ℕ) → bit_xor (bit_xor a b) (bit_xor c d) ≡ bit_xor (bit_xor a c) (bit_xor b d)
bit_xor_swap a b c d =
    bit_xor_assoc a b (bit_xor c d)
    ∙ ap (bit_xor a) (
        sym (bit_xor_assoc b c d)
        ∙ ap (λ (t : ℕ). bit_xor t d) (bit_xor_comm b c)
        ∙ bit_xor_assoc c b d)
    ∙ sym (bit_xor_assoc a c (bit_xor b d))

pub bit_xor_double : (a b : ℕ) → bit_xor (2 * a) (2 * b) ≡ 2 * bit_xor a b
bit_xor_double a b =
    let halves : bit_xor (2 * a / 2) (2 * b / 2) ≡ bit_xor a b =
      ap (λ (t : ℕ). bit_xor t (2 * b / 2)) (omega arith)
      ∙ ap (λ (t : ℕ). bit_xor a t) (omega arith) in
    omega (arith, bit_xor_step (2 * a) (2 * b), halves)

pub bit_xor-lt : (k a b : ℕ) → a < 2 ^ k → b < 2 ^ k → bit_xor a b < 2 ^ k
bit_xor-lt zero a b p q =
    let none_left : a ≡ 0 = omega arith in
    omega (arith, ap (λ (t : ℕ). bit_xor t b) none_left, zero-bit_xor b)
bit_xor-lt (suc k) a b p q = omega (
  arith,
  pow-suc 2 k,
  bit_xor_step a b,
  bit_xor-lt k (a / 2) (b / 2) (omega (arith, pow-suc 2 k)) (omega (arith, pow-suc 2 k)),
)

-- The digits that two numbers share make no more than the second of them.
shared-le : (count a b : ℕ) → digits (λ rest. 0) min count a b ≤ b
shared-le zero a b = omega arith
shared-le (suc count) zero b = omega arith
shared-le (suc count) (suc a) b = omega (arith, shared-le count (suc a / 2) (b / 2))

pub bit_and-le : (a b : ℕ) → bit_and a b ≤ b
bit_and-le a b = rw (bit_and-bitwise a b) (shared-le a a b)
