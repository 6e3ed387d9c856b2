-- ===== src/Intarith/Powers.antt =====
-- include/intarith.h: the roundings by masks, for a power of two.
use replica_wbcache.Prelude.{ℕ, zero, suc, ◌+◌, ◌-◌, ◌*◌, ◌^◌, ◌≤◌, ◌<◌, ◌≡◌, sym, ap, ◌∙◌, arith}
use Prim.Native.Nat.{bit_and}
use native.Mathlib.Nat.{pow-suc}
use replica_wbcache.Prelude.Masks.{bit_and-below, bit_and-above, pow_positive, multiple_step}
use replica_wbcache.Intarith.{u64, negated, p2align, p2phase, p2nphase, p2roundup}

pow_split : (k w : ℕ) → 2 ^ w * 2 ^ k ≡ 2 ^ (k + w)
pow_split zero w =
    let own : zero + w ≡ w = omega arith in
    let one : 2 ^ w * 2 ^ 0 ≡ 2 ^ w = omega arith in one ∙ sym (ap (λ (t : ℕ). 2 ^ t) own)
pow_split (suc k) w =
    let next : suc k + w ≡ suc (k + w) = omega arith in
    multiple_step (2 ^ w) k
    ∙ omega (arith, pow_split k w, pow-suc 2 (k + w))
    ∙ sym (ap (λ (t : ℕ). 2 ^ t) next)

multiple_split : (q w p : ℕ) → q ≤ w → w * p ≡ (w - q) * p + q * p
multiple_split q w p h =
    let parts : w ≡ w - q + q = omega arith in
    let spread : (w - q + q) * p ≡ (w - q) * p + q * p = omega arith in
    ap (λ (t : ℕ). t * p) parts ∙ spread

-- 2^64 as blocks of 2^k
blocks : (k w q : ℕ) → k + w ≡ 64 → q ≤ 2 ^ w → 2 ^ 64 ≡ (2 ^ w - q) * 2 ^ k + q * 2 ^ k
blocks k w q e h =
    ap (λ (t : ℕ). 2 ^ t) (sym e) ∙ sym (pow_split k w) ∙ multiple_split q (2 ^ w) (2 ^ k) h

negated_power : (k w : ℕ) → k + w ≡ 64 → negated (2 ^ k) ≡ (2 ^ w - 1) * 2 ^ k
negated_power k w e = omega (arith, blocks k w 1 e (pow_positive w), pow_positive k)

less_one : (k w : ℕ) → k + w ≡ 64 → u64 (2 ^ k + (2 ^ 64 - 1)) ≡ 2 ^ k - 1
less_one k w e = omega (arith, blocks k w 1 e (pow_positive w), pow_positive k)

-- What is missing to a block, and the number rounded up
abbrev pub rest_of_block : (r p : ℕ) → ℕ
rest_of_block zero p = 0
rest_of_block (suc r) p = p - suc r

abbrev pub rounded : (q r p : ℕ) → ℕ
rounded q zero p = q * p
rounded q (suc r) p = (q + 1) * p

negated_blocks :
    (k w q r : ℕ)
    → k + w ≡ 64
    → r < 2 ^ k
    → q < 2 ^ w
    → (q' : ℕ) × (negated (q * 2 ^ k + r) ≡ q' * 2 ^ k + rest_of_block r (2 ^ k))
      × (q' < 2 ^ w)
      × (negated (q' * 2 ^ k) ≡ u64 (rounded q r (2 ^ k)))
negated_blocks k w zero zero e small fits = (0, omega arith, fits, omega arith)
negated_blocks k w (suc q) zero e small fits = (
  2 ^ w - suc q,
  omega (arith, blocks k w (suc q) e (omega arith), pow_positive k),
  omega arith,
  omega (arith, blocks k w (suc q) e (omega arith)),
)
negated_blocks k w q (suc r) e small fits =
    let one_more : (q + 1) * 2 ^ k ≡ q * 2 ^ k + 2 ^ k = omega arith in
    (
      2 ^ w - (q + 1),
      omega (arith, blocks k w (q + 1) e (omega arith), one_more),
      omega arith,
      omega (arith, blocks k w (q + 1) e (omega arith)),
    )

rest-lt : (r p : ℕ) → 0 < p → rest_of_block r p < p
rest-lt zero p h = h
rest-lt (suc r) p h = omega arith

-- For a 64-bit number of q blocks of 2^k and r more, p2align gives the blocks, p2phase gives r,
-- p2nphase gives what is missing to a block (0 where r is 0), and p2roundup gives the number
-- rounded up to blocks, modulo 2^64.
pub p2-blocks :
    (k w q r : ℕ)
    → k + w ≡ 64
    → r < 2 ^ k
    → q < 2 ^ w
    → (p2align (q * 2 ^ k + r) (2 ^ k) ≡ q * 2 ^ k)
      × (p2phase (q * 2 ^ k + r) (2 ^ k) ≡ r)
      × (p2nphase (q * 2 ^ k + r) (2 ^ k) ≡ rest_of_block r (2 ^ k))
      × (p2roundup (q * 2 ^ k + r) (2 ^ k) ≡ u64 (rounded q r (2 ^ k)))
unfolding p2align p2phase p2nphase p2roundup
p2-blocks k w q r e small fits =
    let x = q * 2 ^ k + r in
    let power = negated_power k w e in
    let phase = less_one k w e in
    let (q', minus, fits', up) = negated_blocks k w q r e small fits in
    let missing = rest_of_block r (2 ^ k) in
    let short = rest-lt r (2 ^ k) (pow_positive k) in
    (
      ap (bit_and x) power ∙ bit_and-above k w q r small fits,
      ap (bit_and x) phase ∙ bit_and-below k q r small,
      ap (bit_and (negated x)) phase
          ∙ ap (λ (t : ℕ). bit_and t (2 ^ k - 1)) minus
          ∙ bit_and-below k q' missing short,
      ap (λ (t : ℕ). negated (bit_and (negated x) t)) power
          ∙ ap (λ (t : ℕ). negated (bit_and t ((2 ^ w - 1) * 2 ^ k))) minus
          ∙ ap negated (bit_and-above k w q' missing short fits')
          ∙ up,
    )
