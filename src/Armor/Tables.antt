-- ===== src/Armor/Tables.antt =====
-- Facts on bytes and six-bit values that armor.c relies on, by evaluation over their range.
use Prim.Native.Nat.{bit_and, bit_or}
use replica_wbcache.Prelude.{
  ℕ, ◌*◌, ◌/◌, ◌%◌, ◌<◌, ◌≡◌, refl, true, false, some, arith, Bool, ◌==◌, ==_iff, not, Option, none,
}
use replica_wbcache.Prelude.Table.{holds_below, agree_below, holds_below_lem}
use replica_wbcache.Armor.{encode_bits, decode_bits}

-- The fields of a byte are put together without a carry.
module _ (x : ℕ) (byte : x < 256) where
  pub or_of_16 : bit_or (x / 16 * 16) (x % 16) ≡ x
  unfolding holds_below
  or_of_16 = agree_below 256 (λ y. bit_or (y / 16 * 16) (y % 16)) (λ y. y) x refl byte

  pub or_of_4 : bit_or (x / 4 * 4) (x % 4) ≡ x
  unfolding holds_below
  or_of_4 = agree_below 256 (λ y. bit_or (y / 4 * 4) (y % 4)) (λ y. y) x refl byte

  pub or_of_64 : bit_or (x / 64 * 64) (x % 64) ≡ x
  unfolding holds_below
  or_of_64 = agree_below 256 (λ y. bit_or (y / 64 * 64) (y % 64)) (λ y. y) x refl byte

  pub and_3 : bit_and x 3 ≡ x % 4
  unfolding holds_below
  and_3 = agree_below 256 (λ y. bit_and y 3) (λ y. y % 4) x refl byte

  pub and_15 : bit_and x 15 ≡ x % 16
  unfolding holds_below
  and_15 = agree_below 256 (λ y. bit_and y 15) (λ y. y % 16) x refl byte

  pub and_63 : bit_and x 63 ≡ x % 64
  unfolding holds_below
  and_63 = agree_below 256 (λ y. bit_and y 63) (λ y. y % 64) x refl byte

abbrev is_value : ℕ → Option ℕ → Bool
is_value v none = false
is_value v (some w) = w == v

is_value-some : (v : ℕ) (o : Option ℕ) → is_value v o ≡ true → o ≡ some v
is_value-some v none h = cc
is_value-some v (some w) h = ground (arith, ==_iff w v)

-- A character of the alphabet stands for its value, and is neither the line break nor the pad.
module _ (x : ℕ) (six : x < 64) where
  pub decode_bits-encode_bits : decode_bits (encode_bits x) ≡ some x
  unfolding holds_below encode_bits decode_bits
  decode_bits-encode_bits =
      is_value-some x (decode_bits (encode_bits x))
        (holds_below_lem (λ y. is_value y (decode_bits (encode_bits y))) 64 x six refl)

  pub encode_bits_ne_break : (encode_bits x == 10) ≡ false
  unfolding holds_below encode_bits
  encode_bits_ne_break =
      ground (arith, holds_below_lem (λ y. not (encode_bits y == 10)) 64 x six refl)

  pub encode_bits_ne_pad : (encode_bits x == b'=') ≡ false
  unfolding holds_below encode_bits
  encode_bits_ne_pad =
      ground (arith, holds_below_lem (λ y. not (encode_bits y == b'=')) 64 x six refl)

-- The pad decodes to zero, and is the pad.
pub decode_bits_pad : decode_bits b'=' ≡ some 0
unfolding decode_bits
decode_bits_pad = refl
