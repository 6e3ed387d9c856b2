-- ===== src/Crc/Restart.antt =====
-- spec_crc32c of include/crc32/crc32c.h: a checksum from another start, as list::crc32c takes it
-- from its cache.
use Prim.Native.Nat.{bit_xor}
use replica_wbcache.Prelude.{
  ℕ, ◌<◌, ◌^◌, ◌≡◌, refl, sym, ap, ◌∙◌, some, none, inl, inr, List, [], ◌∷◌, ◌++◌, ltb, length,
  arith, Bool-cases,
}
use replica_wbcache.Prelude.Bits.{
  bit_xor_comm, bit_xor_assoc, bit_xor_self, bit_xor-zero, zero-bit_xor, bit_xor_swap, bit_xor-lt,
}
use replica_wbcache.Armor.Encode.{IsBytes}
use replica_wbcache.Crc.{Crc32cFunc, spec_crc32c}
use replica_wbcache.Crc.Linear.{zero_byte, zero_byte-IsLinear, zero_byte-lt, zero_bytes}
use replica_wbcache.Crc.Zeros.{TakesZeros, crc32c_zeros-zero_bytes}

-- The CRC-32C of bytes, a bit at a time.
unfoldable pub crc_bytes : ℕ → List ℕ → ℕ
crc_bytes crc [] = crc
crc_bytes crc (b ∷ bs) = crc_bytes (zero_byte (bit_xor crc b)) bs

pub crc_bytes-append :
    (crc : ℕ) (xs ys : List ℕ) → crc_bytes crc (xs ++ ys) ≡ crc_bytes (crc_bytes crc xs) ys
unfolding crc_bytes
crc_bytes-append crc [] ys = refl
crc_bytes-append crc (x ∷ xs) ys = crc_bytes-append (zero_byte (bit_xor crc x)) xs ys

pub crc_bytes-lt : (crc : ℕ) (xs : List ℕ) → crc < 2 ^ 32 → IsBytes xs → crc_bytes crc xs < 2 ^ 32
unfolding crc_bytes
crc_bytes-lt crc [] small h = small
crc_bytes-lt crc (x ∷ xs) small h =
    crc_bytes-lt (zero_byte (bit_xor crc x)) xs
      (zero_byte-lt (bit_xor crc x) (bit_xor-lt 32 crc x small (omega (arith, h.0)))) h.1

between : (crc base b : ℕ) → bit_xor crc b ≡ bit_xor (bit_xor base b) (bit_xor base crc)
between crc base b =
    bit_xor_comm crc b
    ∙ sym (zero-bit_xor (bit_xor b crc))
    ∙ ap (λ (t : ℕ). bit_xor t (bit_xor b crc)) (sym (bit_xor_self base))
    ∙ bit_xor_swap base base b crc

cancel : (a b : ℕ) → bit_xor a (bit_xor a b) ≡ b
cancel a b =
    sym (bit_xor_assoc a a b) ∙ ap (λ (t : ℕ). bit_xor t b) (bit_xor_self a) ∙ zero-bit_xor b

-- From another start the checksum differs by that of as many zeros.
pub crc_bytes-restarts :
    (crc base : ℕ) (xs : List ℕ)
    → crc_bytes crc xs ≡ bit_xor (crc_bytes base xs) (zero_bytes (length xs) (bit_xor base crc))
unfolding crc_bytes zero_bytes
crc_bytes-restarts crc base [] =
    sym (bit_xor-zero crc)
    ∙ between crc base 0
    ∙ ap (λ (t : ℕ). bit_xor t (bit_xor base crc)) (bit_xor-zero base)
crc_bytes-restarts crc base (x ∷ xs) =
    let step : zero_byte (bit_xor crc x)
        ≡ bit_xor (zero_byte (bit_xor base x)) (zero_byte (bit_xor base crc)) =
      ap zero_byte (between crc base x)
      ∙ zero_byte-IsLinear.at_xor (bit_xor base x) (bit_xor base crc) in
    let apart : bit_xor (zero_byte (bit_xor base x)) (zero_byte (bit_xor crc x))
        ≡ zero_byte (bit_xor base crc) =
      ap (bit_xor (zero_byte (bit_xor base x))) step
      ∙ cancel (zero_byte (bit_xor base x)) (zero_byte (bit_xor base crc)) in
    crc_bytes-restarts (zero_byte (bit_xor crc x)) (zero_byte (bit_xor base x)) xs
    ∙ ap (λ (t : ℕ). bit_xor (crc_bytes (zero_byte (bit_xor base x)) xs) (zero_bytes (length xs) t))
        apart

-- What is documented of `crc32c_func`: it goes on with the CRC-32C of `length` bytes.
abbrev pub TakesBytes : Crc32cFunc → Type 0
TakesBytes func =
    (crc : ℕ) (xs : List ℕ) → crc < 2 ^ 32 → func crc (some xs) (length xs) ≡ crc_bytes crc xs

pub spec_crc32c-zero_bytes :
    (func : Crc32cFunc) (crc len : ℕ)
    → TakesZeros func
    → crc < 2 ^ 32
    → len < 2 ^ 32
    → spec_crc32c func crc none len ≡ some (zero_bytes len crc)
unfolding spec_crc32c
spec_crc32c-zero_bytes func crc len takes small fits = elim (Bool-cases (ltb 16 len)) [
  | inl long ↦ rw long (crc32c_zeros-zero_bytes func crc len takes small fits)
  | inr short ↦ rw (short, takes crc len small (ground arith)) refl
]

-- If `crc32c_func` computes the CRC-32C, and takes a null pointer for zero bytes, spec_crc32c of
-- bytes from one 32-bit start is the exclusive or of the one from another start and of the one of
-- as many zeros from the exclusive or of the starts.
pub spec_crc32c-restarts :
    (func : Crc32cFunc) (crc base : ℕ) (xs : List ℕ)
    → TakesZeros func
    → TakesBytes func
    → crc < 2 ^ 32
    → base < 2 ^ 32
    → length xs < 2 ^ 32
    → (from_base zeros : ℕ) × (spec_crc32c func base (some xs) (length xs) ≡ some from_base)
      × (spec_crc32c func (bit_xor base crc) none (length xs) ≡ some zeros)
      × (spec_crc32c func crc (some xs) (length xs) ≡ some (bit_xor from_base zeros))
unfolding spec_crc32c
spec_crc32c-restarts func crc base xs zeros bytes small_crc small_base fits = (
  crc_bytes base xs,
  zero_bytes (length xs) (bit_xor base crc),
  ap some (bytes base xs small_base),
  spec_crc32c-zero_bytes func (bit_xor base crc) (length xs) zeros
      (bit_xor-lt 32 base crc small_base small_crc) fits,
  ap some (bytes crc xs small_crc ∙ crc_bytes-restarts crc base xs),
)
