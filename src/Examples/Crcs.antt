-- ===== src/Examples/Crcs.antt =====
-- The checksum of zeros (common/crc32/crc32c.cc) at concrete inputs.
use Prim.Native.Nat.{bit_xor}
use replica_wbcache.Prelude.{ℕ, ◌≡◌, refl, some, none, List, [], ◌∷◌, length, arith}
use replica_wbcache.Crc.{Crc32cFunc, crc32c_zeros, spec_crc32c}
use replica_wbcache.Crc.Linear.{zero_byte, zero_bytes}
use replica_wbcache.Crc.Zeros.{TakesZeros, crc32c_zeros-zero_bytes}
use replica_wbcache.Crc.Restart.{crc_bytes, TakesBytes, spec_crc32c-restarts}

-- A bitwise implementation.
unfoldable pub bitwise_func : Crc32cFunc
bitwise_func crc none length = zero_bytes length crc
bitwise_func crc (some xs) length = crc_bytes crc xs

pub bitwise_func-TakesZeros : TakesZeros bitwise_func
unfolding bitwise_func
bitwise_func-TakesZeros crc n small short = refl

pub bitwise_func-TakesBytes : TakesBytes bitwise_func
unfolding bitwise_func
bitwise_func-TakesBytes crc xs small = refl

abbrev digits : List ℕ
digits = 0x31 ∷ 0x32 ∷ 0x33 ∷ 0x34 ∷ 0x35 ∷ 0x36 ∷ 0x37 ∷ 0x38 ∷ 0x39 ∷ []

-- The check value of CRC-32C, not inverted.
check_run : crc_bytes 0xffffffff digits ≡ 0x1cf96d7c
unfolding crc_bytes zero_byte
check_run = refl

zeros_run : crc32c_zeros bitwise_func 0x12345678 37 ≡ some (zero_bytes 37 0x12345678)
unfolding crc32c_zeros bitwise_func zero_bytes zero_byte
zeros_run = refl

crc32c_zeros-zero_bytes_example :
    crc32c_zeros bitwise_func 0xdeadbeef 1000000 ≡ some (zero_bytes 1000000 0xdeadbeef)
crc32c_zeros-zero_bytes_example =
    crc32c_zeros-zero_bytes bitwise_func 0xdeadbeef 1000000 bitwise_func-TakesZeros (omega arith)
      (omega arith)

spec_crc32c-restarts_example :
    (from_base zeros : ℕ) × (spec_crc32c bitwise_func 0 (some digits) 9 ≡ some from_base)
    × (spec_crc32c bitwise_func (bit_xor 0 0xffffffff) none 9 ≡ some zeros)
    × (spec_crc32c bitwise_func 0xffffffff (some digits) 9 ≡ some (bit_xor from_base zeros))
spec_crc32c-restarts_example =
    spec_crc32c-restarts bitwise_func 0xffffffff 0 digits bitwise_func-TakesZeros
      bitwise_func-TakesBytes (omega arith) (omega arith) (omega arith)
