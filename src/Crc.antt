-- ===== src/Crc.antt =====
-- common/crc32/crc32c.cc and include/crc32/crc32c.h: the checksum of zeros. The implementation
-- that `choose_crc32` selects is an argument.
pub mod Turbo
pub mod Linear
pub mod Zeros
pub mod Restart
use Prim.Native.Nat.{bit_and, bit_xor}
use replica_wbcache.Prelude.{
  ℕ, ◌+◌, ◌-◌, ◌/◌, ◌%◌, ◌^◌, Bool, Option, none, some, List, [], ◌∷◌, ◌==◌, ltb, if◌then◌else◌,
  drop,
}
use replica_wbcache.Crc.Turbo.{crc_turbo_table}

abbrev pub u32 : ℕ → ℕ
u32 n = n % 2 ^ 32

-- `~((crc_initial & 1) - 1)`
abbrev mask_of : ℕ → ℕ
mask_of crc = 2 ^ 32 - 1 - u32 (crc % 2 + 2 ^ 32 - 1)

-- The inner loop: `none` is a read behind the row.
unfoldable pub row_loop : List ℕ → (crc_initial crc1 : ℕ) → Option ℕ
row_loop [] crc crc1 = if crc == 0 then some crc1 else none
row_loop (entry ∷ row) crc crc1 =
    let rest = row_loop row (crc / 2) (bit_xor crc1 (bit_and (mask_of crc) entry)) in
    if crc == 0 then some crc1 else rest

abbrev or_stop : Option ℕ → (ℕ → Option ℕ) → Option ℕ
or_stop none next = none
or_stop (some crc) next = next crc

-- The outer loop over the rows from `range` on: `none` is a read behind the table.
unfoldable pub range_loop : List (List ℕ) → (len crc : ℕ) → Option ℕ
unfolding row_loop
range_loop [] len crc = if len == 0 then some crc else none
range_loop (row ∷ table) len crc =
    let rest = range_loop table (len / 2) in
    if len == 0
    then some crc
    else or_stop (if len % 2 == 1 then row_loop row crc 0 else some crc) rest

-- `crc32c_func`; `none` is the null pointer.
abbrev pub Crc32cFunc : Type 0
Crc32cFunc = ℕ → Option (List ℕ) → ℕ → ℕ

-- The remainder is below 16, so `spec_crc32c` calls `crc32c_func` for it.
unfoldable pub crc32c_zeros : Crc32cFunc → (crc_initial len : ℕ) → Option ℕ
unfolding range_loop
crc32c_zeros func crc len =
    let remainder = len % 16 in
    or_stop (range_loop (drop 4 crc_turbo_table) (len / 16) crc)
      (λ crc'. some (if ltb 0 remainder then func crc' none remainder else crc'))

unfoldable pub spec_crc32c :
    Crc32cFunc → (crc : ℕ) (source : Option (List ℕ)) (length : ℕ) → Option ℕ
spec_crc32c func crc none length =
    if ltb 16 length then crc32c_zeros func crc length else some (func crc none length)
spec_crc32c func crc (some xs) length = some (func crc (some xs) length)
