-- ===== src/InlineMemory.antt =====
-- include/inline_memory.h: the test for zeros, a word at a time, and the copy for small sizes.
-- Memory that a pointer leads to is the bytes from there on, and a word is little-endian. `none`
-- is a read or a write behind the bytes, or a `cursor` that an int does not hold.
pub mod Zeros
pub mod Copies
use Prim.Native.Nat.{suc}
use replica_wbcache.Prelude.{
  ℕ, zero, ◌+◌, ◌-◌, ◌*◌, ◌/◌, ◌%◌, ◌^◌, Option, none, some, Bool, true, false, ◌&&◌, ◌||◌, List,
  [], ◌∷◌, ◌++◌, ltb, leb, ◌==◌, if◌then◌else◌, length, take, drop,
}

abbrev pub all_zero : List ℕ → Bool
all_zero [] = true
all_zero (x ∷ xs) = x == 0 && all_zero xs

abbrev pub word : List ℕ → ℕ
word [] = 0
word (b ∷ bs) = b + 256 * word bs

-- How a loop ends: at a byte that is not 0, behind the bytes, or with the bytes that are left.
pub data Scan : Type 0 where
  found overrun : Scan
  rest : List ℕ → Scan

-- Byte by byte up to an address that 16 divides
unfoldable pub align_loop : (data_addr : ℕ) → List ℕ → Scan
align_loop data_addr [] = if data_addr % 16 == 0 then rest [] else overrun
align_loop data_addr (b ∷ bs) =
    let next = align_loop (data_addr + 1) bs in
    if data_addr % 16 == 0 then rest (b ∷ bs) else if b == 0 then next else found

-- `count` words of `sizeof` bytes
unfoldable pub word_loop : (sizeof count : ℕ) → List ℕ → Scan
word_loop sizeof zero bs = rest bs
word_loop sizeof (suc count) bs =
    let next = word_loop sizeof count (drop sizeof bs) in
    if ltb (length bs) sizeof then overrun else if word (take sizeof bs) == 0 then next else found

abbrev pub then_scan : Scan → (List ℕ → Scan) → Scan
then_scan found k = found
then_scan overrun k = overrun
then_scan (rest bs) k = k bs

abbrev pub verdict : Scan → Option Bool
verdict found = some false
verdict overrun = none
verdict (rest bs) = some true

-- The words of `sizeof` bytes and then the bytes behind the last of them
unfoldable pub words_and_bytes : (sizeof : ℕ) → List ℕ → Scan
unfolding word_loop
words_and_bytes sizeof bs =
    then_scan (word_loop sizeof (length bs / sizeof) bs)
      (λ bs'. word_loop 1 (length bs - length bs / sizeof * sizeof) bs')

-- mem_is_zero on x86_64
unfoldable pub mem_is_zero : (data_addr : ℕ) → List ℕ → Option Bool
unfolding align_loop word_loop words_and_bytes
mem_is_zero data_addr bs = verdict (
    if ltb 0 (length bs / 16)
    then then_scan (align_loop data_addr bs)
        (λ bs'. then_scan (word_loop 16 (length bs' / 16) bs') (words_and_bytes 4))
    else words_and_bytes 4 bs)

-- mem_is_zero without GCC's extensions
unfoldable pub portable_mem_is_zero : List ℕ → Option Bool
unfolding words_and_bytes
portable_mem_is_zero bs = verdict (words_and_bytes 8 bs)

-- memcpy of `n` bytes to `dest + cursor` from `src + cursor`
unfoldable pub memcpy_at : (cursor n : ℕ) (dest src : List ℕ) → Option (List ℕ)
memcpy_at cursor n dest src =
    if ltb (length dest) (cursor + n) || ltb (length src) (cursor + n)
    then none
    else some (take cursor dest ++ take n (drop cursor src) ++ drop (cursor + n) dest)

unfoldable pub memcpy : (dest src : List ℕ) (len : ℕ) → Option (List ℕ)
unfolding memcpy_at
memcpy dest src len = memcpy_at 0 len dest src

abbrev pub then_copy : {A : Type 0} → Option (ℕ × List ℕ) → (ℕ → List ℕ → Option A) → Option A
then_copy none k = none
then_copy (some (cursor, dest)) k = k cursor dest

abbrev pub moved : ℕ → Option (List ℕ) → Option (ℕ × List ℕ)
moved cursor none = none
moved cursor (some dest) = some (cursor, dest)

-- `turns` copies of `sizeof` bytes, with the cursor behind them; `cursor` is an int.
unfoldable pub copy_words : (sizeof turns cursor : ℕ) (dest src : List ℕ) → Option (ℕ × List ℕ)
unfolding memcpy_at
copy_words sizeof zero cursor dest src = some (cursor, dest)
copy_words sizeof (suc turns) cursor dest src =
    if ltb cursor (2 ^ 31)
    then then_copy (moved (cursor + sizeof) (memcpy_at cursor sizeof dest src))
        (λ cursor' dest'. copy_words sizeof turns cursor' dest' src)
    else none

-- The loops of the switch's default
unfoldable pub copy_loops : (dest src : List ℕ) (len : ℕ) → Option (ℕ × List ℕ)
unfolding copy_words
copy_loops dest src len = then_copy (copy_words 8 (len / 8) 0 dest src) (λ cursor dest'.
    then_copy (copy_words 4 (len % 8 / 4) cursor dest' src)
      (λ cursor' dest''. copy_words 1 (len % 8 % 4) cursor' dest'' src))

unfoldable pub maybe_inline_memcpy : (dest src : List ℕ) (len small_len : ℕ) → Option (List ℕ)
unfolding memcpy copy_loops
maybe_inline_memcpy dest src len small_len =
    if ltb small_len len || len == 8 || len == 4 || len == 3 || len == 2 || len == 1
    then memcpy dest src len
    else then_copy (copy_loops dest src len) (λ cursor dest'. some dest')
