-- ===== src/Examples/Memories.antt =====
-- Zeros and small copies (include/inline_memory.h) at concrete inputs.
use replica_wbcache.Prelude.{
  ◌≡◌, refl, true, false, some, none, List, [], ◌∷◌, ℕ, replicate, ◌++◌, arith,
}
use replica_wbcache.InlineMemory.{mem_is_zero, portable_mem_is_zero, maybe_inline_memcpy}
use replica_wbcache.InlineMemory.Zeros.{mem_is_zero-all_zero}
use replica_wbcache.InlineMemory.Copies.{maybe_inline_memcpy-copies}

abbrev mostly_zeros : List ℕ
mostly_zeros = replicate 37 0 ++ 5 ∷ replicate 3 0

mem_is_zero-all_zero_example : mem_is_zero 4093 mostly_zeros ≡ some false
mem_is_zero-all_zero_example = mem_is_zero-all_zero 4093 mostly_zeros

mem_is_zero_run : mem_is_zero 4093 (replicate 41 0) ≡ some true
unfolding mem_is_zero
mem_is_zero_run = refl

portable_mem_is_zero_run : portable_mem_is_zero mostly_zeros ≡ some false
unfolding portable_mem_is_zero
portable_mem_is_zero_run = refl

abbrev src_bytes : List ℕ
src_bytes = 1 ∷ 2 ∷ 3 ∷ 4 ∷ 5 ∷ 6 ∷ 7 ∷ 8 ∷ 9 ∷ 10 ∷ 11 ∷ 12 ∷ 13 ∷ 14 ∷ 15 ∷ []

maybe_inline_memcpy-copies_example :
    maybe_inline_memcpy (replicate 14 0) src_bytes 13 16
    ≡ some (1 ∷ 2 ∷ 3 ∷ 4 ∷ 5 ∷ 6 ∷ 7 ∷ 8 ∷ 9 ∷ 10 ∷ 11 ∷ 12 ∷ 13 ∷ 0 ∷ [])
maybe_inline_memcpy-copies_example =
    maybe_inline_memcpy-copies (replicate 14 0) src_bytes 13 16 (omega arith) (omega arith)
      (omega arith)

copy_loops_run :
    maybe_inline_memcpy (replicate 14 0) src_bytes 13 16
    ≡ some (1 ∷ 2 ∷ 3 ∷ 4 ∷ 5 ∷ 6 ∷ 7 ∷ 8 ∷ 9 ∷ 10 ∷ 11 ∷ 12 ∷ 13 ∷ 0 ∷ [])
unfolding maybe_inline_memcpy
copy_loops_run = refl

overrun_run : maybe_inline_memcpy (replicate 4 0) src_bytes 5 16 ≡ none
unfolding maybe_inline_memcpy
overrun_run = refl
