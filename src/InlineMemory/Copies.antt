-- ===== src/InlineMemory/Copies.antt =====
-- include/inline_memory.h: the copy for small sizes against memcpy.
use Prim.Native.Nat.{suc}
use replica_wbcache.Prelude.{
  ℕ, zero, ◌+◌, ◌-◌, ◌*◌, ◌/◌, ◌%◌, ◌^◌, ◌≤◌, ◌<◌, ◌≡◌, refl, ap, ◌∙◌, inl, inr, some, ◌||◌, List,
  ◌++◌, ltb, ◌==◌, le→ltb, lt→ltb, Bool-cases, length, take, drop, length-take, length-drop,
  length-append, arith,
}
use replica_wbcache.Prelude.Slices.{
  take-add, take-append_left, take_all, drop-append_right, drop-drop,
}
use replica_wbcache.InlineMemory.{memcpy_at, memcpy, copy_words, copy_loops, maybe_inline_memcpy}

-- `dest` when its first `n` bytes were copied from `src`
abbrev copied : (n : ℕ) (dest src : List ℕ) → List ℕ
copied n dest src = take n src ++ drop n dest

length-copied :
    (n : ℕ) (dest src : List ℕ)
    → n ≤ length dest
    → n ≤ length src
    → length (copied n dest src) ≡ length dest
length-copied n dest src h k =
    omega (arith, length-append (take n src) (drop n dest), length-take n src, length-drop n dest)

memcpy_at-copied :
    (cursor n : ℕ) (dest src : List ℕ)
    → cursor + n ≤ length dest
    → cursor + n ≤ length src
    → memcpy_at cursor n (copied cursor dest src) src ≡ some (copied (cursor + n) dest src)
unfolding memcpy_at
memcpy_at-copied cursor n dest src h k =
    let len = length-copied cursor dest src (omega arith) (omega arith) in
    let first : length (take cursor src) ≡ cursor = omega (arith, length-take cursor src) in
    let dest_fits = le→ltb (length (copied cursor dest src)) (cursor + n) (omega arith) in
    let src_fits = le→ltb (length src) (cursor + n) k in
    let before : take cursor (copied cursor dest src) ≡ take cursor src =
      take-append_left cursor (take cursor src) (drop cursor dest) (omega arith)
      ∙ take_all cursor (take cursor src) (omega arith) in
    let behind : drop (cursor + n) (copied cursor dest src) ≡ drop (cursor + n) dest =
      drop-append_right (cursor + n) (take cursor src) (drop cursor dest) (omega arith)
      ∙ drop-drop (cursor + n - length (take cursor src)) cursor dest
      ∙ ap (λ (m : ℕ). drop m dest) (omega arith) in
    let joined : copied (cursor + n) dest src
        ≡ take cursor src ++ take n (drop cursor src) ++ drop (cursor + n) dest =
      ap (λ xs. xs ++ drop (cursor + n) dest) (take-add cursor n src) in
    rw (dest_fits, src_fits, before, behind, joined) refl

copy_words-copied :
    (sizeof turns cursor : ℕ) (dest src : List ℕ)
    → 0 < sizeof
    → cursor + turns * sizeof ≤ 2 ^ 31
    → cursor + turns * sizeof ≤ length dest
    → cursor + turns * sizeof ≤ length src
    → copy_words sizeof turns cursor (copied cursor dest src) src
      ≡ some (cursor + turns * sizeof, copied (cursor + turns * sizeof) dest src)
unfolding copy_words
copy_words-copied sizeof zero cursor dest src p w h k =
    ap (λ (m : ℕ). some (m, copied m dest src)) (omega arith)
copy_words-copied sizeof (suc turns) cursor dest src p w h k =
    rw
      (
        lt→ltb cursor (2 ^ 31) (omega arith),
        memcpy_at-copied cursor sizeof dest src (omega arith) (omega arith),
      )
      (copy_words-copied sizeof turns (cursor + sizeof) dest src p (omega arith) (omega arith)
          (omega arith)
        ∙ ap (λ (m : ℕ). some (m, copied m dest src)) (omega arith))

copy_loops-copied :
    (dest src : List ℕ) (len : ℕ)
    → len ≤ 2 ^ 31
    → len ≤ length dest
    → len ≤ length src
    → copy_loops dest src len ≡ some (len, copied len dest src)
unfolding copy_loops
copy_loops-copied dest src len w h k =
    rw
      (
        copy_words-copied 8 (len / 8) 0 dest src (omega arith) (omega arith) (omega arith)
            (omega arith),
        copy_words-copied 4 (len % 8 / 4) (0 + len / 8 * 8) dest src (omega arith) (omega arith)
            (omega arith) (omega arith),
        copy_words-copied 1 (len % 8 % 4) (0 + len / 8 * 8 + len % 8 / 4 * 4) dest src (omega arith)
            (omega arith) (omega arith) (omega arith),
      )
      (ap (λ (m : ℕ). some (m, copied m dest src)) (omega arith))

-- Where `len` is at most 2^31 and neither buffer is shorter, maybe_inline_memcpy copies the first
-- `len` bytes and leaves the others, whatever the size up to which it is inlined.
pub maybe_inline_memcpy-copies :
    (dest src : List ℕ) (len small_len : ℕ)
    → len ≤ 2 ^ 31
    → len ≤ length dest
    → len ≤ length src
    → maybe_inline_memcpy dest src len small_len ≡ some (take len src ++ drop len dest)
unfolding maybe_inline_memcpy memcpy
maybe_inline_memcpy-copies dest src len small_len w h k =
    elim (Bool-cases
      (ltb small_len len || len == 8 || len == 4 || len == 3 || len == 2 || len == 1)) [
        | inl direct ↦ rw direct (
            memcpy_at-copied 0 len dest src (omega arith) (omega arith)
            ∙ ap (λ (m : ℕ). some (copied m dest src)) (omega arith))
        | inr loops ↦ rw (loops, copy_loops-copied dest src len w h k) refl
      ]
