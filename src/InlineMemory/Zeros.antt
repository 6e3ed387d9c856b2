-- ===== src/InlineMemory/Zeros.antt =====
-- include/inline_memory.h: the test for zeros reads no byte behind the last and finds what a test
-- of each byte finds.
use Prim.Native.Nat.{suc}
use replica_wbcache.Prelude.{
  ℕ, zero, ◌+◌, ◌-◌, ◌*◌, ◌/◌, ◌%◌, ◌≤◌, ◌≡◌, refl, sym, ap, ◌∙◌, inl, inr, ◌⊎◌, some, Bool, false,
  ◌&&◌, List, [], ◌∷◌, ◌++◌, ltb, ◌==◌, le→ltb, ltb→lt, Bool-cases, length, take, drop, length-drop,
  arith,
}
use replica_wbcache.Prelude.Slices.{take-append-drop}
use replica_wbcache.InlineMemory.{
  all_zero, word, Scan, found, rest, align_loop, word_loop, then_scan, verdict, words_and_bytes,
  mem_is_zero, portable_mem_is_zero,
}

word-all_zero : (bs : List ℕ) → (word bs == 0) ≡ all_zero bs
word-all_zero [] = refl
word-all_zero (zero ∷ bs) = ground (arith, word-all_zero bs)
word-all_zero (suc b ∷ bs) = ground arith

all_zero-append : (xs ys : List ℕ) → all_zero (xs ++ ys) ≡ (all_zero xs && all_zero ys)
all_zero-append [] ys = refl
all_zero-append (x ∷ xs) ys = ground (arith, all_zero-append xs ys)

-- What a loop over `bs` may find: a byte that is not 0, or so many zeros and the bytes that are
-- left.
abbrev Tells : (n : ℕ) (bs : List ℕ) → Scan → Type 0
Tells n bs scan =
    ((scan ≡ found) × (all_zero bs ≡ false))
    ⊎ ((bs' : List ℕ) × (scan ≡ rest bs')
        × (all_zero bs ≡ all_zero bs')
        × (length bs ≡ n + length bs'))

all_zero-take :
    (n : ℕ) (bs : List ℕ) → all_zero bs ≡ ((word (take n bs) == 0) && all_zero (drop n bs))
all_zero-take n bs =
    ap all_zero (sym (take-append-drop n bs))
    ∙ all_zero-append (take n bs) (drop n bs)
    ∙ ap (λ (b : Bool). b && all_zero (drop n bs)) (sym (word-all_zero (take n bs)))

word_loop-Tells :
    (sizeof count : ℕ) (bs : List ℕ)
    → count * sizeof ≤ length bs
    → Tells (count * sizeof) bs (word_loop sizeof count bs)
unfolding word_loop
word_loop-Tells sizeof zero bs h = inr (bs, refl, refl, omega arith)
word_loop-Tells sizeof (suc count) bs h =
    let split = all_zero-take sizeof bs in
    let there = le→ltb (length bs) sizeof (omega arith) in
    elim (Bool-cases (word (take sizeof bs) == 0)) [
      | inr ne ↦ inl (rw (there, ne) refl, rw (split, ne) refl)
      | inl eq ↦
          elim (word_loop-Tells sizeof count (drop sizeof bs)
            (omega (arith, length-drop sizeof bs))) [
              | inl (f, z) ↦ inl (rw (there, eq, f) refl, rw (split, eq, z) refl)
              | inr (bs', f, z, l) ↦ inr (
                bs',
                rw (there, eq, f) refl,
                rw (split, eq, z) refl,
                omega (arith, length-drop sizeof bs),
              )
            ]
    ]

Tells-then :
    (n m : ℕ) (bs : List ℕ) (scan : Scan) (k : List ℕ → Scan)
    → Tells n bs scan
    → ((bs' : List ℕ) → length bs ≡ n + length bs' → Tells m bs' (k bs'))
    → Tells (n + m) bs (then_scan scan k)
Tells-then n m bs scan k (inl (f, z)) more = inl (rw f refl, z)
Tells-then n m bs scan k (inr (bs', f, z, l)) more = elim (more bs' l) [
  | inl (f', z') ↦ inl (rw (f, f') refl, z ∙ z')
  | inr (bs'', f', z', l') ↦ inr (bs'', rw (f, f') refl, z ∙ z', omega arith)
]

-- A scan that leaves no byte tells whether all are zero.
Tells-verdict :
    (n : ℕ) (bs : List ℕ) (scan : Scan)
    → n ≡ length bs
    → Tells n bs scan
    → verdict scan ≡ some (all_zero bs)
Tells-verdict n bs scan e (inl (f, z)) = rw (f, z) refl
Tells-verdict n bs scan e (inr ([], f, z, l)) = rw (f, z) refl
Tells-verdict n bs scan e (inr (b ∷ bs', f, z, l)) = absurd (omega arith)

words_and_bytes-Tells :
    (sizeof : ℕ) (bs : List ℕ)
    → length bs / sizeof * sizeof ≤ length bs
    → Tells
        (length bs / sizeof * sizeof + (length bs - length bs / sizeof * sizeof) * 1)
        bs
        (words_and_bytes sizeof bs)
unfolding words_and_bytes
words_and_bytes-Tells sizeof bs h =
    Tells-then (length bs / sizeof * sizeof) ((length bs - length bs / sizeof * sizeof) * 1) bs
      (word_loop sizeof (length bs / sizeof) bs)
      (λ bs'. word_loop 1 (length bs - length bs / sizeof * sizeof) bs')
      (word_loop-Tells sizeof (length bs / sizeof) bs h)
      (λ bs' l. word_loop-Tells 1 (length bs - length bs / sizeof * sizeof) bs' (omega arith))

Tells-eq : (n m : ℕ) (bs : List ℕ) (scan : Scan) → n ≡ m → Tells n bs scan → Tells m bs scan
Tells-eq n m bs scan e (inl f) = inl f
Tells-eq n m bs scan e (inr (bs', f, z, l)) = inr (bs', f, z, omega arith)

-- The bytes up to the next multiple of 16, if there are so many
align_loop-Tells :
    (data_addr : ℕ) (bs : List ℕ)
    → (16 - data_addr % 16) % 16 ≤ length bs
    → Tells ((16 - data_addr % 16) % 16) bs (align_loop data_addr bs)
unfolding align_loop
align_loop-Tells data_addr [] h = inr ([], ground arith, refl, omega arith)
align_loop-Tells data_addr (b ∷ bs) h = elim (Bool-cases (data_addr % 16 == 0)) [
  | inl al ↦ inr (b ∷ bs, rw al refl, refl, ground arith)
  | inr al ↦
      let more : (16 - data_addr % 16) % 16 ≡ 1 + (16 - (data_addr + 1) % 16) % 16 = ground arith in
      elim (Bool-cases (b == 0)) [
        | inr nz ↦ inl (rw (al, nz) refl, rw nz refl)
        | inl z ↦ elim (align_loop-Tells (data_addr + 1) bs (omega arith)) [
          | inl (f, nz) ↦ inl (rw (al, z, f) refl, rw (z, nz) refl)
          | inr (bs', f, zs, l) ↦ inr (bs', rw (al, z, f) refl, rw (z, zs) refl, omega arith)
        ]
      ]
]

-- mem_is_zero without GCC's extensions reads no byte behind the last and tells whether every byte
-- is 0.
pub portable_mem_is_zero-all_zero : (bs : List ℕ) → portable_mem_is_zero bs ≡ some (all_zero bs)
unfolding portable_mem_is_zero
portable_mem_is_zero-all_zero bs =
    Tells-verdict (length bs / 8 * 8 + (length bs - length bs / 8 * 8) * 1) bs
      (words_and_bytes 8 bs) (omega arith) (words_and_bytes-Tells 8 bs (omega arith))

quads-Tells : (bs : List ℕ) → Tells (length bs) bs (words_and_bytes 4 bs)
quads-Tells bs =
    Tells-eq (length bs / 4 * 4 + (length bs - length bs / 4 * 4) * 1) (length bs) bs
      (words_and_bytes 4 bs) (omega arith) (words_and_bytes-Tells 4 bs (omega arith))

wide-Tells :
    (bs : List ℕ)
    → Tells (length bs) bs (then_scan (word_loop 16 (length bs / 16) bs) (words_and_bytes 4))
wide-Tells bs =
    Tells-eq (length bs / 16 * 16 + length bs % 16) (length bs) bs
      (then_scan (word_loop 16 (length bs / 16) bs) (words_and_bytes 4)) (omega arith)
      (Tells-then (length bs / 16 * 16) (length bs % 16) bs (word_loop 16 (length bs / 16) bs)
        (words_and_bytes 4) (word_loop-Tells 16 (length bs / 16) bs (omega arith))
        (λ bs' l.
          Tells-eq (length bs') (length bs % 16) bs' (words_and_bytes 4 bs') (omega arith)
            (quads-Tells bs')))

aligned-Tells :
    (data_addr : ℕ) (bs : List ℕ)
    → 16 ≤ length bs
    → Tells (length bs) bs (
        then_scan
          (align_loop data_addr bs)
          (λ bs'. then_scan (word_loop 16 (length bs' / 16) bs') (words_and_bytes 4)))
aligned-Tells data_addr bs h =
    let n : ℕ = (16 - data_addr % 16) % 16 in
    let k : List ℕ → Scan =
      λ bs'. then_scan (word_loop 16 (length bs' / 16) bs') (words_and_bytes 4) in
    Tells-eq (n + (length bs - n)) (length bs) bs (then_scan (align_loop data_addr bs) k)
      (omega arith)
      (Tells-then n (length bs - n) bs (align_loop data_addr bs) k
        (align_loop-Tells data_addr bs (omega arith))
        (λ bs' l. Tells-eq (length bs') (length bs - n) bs' (k bs') (omega arith) (wide-Tells bs')))

-- At any address, aligned or not, mem_is_zero reads no byte behind the last and tells whether
-- every byte is 0.
pub mem_is_zero-all_zero :
    (data_addr : ℕ) (bs : List ℕ) → mem_is_zero data_addr bs ≡ some (all_zero bs)
unfolding mem_is_zero
mem_is_zero-all_zero data_addr bs = elim (Bool-cases (ltb 0 (length bs / 16))) [
  | inl h ↦
      let many = ltb→lt 0 (length bs / 16) h in
      rw h (
        Tells-verdict (length bs) bs
          (then_scan (align_loop data_addr bs)
            (λ bs'. then_scan (word_loop 16 (length bs' / 16) bs') (words_and_bytes 4)))
          refl (aligned-Tells data_addr bs (omega arith)))
  | inr h ↦ rw h (Tells-verdict (length bs) bs (words_and_bytes 4 bs) refl (quads-Tells bs))
]
