-- ===== src/Crc/Zeros.antt =====
-- crc32c_zeros and its table against the CRC-32C of zero bytes.
use Prim.Native.Nat.{bit_and, bit_xor, bit_and-bitwise}
use mathlib.Core.List.{map}
use mathlib.Core.Path.{fun_ext}
use native.Mathlib.Nat.{pow-suc, one-le-pow}
use replica_wbcache.Prelude.{
  ℕ, zero, suc, ◌+◌, ◌-◌, ◌*◌, ◌/◌, ◌%◌, ◌^◌, ◌≤◌, ◌<◌, ◌≡◌, refl, sym, ap, ◌∙◌, Bool, true, false,
  ◌&&◌, none, some, inl, inr, List, [], ◌∷◌, ◌==◌, ltb, if◌then◌else◌, length, drop, arith,
  Bool-cases, ==_iff,
}
use replica_wbcache.Prelude.Bits.{bit_xor-zero, zero-bit_xor, bit_xor_assoc}
use replica_wbcache.Crc.{row_loop, range_loop, crc32c_zeros, Crc32cFunc, mask_of}
use replica_wbcache.Crc.Turbo.{crc_turbo_table}
use replica_wbcache.Crc.Linear.{
  zero_byte, zero_bytes, zero_bytes-IsLinear, zero_bytes-lt, zero_bytes-add, span, bits,
  span-images,
}

-- Tests on the table, which are run.
abbrev same : List ℕ → List ℕ → Bool
same [] [] = true
same (x ∷ xs) (y ∷ ys) = x == y && same xs ys
same _ _ = false

abbrev masked : List ℕ → Bool
masked [] = true
masked (x ∷ xs) = bit_and (2 ^ 32 - 1) x == x && masked xs

-- Each row is the one before it, applied twice.
abbrev squares : List ℕ → List (List ℕ) → Bool
squares row [] = masked row
squares row (next ∷ rest) = masked row && same (map (span row) row) next && squares next rest

table_squares : squares (map zero_byte (bits 32)) (drop 1 crc_turbo_table) ≡ true
unfolding span bits zero_byte
table_squares = refl

abbrev AllBelow : ℕ → List ℕ → Type 0
AllBelow m [] = Unit {0}
AllBelow m (x ∷ xs) = (x < m) × AllBelow m xs

AllBelow-double :
    (k : ℕ) (xs : List ℕ) → AllBelow (2 ^ k) xs → AllBelow (2 ^ suc k) (map (λ (b : ℕ). 2 * b) xs)
AllBelow-double k [] h = tt
AllBelow-double k (x ∷ xs) h = (omega (arith, pow-suc 2 k), AllBelow-double k xs h.1)

AllBelow-mono : (k : ℕ) (xs : List ℕ) → AllBelow (2 ^ k) xs → AllBelow (2 ^ suc k) xs
AllBelow-mono k [] h = tt
AllBelow-mono k (x ∷ xs) h = (omega (arith, pow-suc 2 k), AllBelow-mono k xs h.1)

bits-AllBelow : (n : ℕ) → AllBelow (2 ^ n) (bits n)
unfolding bits
bits-AllBelow zero = tt
bits-AllBelow (suc n) =
    (omega (arith, pow-suc 2 n, one-le-pow n 2), AllBelow-double n (bits n) (bits-AllBelow n))

same-eq : (xs ys : List ℕ) → same xs ys ≡ true → xs ≡ ys
same-eq [] [] h = refl
same-eq [] (y ∷ ys) h = cc
same-eq (x ∷ xs) [] h = cc
same-eq (x ∷ xs) (y ∷ ys) h = ground (arith, same-eq xs ys)

-- The row for n bytes.
abbrev row_of : ℕ → List ℕ
row_of n = map (zero_bytes n) (bits 32)

span-row_of : (n x : ℕ) → x < 2 ^ 32 → span (row_of n) x ≡ zero_bytes n x
span-row_of n x h = span-images (zero_bytes n) (zero_bytes-IsLinear n) 32 x h

twice_each :
    (n : ℕ) (xs : List ℕ)
    → AllBelow (2 ^ 32) xs
    → map (span (row_of n)) (map (zero_bytes n) xs) ≡ map (zero_bytes (n + n)) xs
twice_each n [] h = refl
twice_each n (x ∷ xs) h =
    rw (span-row_of n (zero_bytes n x) (zero_bytes-lt n x h.0), sym (zero_bytes-add n n x))
      (ap (λ ys. zero_bytes (n + n) x ∷ ys) (twice_each n xs h.1))

-- Rows for 2^k bytes, 2^(k+1) bytes, and so on.
abbrev IsTurbo : ℕ → List (List ℕ) → Type 0
IsTurbo k [] = Unit {0}
IsTurbo k (row ∷ rows) = (row ≡ row_of (2 ^ k)) × (masked row ≡ true) × IsTurbo (suc k) rows

both_true : (a b : Bool) → (a && b) ≡ true → (a ≡ true) × (b ≡ true)
both_true true b h = (refl, h)
both_true false b h = cc

all_true : (a b c : Bool) → (a && b && c) ≡ true → (a ≡ true) × ((b ≡ true) × (c ≡ true))
all_true true true true h = (refl, (refl, refl))
all_true true true false h = cc
all_true true false c h = cc
all_true false b c h = cc

squares-IsTurbo :
    (k : ℕ) (row : List ℕ) (rest : List (List ℕ))
    → row ≡ row_of (2 ^ k)
    → squares row rest ≡ true
    → IsTurbo k (row ∷ rest)
squares-IsTurbo k row [] e h = (e, h, tt)
squares-IsTurbo k row (next ∷ rest) e h =
    let (kept, (follows, goes_on)) =
      all_true (masked row) (same (map (span row) row) next) (squares next rest) h in
    let twice : 2 ^ k + 2 ^ k ≡ 2 ^ suc k = omega (arith, pow-suc 2 k) in
    let next_row : next ≡ row_of (2 ^ suc k) =
      sym (same-eq (map (span row) row) next follows)
      ∙ ap (λ r. map (span r) r) e
      ∙ twice_each (2 ^ k) (bits 32) (bits-AllBelow 32)
      ∙ ap row_of twice in
    (e, kept, squares-IsTurbo (suc k) next rest next_row goes_on)

first_row : map zero_byte (bits 32) ≡ row_of (2 ^ 0)
first_row = ap (λ f. map f (bits 32)) (fun_ext (λ x. unfold zero_bytes in refl))

table-IsTurbo : IsTurbo 4 (drop 4 crc_turbo_table)
table-IsTurbo =
    let all =
      squares-IsTurbo 0 (map zero_byte (bits 32)) (drop 1 crc_turbo_table) first_row
        table_squares in
    all.2.2.2.2

mask_and :
    (x entry : ℕ)
    → bit_and (2 ^ 32 - 1) entry ≡ entry
    → bit_and (mask_of x) entry ≡ (if x % 2 == 1 then entry else 0)
mask_and x entry kept = elim (Bool-cases (x % 2 == 1)) [
  | inl odd ↦
      let is_odd : x % 2 ≡ 1 = (==_iff (x % 2) 1).0 odd in
      let ones : mask_of x ≡ 2 ^ 32 - 1 = omega arith in rw (odd, ones) kept
  | inr even ↦
      let is_even : x % 2 ≡ 0 = ground arith in
      let none_set : mask_of x ≡ 0 = omega arith in rw (even, none_set) (bit_and-bitwise 0 entry)
]

span-zero : (row : List ℕ) → span row 0 ≡ 0
unfolding span
span-zero [] = refl
span-zero (entry ∷ row) = rw (span-zero row) refl

-- The inner loop computes the span of a row that has an entry for each bit.
row_loop-span :
    (row : List ℕ) (x c : ℕ)
    → masked row ≡ true
    → x < 2 ^ length row
    → row_loop row x c ≡ some (bit_xor c (span row x))
unfolding row_loop span
row_loop-span [] x c kept h = rw (bit_xor-zero c) (ground arith)
row_loop-span (entry ∷ row) x c kept h =
    let (fits, rest_kept) = both_true (bit_and (2 ^ 32 - 1) entry == entry) (masked row) kept in
    let masks = mask_and x entry ((==_iff (bit_and (2 ^ 32 - 1) entry) entry).0 fits) in
    let bit : ℕ = if x % 2 == 1 then entry else 0 in
    elim (Bool-cases (x == 0)) [
      | inl done ↦
          let nothing : x ≡ 0 = (==_iff x 0).0 done in
          let spans : span (entry ∷ row) x ≡ 0 =
            ap (span (entry ∷ row)) nothing ∙ span-zero (entry ∷ row) in
          rw done (ap some (sym (bit_xor-zero c) ∙ ap (bit_xor c) (sym spans)))
      | inr more ↦
          rw (more, masks)
            (row_loop-span row (x / 2) (bit_xor c bit) rest_kept
                (omega (arith, pow-suc 2 (length row)))
              ∙ ap some (bit_xor_assoc c bit (span row (x / 2))))
    ]

no_bytes : (n x : ℕ) → n ≡ 0 → zero_bytes n x ≡ x
unfolding zero_bytes
no_bytes zero x h = refl
no_bytes (suc n) x h = absurd (omega arith)

length-row_of : (n : ℕ) → length (row_of n) ≡ 32
unfolding bits
length-row_of n = refl

odd_bytes : (k len : ℕ) → len % 2 ≡ 1 → 2 ^ suc k * (len / 2) + 2 ^ k ≡ 2 ^ k * len
odd_bytes k len h =
    let e : len ≡ 2 * (len / 2) + 1 = omega arith in
    omega (arith, ap (λ (t : ℕ). 2 ^ k * t) e, ap (λ (t : ℕ). t * (len / 2)) (pow-suc 2 k))

even_bytes : (k len : ℕ) → len % 2 ≡ 0 → 2 ^ suc k * (len / 2) ≡ 2 ^ k * len
even_bytes k len h =
    let e : len ≡ 2 * (len / 2) = omega arith in
    omega (arith, ap (λ (t : ℕ). 2 ^ k * t) e, ap (λ (t : ℕ). t * (len / 2)) (pow-suc 2 k))

range_loop-bytes :
    (k : ℕ) (table : List (List ℕ)) (len x : ℕ)
    → IsTurbo k table
    → len < 2 ^ length table
    → x < 2 ^ 32
    → range_loop table len x ≡ some (zero_bytes (2 ^ k * len) x)
unfolding range_loop
range_loop-bytes k [] len x rows h small =
    let none_left : len ≡ 0 = omega arith in
    rw none_left (ap some (sym (no_bytes (2 ^ k * 0) x (omega arith))))
range_loop-bytes k (row ∷ table) len x rows h small =
    let half : len / 2 < 2 ^ length table = omega (arith, pow-suc 2 (length table)) in
    let rest = λ (y : ℕ) (below : y < 2 ^ 32).
      range_loop-bytes (suc k) table (len / 2) y rows.2 half below in
    elim (Bool-cases (len == 0)) [
      | inl done ↦
          let none_left : len ≡ 0 = (==_iff len 0).0 done in
          rw done (ap some (sym (no_bytes (2 ^ k * len) x (rw none_left (omega arith)))))
      | inr more ↦ elim (Bool-cases (len % 2 == 1)) [
        | inl odd ↦
            let spans : span row x ≡ zero_bytes (2 ^ k) x =
              ap (λ r. span r x) rows.0 ∙ span-row_of (2 ^ k) x small in
            let wide : x < 2 ^ length row = rw (ap length rows.0, length-row_of (2 ^ k)) small in
            rw (more, odd, row_loop-span row x 0 rows.1 wide, zero-bit_xor (span row x), spans)
              (rest (zero_bytes (2 ^ k) x) (zero_bytes-lt (2 ^ k) x small)
                ∙ ap some (
                    sym (zero_bytes-add (2 ^ suc k * (len / 2)) (2 ^ k) x)
                    ∙ ap (λ (n : ℕ). zero_bytes n x)
                        (odd_bytes k len ((==_iff (len % 2) 1).0 odd))))
        | inr even ↦
            rw (more, even)
              (rest x small
                ∙ ap (λ (n : ℕ). some (zero_bytes n x)) (even_bytes k len (ground arith)))
      ]
    ]

-- What is documented of `crc32c_func`: a null pointer stands for zero bytes.
abbrev pub TakesZeros : Crc32cFunc → Type 0
TakesZeros func = (crc n : ℕ) → crc < 2 ^ 32 → n ≤ 16 → func crc none n ≡ zero_bytes n crc

-- If `crc32c_func` takes a null pointer for zero bytes, crc32c_zeros of a 32-bit start and length
-- stays within its table and gives the CRC-32C of as many zero bytes.
pub crc32c_zeros-zero_bytes :
    (func : Crc32cFunc) (crc len : ℕ)
    → TakesZeros func
    → crc < 2 ^ 32
    → len < 2 ^ 32
    → crc32c_zeros func crc len ≡ some (zero_bytes len crc)
unfolding crc32c_zeros
crc32c_zeros-zero_bytes func crc len takes small fits =
    let blocks =
      range_loop-bytes 4 (drop 4 crc_turbo_table) (len / 16) crc table-IsTurbo (omega arith)
        small in
    let crc' = zero_bytes (2 ^ 4 * (len / 16)) crc in
    let below = zero_bytes-lt (2 ^ 4 * (len / 16)) crc small in
    let whole : zero_bytes (len % 16) crc' ≡ zero_bytes len crc =
      sym (zero_bytes-add (len % 16) (2 ^ 4 * (len / 16)) crc)
      ∙ ap (λ (n : ℕ). zero_bytes n crc) (omega arith) in
    rw blocks (elim (Bool-cases (ltb 0 (len % 16))) [
      | inl some_left ↦ rw (some_left, takes crc' (len % 16) below (omega arith)) (ap some whole)
      | inr none_left ↦
          rw none_left (ap some (sym (no_bytes (len % 16) crc' (ground arith)) ∙ whole))
    ])
