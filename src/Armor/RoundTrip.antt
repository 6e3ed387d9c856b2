-- ===== src/Armor/RoundTrip.antt =====
-- The decoder of armor.c on what the encoder wrote.
use Prim.Native.Nat.{bit_and, bit_or}
use mathlib.Core.Path.{fun_ext}
use replica_wbcache.Prelude.{
  ℕ, suc, ◌+◌, ◌-◌, ◌*◌, ◌/◌, ◌%◌, ◌≤◌, ◌<◌, ◌≡◌, refl, sym, ap, ◌∙◌, inl, inr, List, [], ◌∷◌, ◌++◌,
  arith, ok, ◌>>=◌, length, >>=_assoc, Bool-cases,
}
use replica_wbcache.Armor.{Dst, unarmor_group, unarmor_loop, unarmor, armor_line_break}
use replica_wbcache.Armor.Tables.{
  or_of_16, or_of_4, or_of_64, and_3, and_15, decode_bits-encode_bits, encode_bits_ne_break,
  decode_bits_pad, encode_bits_ne_pad,
}
use replica_wbcache.Armor.Encode.{
  put_all, put_all-append, put_all-fits, IsBytes, group3, group2, group1, full, line_break, column,
  text, counted, armor_line_break-text,
}

-- A line break where a group may begin is passed over.
skip-break :
    (n : ℕ) (dst : Dst) (rest : List ℕ) → unarmor_loop n dst (10 ∷ rest) ≡ unarmor_loop n dst rest
unfolding unarmor_loop
skip-break n dst [] = refl
skip-break n dst (a ∷ []) = refl
skip-break n dst (a ∷ b ∷ []) = refl
skip-break n dst (a ∷ b ∷ c ∷ rest) = refl

skip-line_break :
    (width track n : ℕ) (dst : Dst) (rest : List ℕ)
    → unarmor_loop n dst (line_break width track ++ rest) ≡ unarmor_loop n dst rest
skip-line_break width track n dst rest = elim (Bool-cases (full width track)) [
  | inl breaks ↦ rw breaks (skip-break n dst rest)
  | inr stays ↦ rw stays
]

-- The bytes that a group of four values stands for.
module _ (a b c : ℕ) (byte_a : a < 256) (byte_b : b < 256) (byte_c : c < 256) where
  first_byte : bit_or (a / 4 * 4) ((a % 4 * 16 + b / 16) / 16) % 256 ≡ a
  first_byte = ground (arith, or_of_4 a byte_a)

  second_byte : bit_or (bit_and (a % 4 * 16 + b / 16) 15 * 16) ((b % 16 * 4 + c / 64) / 4) % 256 ≡ b
  second_byte = ground (arith, and_15 (a % 4 * 16 + b / 16), or_of_16 b byte_b)

  third_byte : bit_or (bit_and (b % 16 * 4 + c / 64) 3 * 64) (c % 64) % 256 ≡ c
  third_byte = ground (arith, and_3 (b % 16 * 4 + c / 64), or_of_64 c byte_c)

  unarmor-group3 :
      (n : ℕ) (dst : Dst) (rest : List ℕ)
      → unarmor_loop n dst (group3 a b c ++ rest)
        ≡ (put_all dst (a ∷ b ∷ c ∷ []) >>= λ e. unarmor_loop (n + 3) e rest)
  unfolding unarmor_loop unarmor_group put_all
  unarmor-group3 n dst rest =
      rw
        (
          encode_bits_ne_break (a / 4) (omega arith),
          decode_bits-encode_bits (a / 4) (omega arith),
          decode_bits-encode_bits (a % 4 * 16 + b / 16) (omega arith),
          decode_bits-encode_bits (b % 16 * 4 + c / 64) (omega arith),
          decode_bits-encode_bits (c % 64) (omega arith),
          encode_bits_ne_pad (b % 16 * 4 + c / 64) (omega arith),
          encode_bits_ne_pad (c % 64) (omega arith),
          first_byte,
          second_byte,
          third_byte,
        )
        (simp >>=_assoc)

-- The padded groups: the decoder returns behind them, whatever follows.
unarmor-group2 :
    (a b n : ℕ) (dst : Dst) (rest : List ℕ)
    → a < 256
    → b < 256
    → unarmor_loop n dst (group2 a b ++ rest) ≡ (put_all dst (a ∷ b ∷ []) >>= counted (n + 2))
unfolding unarmor_loop unarmor_group put_all
unarmor-group2 a b n dst rest ha hb =
    let second : bit_or (bit_and (a % 4 * 16 + b / 16) 15 * 16) (b % 16 * 4 / 4) % 256 ≡ b =
      ground (arith, and_15 (a % 4 * 16 + b / 16), or_of_16 b hb) in
    rw
      (
        encode_bits_ne_break (a / 4) (omega arith),
        decode_bits-encode_bits (a / 4) (omega arith),
        decode_bits-encode_bits (a % 4 * 16 + b / 16) (omega arith),
        decode_bits-encode_bits (b % 16 * 4) (omega arith),
        decode_bits_pad,
        encode_bits_ne_pad (b % 16 * 4) (omega arith),
        first_byte a b 0 ha hb (omega arith),
        second,
      )
      (simp >>=_assoc)

unarmor-group1 :
    (a n : ℕ) (dst : Dst) (rest : List ℕ)
    → a < 256
    → unarmor_loop n dst (group1 a ++ rest) ≡ (put_all dst (a ∷ []) >>= counted (n + 1))
unfolding unarmor_loop unarmor_group put_all
unarmor-group1 a n dst rest ha =
    let first : bit_or (a / 4 * 4) (a % 4 * 16 / 16) % 256 ≡ a = ground (arith, or_of_4 a ha) in
    rw
      (
        encode_bits_ne_break (a / 4) (omega arith),
        decode_bits-encode_bits (a / 4) (omega arith),
        decode_bits-encode_bits (a % 4 * 16) (omega arith),
        decode_bits_pad,
        first,
      )
      (simp >>=_assoc)

-- The decoder writes back the bytes, and counts them.
unarmor_loop-text :
    (width track n : ℕ) (dst : Dst) (src : List ℕ)
    → IsBytes src
    → unarmor_loop n dst (text width track src) ≡ (put_all dst src >>= counted (n + length src))
unfolding text put_all unarmor_loop
unarmor_loop-text width track n dst [] h = ap (λ (k : ℕ). ok (dst, k)) (omega arith)
unarmor_loop-text width track n dst (a ∷ []) h =
    unarmor-group1 a n dst (line_break width track ++ []) h.0
unarmor_loop-text width track n dst (a ∷ b ∷ []) h =
    unarmor-group2 a b n dst (line_break width track ++ []) h.0 h.1.0
unarmor_loop-text width track n dst (a ∷ b ∷ c ∷ rest) h =
    let size : n + 3 + length rest ≡ n + suc (suc (suc (length rest))) = omega arith in
    let total = counted (n + suc (suc (suc (length rest)))) in
    unarmor-group3 a b c h.0 h.1.0 h.1.1.0 n dst
      (line_break width track ++ text width (column width track) rest)
    ∙ ap (λ f. put_all dst (a ∷ b ∷ c ∷ []) >>= f)
        (fun_ext λ e.
          skip-line_break width track (n + 3) e (text width (column width track) rest)
          ∙ unarmor_loop-text width (column width track) (n + 3) e rest h.1.1.1
          ∙ ap (λ (k : ℕ). put_all e rest >>= counted k) size)
    ∙ sym (>>=_assoc (put_all dst (a ∷ b ∷ c ∷ [])) (λ e. put_all e rest) total)
    ∙ ap (λ m. m >>= total) (sym (put_all-append dst (a ∷ b ∷ c ∷ []) rest))

-- Decoding the text of `src`, at any line width, gives `src` and its length back.
pub unarmor-text :
    (room width : ℕ) (src : List ℕ)
    → IsBytes src
    → length src ≤ room
    → unarmor room (text width 0 src)
      ≡ ok (record { written = src; room = room - length src }, length src)
unfolding unarmor
unarmor-text room width src bytes fits =
    unarmor_loop-text width 0 0 (record { written = []; room = room }) src bytes
    ∙ ap (λ m. m >>= counted (0 + length src))
        (put_all-fits (record { written = []; room = room }) src fits)
    ∙ ap (λ (k : ℕ). ok (record { written = src; room = room - length src }, k)) (omega arith)

-- What the encoder wrote of bytes, with any line width, decodes to these bytes, if both
-- destinations have room.
pub unarmor-armor_line_break :
    (room back width : ℕ) (src : List ℕ)
    → IsBytes src
    → length (text width 0 src) ≤ room
    → length src ≤ back
    → (armor_line_break room src width >>= λ (d, n). unarmor back d.written)
      ≡ ok (record { written = src; room = back - length src }, length src)
unarmor-armor_line_break room back width src bytes fits fits_back =
    ap (λ m. m >>= λ (d, n). unarmor back d.written)
      (armor_line_break-text room width src bytes fits)
    ∙ unarmor-text back width src bytes fits_back
