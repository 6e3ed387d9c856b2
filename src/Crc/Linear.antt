-- ===== src/Crc/Linear.antt =====
-- The checksum of zeros as a map that exclusive or goes through: a row of images of the bits
-- stands for such a map.
use Prim.Native.Nat.{bit_xor}
use replica_wbcache.Prelude.{
  ℕ, zero, suc, ◌+◌, ◌*◌, ◌/◌, ◌%◌, ◌^◌, ◌<◌, ◌≡◌, refl, sym, ap, ◌∙◌, ◌⊎◌, inl, inr, List, [], ◌∷◌,
  ◌==◌, if◌then◌else◌, arith, Bool-cases,
}
use replica_wbcache.Prelude.Bits.{
  bit_xor_step, zero-bit_xor, bit_xor-zero, bit_xor_comm, bit_xor_assoc, bit_xor_half,
  bit_xor_parity, bit_xor_swap, bit_xor_double, bit_xor-lt,
}
use mathlib.Core.List.{map}
use native.Mathlib.Nat.{pow-suc}

-- One bit of the CRC-32C, reflected, with its polynomial; then the eight of a zero byte; then the
-- zero bytes of a number.
unfoldable pub bit_step : ℕ → ℕ
bit_step crc = if crc % 2 == 1 then bit_xor (crc / 2) 0x82f63b78 else crc / 2

unfoldable pub zero_byte : ℕ → ℕ
unfolding bit_step
zero_byte crc =
    bit_step (bit_step (bit_step (bit_step (bit_step (bit_step (bit_step (bit_step crc)))))))

unfoldable pub zero_bytes : ℕ → ℕ → ℕ
zero_bytes zero crc = crc
zero_bytes (suc n) crc = zero_bytes n (zero_byte crc)

pub record IsLinear (f : ℕ → ℕ) : Type 0 where
  pub at_zero : f 0 ≡ 0
  pub at_xor : (a b : ℕ) → f (bit_xor a b) ≡ bit_xor (f a) (f b)

bit_step-odd : (a : ℕ) → a % 2 ≡ 1 → bit_step a ≡ bit_xor (a / 2) 0x82f63b78
unfolding bit_step
bit_step-odd a h = ground arith

bit_step-even : (a : ℕ) → a % 2 ≡ 0 → bit_step a ≡ a / 2
unfolding bit_step
bit_step-even a h = ground arith

parity : (a : ℕ) → (a % 2 ≡ 0) ⊎ (a % 2 ≡ 1)
parity a = elim (Bool-cases (a % 2 == 0)) [
  | inl even ↦ inl (ground arith)
  | inr odd ↦ inr (ground arith)
]

bit_step-xor : (a b : ℕ) → bit_step (bit_xor a b) ≡ bit_xor (bit_step a) (bit_step b)
bit_step-xor a b =
    let poly : ℕ = 0x82f63b78 in
    let p = bit_xor_parity a b in
    let half = bit_xor_half a b in
    elim (parity a) [
      | inl even_a ↦ elim (parity b) [
        | inl even_b ↦
            rw
              (
                bit_step-even a even_a,
                bit_step-even b even_b,
                bit_step-even (bit_xor a b) (omega arith),
              )
              half
        | inr odd_b ↦
            rw
              (
                bit_step-even a even_a,
                bit_step-odd b odd_b,
                bit_step-odd (bit_xor a b) (omega arith),
                half,
              )
              (bit_xor_assoc (a / 2) (b / 2) poly)
      ]
      | inr odd_a ↦ elim (parity b) [
        | inl even_b ↦
            rw
              (
                bit_step-odd a odd_a,
                bit_step-even b even_b,
                bit_step-odd (bit_xor a b) (omega arith),
                half,
              )
              (bit_xor_assoc (a / 2) (b / 2) poly
                ∙ ap (bit_xor (a / 2)) (bit_xor_comm (b / 2) poly)
                ∙ sym (bit_xor_assoc (a / 2) poly (b / 2)))
        | inr odd_b ↦
            rw
              (
                bit_step-odd a odd_a,
                bit_step-odd b odd_b,
                bit_step-even (bit_xor a b) (omega arith),
                half,
              )
              (sym
                (bit_xor_swap (a / 2) poly (b / 2) poly ∙ bit_xor-zero (bit_xor (a / 2) (b / 2))))
      ]
    ]

bit_step-IsLinear : IsLinear bit_step
unfolding bit_step
bit_step-IsLinear = record { at_zero = refl; at_xor = bit_step-xor }

compose-IsLinear : (f g : ℕ → ℕ) → IsLinear f → IsLinear g → IsLinear (λ x. f (g x))
compose-IsLinear f g p q = record {
  at_zero = ap f q.at_zero ∙ p.at_zero;
  at_xor = λ a b. ap f (q.at_xor a b) ∙ p.at_xor (g a) (g b);
}

pub zero_byte-IsLinear : IsLinear zero_byte
unfolding zero_byte
zero_byte-IsLinear =
    let s = bit_step-IsLinear in
    let c = λ (f : ℕ → ℕ) (p : IsLinear f). compose-IsLinear f bit_step p s in
    c _ (c _ (c _ (c _ (c _ (c _ (c _ s))))))

pub zero_bytes-IsLinear : (n : ℕ) → IsLinear (zero_bytes n)
unfolding zero_bytes
zero_bytes-IsLinear zero = record { at_zero = refl; at_xor = λ a b. refl }
zero_bytes-IsLinear (suc n) =
    compose-IsLinear (zero_bytes n) zero_byte (zero_bytes-IsLinear n) zero_byte-IsLinear

bit_step-lt : (a : ℕ) → a < 2 ^ 32 → bit_step a < 2 ^ 32
bit_step-lt a h = elim (parity a) [
  | inl even ↦ rw (bit_step-even a even) (omega arith)
  | inr odd ↦ rw (bit_step-odd a odd) (bit_xor-lt 32 (a / 2) 0x82f63b78 (omega arith) (omega arith))
]

pub zero_byte-lt : (a : ℕ) → a < 2 ^ 32 → zero_byte a < 2 ^ 32
unfolding zero_byte
zero_byte-lt a h = let s = bit_step-lt in s _ (s _ (s _ (s _ (s _ (s _ (s _ (s a h)))))))

pub zero_bytes-lt : (n a : ℕ) → a < 2 ^ 32 → zero_bytes n a < 2 ^ 32
unfolding zero_bytes
zero_bytes-lt zero a h = h
zero_bytes-lt (suc n) a h = zero_bytes-lt n (zero_byte a) (zero_byte-lt a h)

pub zero_bytes-add : (n m a : ℕ) → zero_bytes (n + m) a ≡ zero_bytes n (zero_bytes m a)
unfolding zero_bytes
zero_bytes-add n zero a = let e : n + zero ≡ n = omega arith in ap (λ (k : ℕ). zero_bytes k a) e
zero_bytes-add n (suc m) a =
    let e : n + suc m ≡ suc (n + m) = omega arith in
    ap (λ (k : ℕ). zero_bytes k a) e ∙ zero_bytes-add n m (zero_byte a)

-- The map that a row of images of 1, 2, 4, ... stands for.
unfoldable pub span : List ℕ → ℕ → ℕ
span [] x = 0
span (entry ∷ row) x = bit_xor (if x % 2 == 1 then entry else 0) (span row (x / 2))

-- 1, 2, 4, ...: `n` of them.
unfoldable pub bits : ℕ → List ℕ
bits zero = []
bits (suc n) = 1 ∷ map (λ (b : ℕ). 2 * b) (bits n)

span-map : (f : ℕ → ℕ) → IsLinear f → (row : List ℕ) (x : ℕ) → span (map f row) x ≡ f (span row x)
unfolding span
span-map f lin [] x = sym lin.at_zero
span-map f lin (entry ∷ row) x = elim (Bool-cases (x % 2 == 1)) [
  | inl odd ↦ rw (odd, span-map f lin row (x / 2)) (sym (lin.at_xor entry (span row (x / 2))))
  | inr even ↦
      rw (even, span-map f lin row (x / 2))
        (ap (λ (t : ℕ). bit_xor t (f (span row (x / 2)))) (sym lin.at_zero)
          ∙ sym (lin.at_xor 0 (span row (x / 2))))
]

double-IsLinear : IsLinear (λ (b : ℕ). 2 * b)
double-IsLinear = record { at_zero = refl; at_xor = λ a b. sym (bit_xor_double a b) }

low_bit-xor : (r h : ℕ) → r < 2 → bit_xor r (2 * h) ≡ r + 2 * h
low_bit-xor r h small =
    let e : bit_xor (r / 2) (2 * h / 2) ≡ h =
      ap (λ (t : ℕ). bit_xor t (2 * h / 2)) (omega arith)
      ∙ zero-bit_xor (2 * h / 2)
      ∙ omega arith in
    omega (arith, bit_xor_step r (2 * h), e)

span-bits : (n x : ℕ) → x < 2 ^ n → span (bits n) x ≡ x
unfolding span bits
span-bits zero x h = omega arith
span-bits (suc n) x h =
    let rest =
      span-map (λ (b : ℕ). 2 * b) double-IsLinear (bits n) (x / 2)
      ∙ ap (λ (t : ℕ). 2 * t) (span-bits n (x / 2) (omega (arith, pow-suc 2 n))) in
    let low : (if x % 2 == 1 then 1 else 0) ≡ x % 2 = ground arith in
    rw (rest, low) (low_bit-xor (x % 2) (x / 2) (omega arith) ∙ omega arith)

-- A linear map is the span of the images of the bits.
pub span-images : (f : ℕ → ℕ) → IsLinear f → (n x : ℕ) → x < 2 ^ n → span (map f (bits n)) x ≡ f x
span-images f lin n x h = span-map f lin (bits n) x ∙ ap f (span-bits n x h)
