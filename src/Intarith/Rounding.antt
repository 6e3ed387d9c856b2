-- ===== src/Intarith/Rounding.antt =====
-- The roundings of intarith.h where the result fits a word.
use native.Mathlib.Nat.{mod-lt, div-add-mod', mul-mod_left, div-eq_of_lt-le}
use replica_wbcache.Prelude.{
  ℕ, ◌+◌, ◌-◌, ◌*◌, ◌/◌, ◌%◌, ◌^◌, ◌≤◌, ◌<◌, ◌≡◌, ◌∙◌, ap, inl, inr, arith, ◌==◌, Bool-cases,
}
use replica_wbcache.Intarith.{u64, div_round_up, round_up_to}

module _ (n d : ℕ) (pos : 0 < d) (fits : n + d < 2 ^ 64) where
  above : n + d - n % d ≡ (n / d + 1) * d
  above = grind (arith, div-add-mod' n d, mod-lt n pos)

  whole : n + d - n % d < 2 ^ 64
  whole = omega (arith, mod-lt n pos)

  -- Where n + d fits 64 bits and d is not 0, round_up_to(n, d) is the least multiple of d that is
  -- not below n.
  pub round_up_to_least :
      (n ≤ round_up_to n d) × (round_up_to n d < n + d) × (round_up_to n d % d ≡ 0)
  unfolding round_up_to
  round_up_to_least =
      let zero_mod : (n + d - n % d) % d ≡ 0 =
        ap (λ (t : ℕ). t % d) above ∙ mul-mod_left (n / d + 1) d in
      ground (arith, zero_mod, mod-lt n pos, whole)

  quotient : (k : ℕ) → k * d ≤ n + d - 1 → n + d - 1 < (k + 1) * d → div_round_up n d ≡ k
  unfolding div_round_up
  quotient k low high =
      ap (λ (t : ℕ). t / d) (omega arith) ∙ div-eq_of_lt-le {k = k} d {m = n + d - 1} low high

  -- Where n + d fits 64 bits and d is not 0, div_round_up(n, d) times d is round_up_to(n, d).
  pub div_round_up-mul : div_round_up n d * d ≡ round_up_to n d
  unfolding round_up_to
  div_round_up-mul = elim (Bool-cases (n % d == 0)) [
    | inl even ↦ rw even (
        ap (λ (t : ℕ). t * d)
          (quotient (n / d) (grind (arith, div-add-mod' n d)) (grind (arith, div-add-mod' n d)))
        ∙ ground (arith, div-add-mod' n d))
    | inr odd ↦ rw odd (
        ap (λ (t : ℕ). t * d)
          (quotient (n / d + 1) (grind (arith, above, mod-lt n pos))
            (grind (arith, above, mod-lt n pos)))
        ∙ omega (arith, above, whole))
  ]

-- A number of 64 bits is itself.
pub u64-own : (n : ℕ) → n < 2 ^ 64 → u64 n ≡ n
u64-own n h = omega arith
