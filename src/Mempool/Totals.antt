-- ===== src/Mempool/Totals.antt =====
-- The sums over the shards of a pool.
use replica_wbcache.Prelude.{
  ℕ, zero, suc, ◌+◌, ◌-◌, ◌*◌, ◌/◌, ◌^◌, ◌≤◌, ◌<◌, ◌≡◌, refl, ap, ◌∙◌, List, [], ◌∷◌, length, arith,
}
use replica_wbcache.Prelude.Bits.{bit_and-le}
use replica_wbcache.Intarith.{u64}
use replica_wbcache.Mempool.{
  Shard, PoolType, new_pool, allocated_bytes, allocated_items, pick_a_shard, bump_at, adjust_count,
  sum_bytes, sum_items, negative,
}

pub length-bump_at :
    (ss : List Shard) (i items bytes : ℕ) → length (bump_at ss i items bytes) ≡ length ss
length-bump_at [] i items bytes = refl
length-bump_at (s ∷ ss) zero items bytes = refl
length-bump_at (s ∷ ss) (suc i) items bytes = ap suc (length-bump_at ss i items bytes)

-- `n` and `m` differ by a multiple of the word's size.
pub record SameWord (n m : ℕ) : Type 0 where
  pub up : ℕ
  pub down : ℕ
  pub same : n + up * 2 ^ 64 ≡ m + down * 2 ^ 64

pub sum_bytes-bump_at :
    (ss : List Shard) (i items bytes : ℕ)
    → i < length ss
    → SameWord (sum_bytes (bump_at ss i items bytes)) (sum_bytes ss + bytes)
unfolding sum_bytes
sum_bytes-bump_at [] i items bytes h = absurd (omega arith)
sum_bytes-bump_at (s ∷ ss) zero items bytes h = record {
  up = (s.allocated_bytes + bytes) / 2 ^ 64;
  down = 0;
  same = omega arith;
}
sum_bytes-bump_at (s ∷ ss) (suc i) items bytes h =
    let rest = sum_bytes-bump_at ss i items bytes (omega arith) in
    record { up = rest.up; down = rest.down; same = omega (arith, rest.same) }

pub sum_items-bump_at :
    (ss : List Shard) (i items bytes : ℕ)
    → i < length ss
    → SameWord (sum_items (bump_at ss i items bytes)) (sum_items ss + items)
unfolding sum_items
sum_items-bump_at [] i items bytes h = absurd (omega arith)
sum_items-bump_at (s ∷ ss) zero items bytes h = record {
  up = (s.allocated_items + items) / 2 ^ 64;
  down = 0;
  same = omega arith;
}
sum_items-bump_at (s ∷ ss) (suc i) items bytes h =
    let rest = sum_items-bump_at ss i items bytes (omega arith) in
    record { up = rest.up; down = rest.down; same = omega (arith, rest.same) }

pub pick_a_shard-lt : (self : ℕ) → pick_a_shard self < 32
unfolding pick_a_shard
pick_a_shard-lt self = omega (arith, bit_and-le (self / 2 ^ 3) 31)

-- What was taken and what was given back, against a pool's sums.
pub record IsBalanced (pool : PoolType) (items freed_items bytes freed_bytes : ℕ) : Type 0 where
  pub shards : length pool.shard ≡ 32
  pub of_items : SameWord (sum_items pool.shard + freed_items) items
  pub of_bytes : SameWord (sum_bytes pool.shard + freed_bytes) bytes

SameWord-add :
    (n m k d : ℕ) {s : ℕ} → SameWord s (n + d) → SameWord (n + k) m → SameWord (s + k) (m + d)
SameWord-add n m k d a b = record {
  up = a.up + b.up;
  down = a.down + b.down;
  same = omega (arith, a.same, b.same);
}

-- Adding a negative word is giving back.
SameWord-sub :
    (n m k d : ℕ) {s : ℕ}
    → SameWord s (n + negative d)
    → SameWord (n + k) m
    → SameWord (s + (k + d)) m
SameWord-sub n m k d a b = record {
  up = a.up + b.up;
  down = a.down + b.down + (d + 2 ^ 64 - 1) / 2 ^ 64;
  same = omega (arith, a.same, b.same);
}

-- A sum of words is the sum of what they were taken of.
SameWord-word : (m t : ℕ) {s : ℕ} → SameWord s (m + u64 t) → SameWord s (m + t)
SameWord-word m t a = record { up = a.up + t / 2 ^ 64; down = a.down; same = omega (arith, a.same) }

SameWord-word_left : (k t m s : ℕ) → SameWord (s + (k + u64 t)) m → SameWord (s + (k + t)) m
SameWord-word_left k t m s a = record {
  up = a.up;
  down = a.down + t / 2 ^ 64;
  same = omega (arith, a.same);
}

module _ (pool : PoolType) (i fi b fb : ℕ) (bal : IsBalanced pool i fi b fb) (self : ℕ) where
  inside : pick_a_shard self < length pool.shard
  inside = omega (arith, bal.shards, pick_a_shard-lt self)

  -- What one thread takes, and what one gives back, which may be another.
  pub IsBalanced-take :
      (n t : ℕ) → IsBalanced (adjust_count self n (u64 t) pool) (i + n) fi (b + t) fb
  unfolding adjust_count
  IsBalanced-take n t = record {
    shards = length-bump_at pool.shard (pick_a_shard self) n (u64 t) ∙ bal.shards;
    of_items =
        SameWord-add (sum_items pool.shard) i fi n
          (sum_items-bump_at pool.shard (pick_a_shard self) n (u64 t) inside) bal.of_items;
    of_bytes = SameWord-word b t (
        SameWord-add (sum_bytes pool.shard) b fb (u64 t)
          (sum_bytes-bump_at pool.shard (pick_a_shard self) n (u64 t) inside) bal.of_bytes);
  }

  pub IsBalanced-give :
      (n t : ℕ)
      → IsBalanced (adjust_count self (negative n) (negative (u64 t)) pool) i (fi + n) b (fb + t)
  unfolding adjust_count
  IsBalanced-give n t = record {
    shards =
        length-bump_at pool.shard (pick_a_shard self) (negative n) (negative (u64 t)) ∙ bal.shards;
    of_items =
        SameWord-sub (sum_items pool.shard) i fi n
          (sum_items-bump_at pool.shard (pick_a_shard self) (negative n) (negative (u64 t)) inside)
          bal.of_items;
    of_bytes = SameWord-word_left fb t b _ (
        SameWord-sub (sum_bytes pool.shard) b fb (u64 t)
          (sum_bytes-bump_at pool.shard (pick_a_shard self) (negative n) (negative (u64 t)) inside)
          bal.of_bytes);
  }

-- A balanced pool shows what is out, if that is below half of the words and not negative.
pub allocated_bytes-IsBalanced :
    (pool : PoolType) (i fi b fb : ℕ)
    → IsBalanced pool i fi b fb
    → fb ≤ b
    → b - fb < 2 ^ 63
    → allocated_bytes pool ≡ b - fb
unfolding allocated_bytes
allocated_bytes-IsBalanced pool i fi b fb bal h k = ground (arith, bal.of_bytes.same)

pub allocated_items-IsBalanced :
    (pool : PoolType) (i fi b fb : ℕ)
    → IsBalanced pool i fi b fb
    → fi ≤ i
    → i - fi < 2 ^ 63
    → allocated_items pool ≡ i - fi
unfolding allocated_items
allocated_items-IsBalanced pool i fi b fb bal h k = ground (arith, bal.of_items.same)

pub new_pool-IsBalanced : IsBalanced new_pool 0 0 0 0
unfolding sum_items sum_bytes
new_pool-IsBalanced = record {
  shards = refl;
  of_items = record { up = 0; down = 0; same = refl };
  of_bytes = record { up = 0; down = 0; same = refl };
}
