-- ===== src/Mempool/Raws.antt =====
-- include/buffer/buffer_raw.h: what a raw buffer's constructor, destructor, set_len and
-- reassign_to_mempool tell the pools.
use replica_wbcache.Prelude.{
  ℕ, ◌+◌, ◌-◌, ◌%◌, ◌^◌, ◌<◌, ◌≡◌, refl, ap, ◌∙◌, Option, none, some, ◌==◌, ltb, if◌then◌else◌,
  lt→ltb, arith,
}
use replica_wbcache.Intarith.{u64}
use replica_wbcache.Mempool.{
  PoolType, negative, adjust_count, new_pool, allocated_bytes, allocated_items,
}
use replica_wbcache.Mempool.Totals.{
  IsBalanced, IsBalanced-take, IsBalanced-give, new_pool-IsBalanced, allocated_bytes-IsBalanced,
  allocated_items-IsBalanced,
}

-- `-(int)m_len` as a word of 64 bits; `none` is the overflow of -INT_MIN.
unfoldable pub minus_int : ℕ → Option ℕ
minus_int m_len =
    let i = m_len % 2 ^ 32 in
    if ltb i (2 ^ 31) then some (negative i) else if i == 2 ^ 31 then none else some (2 ^ 32 - i)

unfoldable pub count_new : (self m_len : ℕ) → PoolType → PoolType
count_new self m_len pool = adjust_count self 1 (u64 m_len) pool

abbrev adjusted : Option ℕ → (ℕ → PoolType) → Option PoolType
adjusted none k = none
adjusted (some bytes) k = some (k bytes)

unfoldable pub count_delete : (self m_len : ℕ) → PoolType → Option PoolType
unfolding minus_int
count_delete self m_len pool =
    adjusted (minus_int m_len) (λ bytes. adjust_count self (negative 1) bytes pool)

abbrev counted : Option PoolType → (PoolType → PoolType) → Option PoolType
counted none k = none
counted (some pool) k = some (k pool)

-- set_len, which takes `m_len` to `len`
unfoldable pub count_set_len : (self m_len len : ℕ) → PoolType → Option PoolType
unfolding count_delete count_new
count_set_len self m_len len pool = counted (count_delete self m_len pool) (count_new self len)

abbrev both : PoolType → Option PoolType → Option (PoolType × PoolType)
both to none = none
both to (some from) = some (from, to)

-- reassign_to_mempool between two pools
unfoldable pub count_reassign :
    (self m_len : ℕ) → (from to : PoolType) → Option (PoolType × PoolType)
unfolding count_delete count_new
count_reassign self m_len from to = both (count_new self m_len to) (count_delete self m_len from)

minus_int-small :
    (m_len : ℕ) → m_len % 2 ^ 32 < 2 ^ 31 → minus_int m_len ≡ some (negative (u64 (m_len % 2 ^ 32)))
unfolding minus_int
minus_int-small m_len h =
    let fits : m_len % 2 ^ 32 ≡ u64 (m_len % 2 ^ 32) = omega arith in
    rw (lt→ltb (m_len % 2 ^ 32) (2 ^ 31) h) (ap (λ (i : ℕ). some (negative i)) fits)

-- The destructor gives back what the length is modulo 2^32.
count_delete-IsBalanced :
    (self m_len : ℕ) (pool : PoolType) (i fi b fb : ℕ)
    → m_len % 2 ^ 32 < 2 ^ 31
    → IsBalanced pool i fi b fb
    → (pool' : PoolType) × (count_delete self m_len pool ≡ some pool')
      × IsBalanced pool' i (fi + 1) b (fb + m_len % 2 ^ 32)
unfolding count_delete
count_delete-IsBalanced self m_len pool i fi b fb h bal = (
  adjust_count self (negative 1) (negative (u64 (m_len % 2 ^ 32))) pool,
  rw (minus_int-small m_len h) refl,
  IsBalanced-give pool i fi b fb bal self 1 (m_len % 2 ^ 32),
)

-- For a raw buffer of fewer than 2^63 bytes whose length modulo 2^32 is below 2^31, construction
-- and destruction, by any two threads, leave no item in the pool, and leave as many bytes as the
-- length exceeds its remainder by 2^32.
pub count_delete-leaves :
    (self self' m_len : ℕ)
    → m_len % 2 ^ 32 < 2 ^ 31
    → m_len < 2 ^ 63
    → (pool : PoolType) × (count_delete self' m_len (count_new self m_len new_pool) ≡ some pool)
      × (allocated_items pool ≡ 0)
      × (allocated_bytes pool ≡ m_len - m_len % 2 ^ 32)
unfolding count_new
count_delete-leaves self self' m_len h small =
    let born = IsBalanced-take new_pool 0 0 0 0 new_pool-IsBalanced self 1 m_len in
    let (pool, runs, dead) =
      count_delete-IsBalanced self' m_len (adjust_count self 1 (u64 m_len) new_pool) (0 + 1) 0
        (0 + m_len) 0 h born in
    (
      pool,
      runs,
      allocated_items-IsBalanced pool (0 + 1) (0 + 1) (0 + m_len) (0 + m_len % 2 ^ 32) dead
          (omega arith) (omega arith),
      allocated_bytes-IsBalanced pool (0 + 1) (0 + 1) (0 + m_len) (0 + m_len % 2 ^ 32) dead
            (omega arith) (omega arith)
          ∙ omega arith,
    )
