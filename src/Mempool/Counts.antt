-- ===== src/Mempool/Counts.antt =====
-- What a pool reports after any sequence of allocations and deallocations by any threads.
use replica_wbcache.Prelude.{ℕ, ◌+◌, ◌-◌, ◌*◌, ◌^◌, ◌≤◌, ◌<◌, ◌≡◌, refl, List, [], ◌∷◌, arith}
use replica_wbcache.Mempool.{
  PoolType, PoolAllocator, new_pool, allocate, deallocate, allocated_bytes, allocated_items,
}
use replica_wbcache.Mempool.Totals.{
  IsBalanced, IsBalanced-take, IsBalanced-give, new_pool-IsBalanced, allocated_bytes-IsBalanced,
  allocated_items-IsBalanced,
}

-- One call, and the thread that makes it.
pub data Call : Type 0 where
  take : (a : PoolAllocator) (self n : ℕ) → Call
  give : (a : PoolAllocator) (self n : ℕ) → Call

abbrev pub run_call : Call → PoolType → PoolType
run_call (take a self n) pool = allocate a self n pool
run_call (give a self n) pool = deallocate a self n pool

abbrev pub run_calls : List Call → PoolType → PoolType
run_calls [] pool = pool
run_calls (c ∷ cs) pool = run_calls cs (run_call c pool)

abbrev pub taken_items : List Call → ℕ
taken_items [] = 0
taken_items (take a self n ∷ cs) = n + taken_items cs
taken_items (give a self n ∷ cs) = taken_items cs

abbrev pub given_items : List Call → ℕ
given_items [] = 0
given_items (take a self n ∷ cs) = given_items cs
given_items (give a self n ∷ cs) = n + given_items cs

abbrev pub taken_bytes : List Call → ℕ
taken_bytes [] = 0
taken_bytes (take a self n ∷ cs) = a.sizeof * n + taken_bytes cs
taken_bytes (give a self n ∷ cs) = taken_bytes cs

abbrev pub given_bytes : List Call → ℕ
given_bytes [] = 0
given_bytes (take a self n ∷ cs) = given_bytes cs
given_bytes (give a self n ∷ cs) = a.sizeof * n + given_bytes cs

-- The attributes of types do not enter.
IsBalanced-shards :
    {pool pool' : PoolType} {i fi b fb i' fi' b' fb' : ℕ}
    → pool'.shard ≡ pool.shard
    → i' ≡ i
    → fi' ≡ fi
    → b' ≡ b
    → fb' ≡ fb
    → IsBalanced pool i fi b fb
    → IsBalanced pool' i' fi' b' fb'
IsBalanced-shards same p q r t bal = record {
  shards = rw same bal.shards;
  of_items = rw (same, p, q) bal.of_items;
  of_bytes = rw (same, r, t) bal.of_bytes;
}

run_calls-IsBalanced :
    (cs : List Call) (pool : PoolType) (i fi b fb : ℕ)
    → IsBalanced pool i fi b fb
    → IsBalanced
        (run_calls cs pool)
        (i + taken_items cs)
        (fi + given_items cs)
        (b + taken_bytes cs)
        (fb + given_bytes cs)
unfolding allocate deallocate
run_calls-IsBalanced [] pool i fi b fb bal =
    IsBalanced-shards refl (omega arith) (omega arith) (omega arith) (omega arith) bal
run_calls-IsBalanced (take a self n ∷ cs) pool i fi b fb bal =
    IsBalanced-shards refl (omega arith) (omega arith) (omega arith) (omega arith) (
      run_calls-IsBalanced cs (allocate a self n pool) (i + n) fi (b + a.sizeof * n) fb (
        IsBalanced-shards refl refl refl refl refl
          (IsBalanced-take pool i fi b fb bal self n (a.sizeof * n))))
run_calls-IsBalanced (give a self n ∷ cs) pool i fi b fb bal =
    IsBalanced-shards refl (omega arith) (omega arith) (omega arith) (omega arith) (
      run_calls-IsBalanced cs (deallocate a self n pool) i (fi + n) b (fb + a.sizeof * n) (
        IsBalanced-shards refl refl refl refl refl
          (IsBalanced-give pool i fi b fb bal self n (a.sizeof * n))))

-- After any sequence of allocate and deallocate calls by any threads on a new pool,
-- allocated_bytes and allocated_items are what was taken less what was given back, if neither is
-- negative nor 2^63 or more.
pub allocated-live :
    (cs : List Call)
    → given_bytes cs ≤ taken_bytes cs
    → taken_bytes cs - given_bytes cs < 2 ^ 63
    → given_items cs ≤ taken_items cs
    → taken_items cs - given_items cs < 2 ^ 63
    → (allocated_bytes (run_calls cs new_pool) ≡ taken_bytes cs - given_bytes cs)
      × (allocated_items (run_calls cs new_pool) ≡ taken_items cs - given_items cs)
allocated-live cs h k p q =
    let bal : IsBalanced (run_calls cs new_pool) (taken_items cs) (given_items cs) (taken_bytes cs)
        (given_bytes cs) =
      IsBalanced-shards refl (omega arith) (omega arith) (omega arith) (omega arith)
        (run_calls-IsBalanced cs new_pool 0 0 0 0 new_pool-IsBalanced) in
    (
      allocated_bytes-IsBalanced (run_calls cs new_pool) (taken_items cs) (given_items cs)
          (taken_bytes cs) (given_bytes cs) bal h k,
      allocated_items-IsBalanced (run_calls cs new_pool) (taken_items cs) (given_items cs)
          (taken_bytes cs) (given_bytes cs) bal p q,
    )
