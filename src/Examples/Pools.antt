-- ===== src/Examples/Pools.antt =====
-- Memory pools (include/mempool/mempool.h) at concrete inputs.
use replica_wbcache.Prelude.{◌+◌, ◌^◌, ◌≡◌, refl, true, false, some, none, List, [], ◌∷◌, arith}
use replica_wbcache.Mempool.{
  PoolAllocator, PoolType, new_pool, init_allocator, allocate, allocated_bytes, allocated_items,
  allocate_aligned,
}
use replica_wbcache.Mempool.Counts.{Call, take, give, run_calls, allocated-live}
use replica_wbcache.Mempool.Raws.{count_new, count_delete, count_delete-leaves}

abbrev words : PoolAllocator
words = record { sizeof = 8; type = none }

abbrev calls : List Call
calls = take words 0 10 ∷ take words 77 5 ∷ give words 1000 12 ∷ []

allocated-live_example :
    (allocated_bytes (run_calls calls new_pool) ≡ 24)
    × (allocated_items (run_calls calls new_pool) ≡ 3)
allocated-live_example =
    allocated-live calls (omega arith) (omega arith) (omega arith) (omega arith)

allocated_run : allocated_bytes (run_calls calls new_pool) ≡ 24
unfolding allocate allocated_bytes replica_wbcache.Mempool.deallocate
allocated_run = refl

init_allocator_run :
    (init_allocator true false 5 16 new_pool).0 ≡ record { sizeof = 16; type = some 5 }
unfolding init_allocator
init_allocator_run = refl

count_delete-leaves_example :
    (pool : PoolType) × (count_delete 9 (2 ^ 32 + 7) (count_new 1 (2 ^ 32 + 7) new_pool)
      ≡ some pool)
    × (allocated_items pool ≡ 0)
    × (allocated_bytes pool ≡ 2 ^ 32)
count_delete-leaves_example = count_delete-leaves 1 9 (2 ^ 32 + 7) (omega arith) (omega arith)
