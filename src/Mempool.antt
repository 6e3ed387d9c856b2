-- ===== src/Mempool.antt =====
-- include/mempool/mempool.h and common/buffer/mempool.cc: memory pools that count what is
-- allocated, in shards that the thread chooses.
pub mod Totals
pub mod Counts
pub mod Raws
use Prim.Native.Nat.{bit_and}
use replica_wbcache.Prelude.{
  ℕ, zero, suc, ◌+◌, ◌-◌, ◌*◌, ◌/◌, ◌%◌, ◌^◌, Bool, ◌||◌, Option, none, some, List, [], ◌∷◌, ◌==◌,
  ltb, if◌then◌else◌, get_elem?, set, replicate,
}
use replica_wbcache.Intarith.{u64}

abbrev pub num_shard_bits : ℕ
num_shard_bits = 5

abbrev pub num_shards : ℕ
num_shards = 32

pub record Shard : Type 0 where
  pub allocated_bytes : ℕ
  pub allocated_items : ℕ

-- The name stands for the address by which the map finds it; the items are a signed word.
pub record ObjectAttr : Type 0 where
  pub type_name : ℕ
  pub item_size : ℕ
  pub object_items : ℕ

pub record PoolType : Type 0 where
  pub shard : List Shard
  pub object_type_map : List ObjectAttr

abbrev pub new_pool : PoolType
new_pool = record {
  shard = replicate num_shards (record { allocated_bytes = 0; allocated_items = 0 });
  object_type_map = [];
}

-- `pthread_self()` is an argument.
unfoldable pub pick_a_shard : ℕ → ℕ
pick_a_shard self = bit_and (self / 2 ^ 3) (num_shards - 1)

-- `-n` as a word
abbrev pub negative : ℕ → ℕ
negative n = u64 (2 ^ 64 - u64 n)

-- Additions of words to the two counters of a shard.
abbrev pub bump : (items bytes : ℕ) → Shard → Shard
bump items bytes s = record s {
  allocated_bytes = u64 (s.allocated_bytes + bytes);
  allocated_items = u64 (s.allocated_items + items);
}

abbrev pub bump_at : List Shard → ℕ → (items bytes : ℕ) → List Shard
bump_at [] i items bytes = []
bump_at (s ∷ ss) zero items bytes = bump items bytes s ∷ ss
bump_at (s ∷ ss) (suc i) items bytes = s ∷ bump_at ss i items bytes

unfoldable pub adjust_count : (self items bytes : ℕ) → PoolType → PoolType
unfolding pick_a_shard
adjust_count self items bytes pool = record pool {
  shard = bump_at pool.shard (pick_a_shard self) items bytes;
}

unfoldable pub sum_bytes : List Shard → ℕ
sum_bytes [] = 0
sum_bytes (s ∷ ss) = s.allocated_bytes + sum_bytes ss

unfoldable pub sum_items : List Shard → ℕ
sum_items [] = 0
sum_items (s ∷ ss) = s.allocated_items + sum_items ss

-- `result < 0` of a signed word
abbrev not_negative : ℕ → ℕ
not_negative result = if ltb result (2 ^ 63) then result else 0

unfoldable pub allocated_bytes : PoolType → ℕ
unfolding sum_bytes
allocated_bytes pool = not_negative (u64 (sum_bytes pool.shard))

unfoldable pub allocated_items : PoolType → ℕ
unfolding sum_items
allocated_items pool = not_negative (u64 (sum_items pool.shard))

unfoldable pub find_type : ℕ → List ObjectAttr → Option ObjectAttr
find_type name [] = none
find_type name (t ∷ ts) = if t.type_name == name then some t else find_type name ts

abbrev registered : Option ObjectAttr → (name size : ℕ) → List ObjectAttr → List ObjectAttr
registered (some t) name size ts = ts
registered none name size ts = record { type_name = name; item_size = size; object_items = 0 } ∷ ts

-- The attributes stand in the map under the name afterwards.
unfoldable pub get_type : (name item_size : ℕ) → PoolType → PoolType
unfolding find_type
get_type name size pool = record pool {
  object_type_map = registered (find_type name pool.object_type_map) name size pool.object_type_map;
}

-- pool_allocator<pool, T>: `type` is null for a type that is not tracked.
pub record PoolAllocator : Type 0 where
  pub sizeof : ℕ
  pub type : Option ℕ

unfoldable pub init_allocator :
    (debug_mode force_register : Bool) → (name sizeof : ℕ) → PoolType → PoolAllocator × PoolType
unfolding get_type
init_allocator debug_mode force_register name size pool =
    if debug_mode || force_register
    then (record { sizeof = size; type = some name }, get_type name size pool)
    else (record { sizeof = size; type = none }, pool)

abbrev add_items : ℕ → ObjectAttr → ObjectAttr
add_items n t = record t { object_items = u64 (t.object_items + n) }

unfoldable pub track : Option ℕ → ℕ → List ObjectAttr → List ObjectAttr
track none n ts = ts
track (some name) n [] = []
track (some name) n (t ∷ ts) =
    if t.type_name == name then add_items n t ∷ ts else t ∷ track (some name) n ts

unfoldable pub allocate : PoolAllocator → (self n : ℕ) → PoolType → PoolType
unfolding adjust_count track
allocate a self n pool =
    let allocating_size = u64 (a.sizeof * n) in
    record (adjust_count self n allocating_size pool) {
      object_type_map = track a.type n pool.object_type_map;
    }

unfoldable pub deallocate : PoolAllocator → (self n : ℕ) → PoolType → PoolType
unfolding adjust_count track
deallocate a self n pool =
    let releasing_size = u64 (a.sizeof * n) in
    record (adjust_count self (negative n) (negative releasing_size) pool) {
      object_type_map = track a.type (negative n) pool.object_type_map;
    }

-- `rc` is what posix_memalign returns; `none` is the bad_alloc.
unfoldable pub allocate_aligned : PoolAllocator → (rc self n : ℕ) → PoolType → Option PoolType
unfolding allocate
allocate_aligned a rc self n pool = if rc == 0 then some (allocate a self n pool) else none

unfoldable pub deallocate_aligned : PoolAllocator → (self n : ℕ) → PoolType → PoolType
unfolding deallocate
deallocate_aligned a self n pool = deallocate a self n pool
