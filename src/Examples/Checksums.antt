-- ===== src/Examples/Checksums.antt =====
-- The checksum of a list (common/buffer/buffer_list.cc) at a concrete input.
use mathlib.Core.Path.{subst}
use replica_wbcache.Prelude.{
  ℕ, zero, suc, ◌+◌, ◌≡◌, refl, sym, ◌≤◌, some, List, [], ◌∷◌, take, drop, ap, ◌∙◌, arith,
}
use replica_wbcache.Buffer.Store.{Raw, Store}
use replica_wbcache.Buffer.Ptr.{ptr}
use replica_wbcache.Buffer.Ptr.Access.{IsWindow}
use replica_wbcache.Buffer.Blist.{Node}
use replica_wbcache.Buffer.Blist.Query.{crc32c}
use replica_wbcache.Buffer.Blist.Query.Caches.{IsFresh, AllFresh, Sums, hashed}
use replica_wbcache.Buffer.Blist.Query.Checksum.{crc32c-Sums}
use replica_wbcache.Crc.{u32}
use replica_wbcache.Crc.Linear.{zero_byte}
use replica_wbcache.Crc.Restart.{crc_bytes}
use replica_wbcache.Examples.Crcs.{bitwise_func, bitwise_func-TakesZeros, bitwise_func-TakesBytes}

-- The checksum of 11, 12 and 13 from 5 on
abbrev cached_crc : ℕ
cached_crc = 2237015653

cached_run : crc_bytes 5 (11 ∷ 12 ∷ 13 ∷ []) ≡ cached_crc
unfolding crc_bytes zero_byte
cached_run = refl

-- One raw buffer, whose first three bytes have a cached checksum.
abbrev raw : Raw
raw = record {
  m_data = 11 ∷ 12 ∷ 13 ∷ 14 ∷ 15 ∷ [];
  address = 4096;
  mempool_type_id = 0;
  last_crc_offset = (0, 3);
  last_crc_val = (5, cached_crc);
}

abbrev store : Store
store = record {
  raws = raw ∷ [];
  next_node = 2;
  platform = record { page_size = 4096; sizeof_raw_combined = 112; alignof_raw_combined = 8 };
  allocator = record { memalign = λ k a n. some 4096; memory = λ k i. 0 };
}

abbrev nodes : List Node
nodes = record { id = 0; bptr = ptr 0 0 3 } ∷ record { id = 1; bptr = ptr 0 2 3 } ∷ []

window : (off len : ℕ) → off + len ≤ 5 → IsWindow store (ptr 0 off len)
window off len h = record {
  i = 0;
  r = raw;
  is_raw = refl;
  holds = refl;
  fits = h;
  small = omega arith;
}

raw-IsFresh : IsFresh raw
raw-IsFresh = record {
  raw_bytes = (omega arith, (omega arith, (omega arith, (omega arith, (omega arith, tt)))));
  start = omega arith;
  sums = λ from len e fits.
      let at : 0 ≡ from = ap (λ (q : ℕ × ℕ). q.0) e in
      let to : 3 ≡ from + len = ap (λ (q : ℕ × ℕ). q.1) e in
      let size : 3 ≡ len = omega (arith, at, to) in
      sym cached_run
      ∙ ap (λ (k : ℕ). crc_bytes 5 (take (u32 k) raw.m_data)) size
      ∙ ap (λ (k : ℕ). crc_bytes 5 (take (u32 len) (drop k raw.m_data))) at;
}

raw_inj : {a b : Raw} → some a ≡ some b → a ≡ b
raw_inj e = cc

store-AllFresh : AllFresh store
store-AllFresh zero r at = subst IsFresh (raw_inj at) raw-IsFresh
store-AllFresh (suc i) r at = cc

crc32c-Sums_example :
    Sums store (crc_bytes 9 (hashed store nodes)) (crc32c bitwise_func nodes 9 store)
crc32c-Sums_example =
    crc32c-Sums bitwise_func bitwise_func-TakesZeros bitwise_func-TakesBytes store nodes 9
      (window 0 3 (omega arith), (window 2 3 (omega arith), tt)) store-AllFresh (omega arith)
