-- ===== src/Buffer/Blist/Query.antt =====
-- Questions about a whole buffer::list: alignment, zeros, comparison with memory and with another
-- list, its pools, and its checksum (common/buffer/buffer_list.cc).
pub mod Caches
pub mod Checksum
pub mod Equality
use Prim.Native.Nat.{Ordering, min, bit_xor}
use replica_wbcache.Crc.{u32, Crc32cFunc, spec_crc32c}
use replica_wbcache.InlineMemory.{all_zero}
use replica_wbcache.Prelude.{
  ℕ, zero, suc, ◌+◌, ◌-◌, Bool, true, false, ◌&&◌, ◌||◌, not, Option, none, some, List, [], ◌∷◌,
  ◌++◌, leb, ltb, ◌==◌, if◌then◌else◌, length, take, drop, get_elem?,
}
use replica_wbcache.Buffer.Store.{
  bad_access, out_of_fuel, Raw, Store, M, ◌>>=◌, ◌>>◌, pure, throw, reading, raw_at, put_raw,
  get_crc, set_crc, reassign_to_mempool, try_assign_to_mempool,
}
use replica_wbcache.Buffer.Ptr.{Ptr, is_aligned, is_n_align_sized, read_from, memcmp}
use replica_wbcache.Buffer.Blist.{Node, Blist}

unfoldable pub list_is_aligned : List Node → ℕ → M Bool
unfolding is_aligned
list_is_aligned [] align = pure true
list_is_aligned (n ∷ ns) align = do
  b ← is_aligned n.bptr align
  if b then list_is_aligned ns align else pure false

unfoldable pub list_is_n_align_sized : List Node → ℕ → Bool
unfolding is_n_align_sized
list_is_n_align_sized [] align = true
list_is_n_align_sized (n ∷ ns) align =
    is_n_align_sized n.bptr align && list_is_n_align_sized ns align

unfoldable pub is_aligned_size_and_memory : List Node → (align_size align_memory : ℕ) → M Bool
unfolding is_aligned is_n_align_sized
is_aligned_size_and_memory [] align_size align_memory = pure true
is_aligned_size_and_memory (n ∷ ns) align_size align_memory = do
  b ← is_aligned n.bptr align_memory
  if b && is_n_align_sized n.bptr align_size
      then is_aligned_size_and_memory ns align_size align_memory
      else pure false

unfoldable pub list_is_zero : List Node → M Bool
unfolding read_from
list_is_zero [] = pure true
list_is_zero (n ∷ ns) = do
  xs ← read_from n.bptr 0 n.bptr.m_len
  if all_zero xs then list_is_zero ns else pure false

abbrev same : Ordering → Bool
same Ordering.eq = true
same _ = false

-- The loop of contents_equal(const void*, uint64_t)
unfoldable pub memory_loop : List Node → List ℕ → M Bool
unfolding read_from memcmp
memory_loop [] other = pure false
memory_loop (n ∷ ns) other = do
  let round_length = min (length other) n.bptr.m_len
  xs ← read_from n.bptr 0 round_length
  if not (same (memcmp xs (take round_length other)))
      then pure false
      else if length other - round_length == 0
      then pure true
      else memory_loop ns (drop round_length other)

unfoldable pub contents_equal_memory : Blist → List ℕ → M Bool
unfolding memory_loop
contents_equal_memory l other =
    if not (l.len == length other) then pure false else memory_loop l.buffers other

-- The loop of contents_equal(const buffer_list&), as many turns as there is fuel
unfoldable pub contents_loop : ℕ → List Node → ℕ → List Node → ℕ → M Bool
unfolding read_from memcmp
contents_loop fuel [] this_off others other_off = pure true
contents_loop zero (n ∷ ns) this_off others other_off = throw out_of_fuel
contents_loop (suc fuel) (n ∷ ns) this_off [] other_off = throw bad_access
contents_loop (suc fuel) (n ∷ ns) this_off (m ∷ ms) other_off = do
  let len = min (n.bptr.m_len - this_off) (m.bptr.m_len - other_off)
  xs ← read_from n.bptr this_off len
  ys ← read_from m.bptr other_off len
  let this_done = this_off + len == n.bptr.m_len
  let other_done = ltb m.bptr.m_len (other_off + len)
  if not (same (memcmp xs ys))
      then pure false
      else contents_loop fuel (if this_done then ns else n ∷ ns)
          (if this_done then 0 else this_off + len) (if other_done then ms else m ∷ ms)
          (if other_done then 0 else other_off + len)

unfoldable pub contents_equal : ℕ → Blist → Blist → M Bool
unfolding contents_loop
contents_equal fuel l other =
    if not (l.len == other.len) then pure false else contents_loop fuel l.buffers 0 other.buffers 0

-- What happens to a raw buffer; a null pointer is used as it is.
abbrev change : (Raw → Raw) → Option ℕ → M (Unit {0})
change f none = throw bad_access
change f (some i) = do r ← reading (λ s. raw_at s i); put_raw i (f r)

unfoldable pub list_reassign_to_mempool : List Node → ℕ → M (Unit {0})
unfolding reassign_to_mempool
list_reassign_to_mempool [] pool = pure tt
list_reassign_to_mempool (n ∷ ns) pool =
    change (λ r. reassign_to_mempool r pool) n.bptr.m_raw >> list_reassign_to_mempool ns pool

unfoldable pub list_try_assign_to_mempool : List Node → ℕ → M (Unit {0})
unfolding try_assign_to_mempool
list_try_assign_to_mempool [] pool = pure tt
list_try_assign_to_mempool (n ∷ ns) pool =
    change (λ r. try_assign_to_mempool r pool) n.bptr.m_raw >> list_try_assign_to_mempool ns pool

abbrev given : Option ℕ → M ℕ
given none = throw bad_access
given (some n) = pure n

-- What one node makes of the checksum, given its cached one; its length becomes an `unsigned`.
unfoldable pub crc_node : Crc32cFunc → ℕ → Ptr → ℕ → Raw → Option (ℕ × ℕ) → M ℕ
unfolding read_from set_crc spec_crc32c
crc_node func crc p i r (some (base, value)) = if base == crc then pure value else do
  zeros ← given (spec_crc32c func (bit_xor base crc) none (u32 p.m_len))
  pure (bit_xor value zeros)
crc_node func crc p i r none = do
  xs ← read_from p 0 (u32 p.m_len)
  crc' ← given (spec_crc32c func crc (some xs) (u32 p.m_len))
  put_raw i (set_crc r (p.m_off, p.m_off + p.m_len) (crc, crc'))
  pure crc'

-- One turn of the loop of list::crc32c, on a node that is not empty
unfoldable pub crc_turn : Crc32cFunc → ℕ → Ptr → M ℕ
unfolding crc_node get_crc
crc_turn func crc p = do
  i ← given p.m_raw
  r ← reading (λ s. raw_at s i)
  crc_node func crc p i r (get_crc r (p.m_off, p.m_off + p.m_len))

-- list::crc32c, but for the counters of hits and misses
unfoldable pub crc32c : Crc32cFunc → List Node → ℕ → M ℕ
unfolding crc_turn
crc32c func [] crc = pure crc
crc32c func (n ∷ ns) crc =
    if n.bptr.m_len == 0
    then crc32c func ns crc
    else do crc' ← crc_turn func crc n.bptr; crc32c func ns crc'
