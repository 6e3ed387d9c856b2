-- ===== src/Buffer/Blist/Append.antt =====
-- The operations of buffer::list that put bytes or windows behind (or before) what is there.
pub mod Sync
pub mod Tail
pub mod Refill
pub mod Bytes
pub mod Window
use Prim.Native.Nat.{min}
use replica_wbcache.Prelude.{
  ℕ, ◌+◌, ◌-◌, Bool, true, false, ◌&&◌, Option, none, some, List, [], ◌∷◌, ◌++◌, leb, ltb, ◌==◌,
  if◌then◌else◌, length, take, drop,
}
use replica_wbcache.Intarith.{u64, round_up_to}
use replica_wbcache.Buffer.Store.{
  Store, M, ◌>>=◌, ◌>>◌, pure, assert, create_combined, create_page_aligned, create,
}
use replica_wbcache.Buffer.Ptr
use replica_wbcache.Buffer.Ptr.{
  Ptr, end, null_ptr, ptr_of_raw, ptr_of_length, sub_ptr, set_length, append_zeros, zero_all,
  raw_id,
}
use replica_wbcache.Buffer.Blist.{
  Node, Blist, empty, new_node, last?, cache_ptr, put_cache_ptr,
  get_append_buffer_unused_tail_length, push_cached, sync_tail, clear, push_back, list_mempool_type,
  find_node, set_node,
}

abbrev pub spec_buffer_alloc_unit : ℕ
spec_buffer_alloc_unit = 4096

-- A fresh raw buffer as an empty last node that is cached.
push_fresh : Blist → ℕ → M Blist
unfolding ptr_of_raw set_length push_cached
push_fresh l i = do p ← ptr_of_raw i; q ← set_length p 0; push_cached l q

-- The length of the raw buffer that refill_append_space makes, given sizeof(raw_combined).
unfoldable pub refill_length : ℕ → ℕ → ℕ
refill_length size len =
    let need = u64 (round_up_to len 8 + size) in round_up_to need spec_buffer_alloc_unit - size

unfoldable pub refill_append_space : Blist → ℕ → M Blist
unfolding refill_length push_fresh list_mempool_type create_combined
refill_append_space l len s =
    (do
      pool ← list_mempool_type l
      i ← create_combined (refill_length s.platform.sizeof_raw_combined len) 0 pool
      push_fresh l i)
      s

-- `_tail_pnode_cache->append(...)` and the like
abbrev on_cache : (Ptr → M Ptr) → Blist → M Blist
on_cache f l = do p ← cache_ptr l; q ← f p; pure (put_cache_ptr l q)

unfoldable pub append_char : Blist → ℕ → M Blist
unfolding push_fresh cache_ptr put_cache_ptr sync_tail list_mempool_type create_combined
    get_append_buffer_unused_tail_length
append_char l c s =
    (do
      gap ← get_append_buffer_unused_tail_length l
      l' ←
          if gap == 0
          then (do
            pool ← list_mempool_type l
            i ← create_combined (spec_buffer_alloc_unit - s.platform.sizeof_raw_combined) 0 pool
            push_fresh l i)
          else sync_tail l
      l'' ← on_cache (λ p. Ptr.append p (c ∷ [])) l'
      pure (record l'' { len = l''.len + 1 }))
      s

-- The first part of append and append_zero: what fits behind the cached node goes there.
unfoldable pub append_first : (Ptr → M Ptr) → ℕ → Blist → M Blist
unfolding cache_ptr put_cache_ptr sync_tail
append_first f first l = if ltb 0 first then (do l' ← sync_tail l; on_cache f l') else pure l

-- append(const char*, uint64_t)
unfoldable pub append_bytes : Blist → List ℕ → M Blist
unfolding append_first refill_append_space cache_ptr put_cache_ptr
    get_append_buffer_unused_tail_length
append_bytes l bytes = do
  let l₁ = record l { len = l.len + length bytes }
  room ← get_append_buffer_unused_tail_length l₁
  let first = min (length bytes) room
  l₂ ← append_first (λ p. Ptr.append p (take first bytes)) first l₁
  let left = length bytes - first
  if ltb 0 left
      then (do l₃ ← refill_append_space l₂ left; on_cache (λ p. Ptr.append p (drop first bytes)) l₃)
      else pure l₂

unfoldable pub append_zero : Blist → ℕ → M Blist
unfolding append_first refill_append_space cache_ptr put_cache_ptr
    get_append_buffer_unused_tail_length
append_zero l len = do
  let l₁ = record l { len = l.len + len }
  room ← get_append_buffer_unused_tail_length l₁
  let first = min len room
  l₂ ← append_first (λ p. append_zeros p first) first l₁
  let left = len - first
  if ltb 0 left
      then (do
        l₃ ← refill_append_space l₂ left
        on_cache (λ p. do q ← set_length p left; zero_all q false; pure q) l₃)
      else pure l₂

-- A place in memory: a raw buffer and an index into its data.
pub record Place : Type 0 where
  pub raw : ℕ
  pub index : ℕ

unfoldable pub place : Ptr → ℕ → M Place
unfolding raw_id
place p at = do i ← raw_id p; pure (record { raw = i; index = at })

-- The place that a contiguous_filler is made from is the start of the hole.
unfoldable pub append_hole : Blist → ℕ → M (Blist × Place)
unfolding place refill_append_space cache_ptr put_cache_ptr sync_tail
    get_append_buffer_unused_tail_length
append_hole l len = do
  let l₁ = record l { len = l.len + len }
  room ← get_append_buffer_unused_tail_length l₁
  if ltb room len
      then (do
        l₂ ← refill_append_space l₁ len
        l₃ ← on_cache (λ p. set_length p len) l₂
        p ← cache_ptr l₃
        at ← place p p.m_off
        pure (l₃, at))
      else (do
        l₂ ← sync_tail l₁
        l₃ ← on_cache (λ p. set_length p (p.m_len + len)) l₂
        p ← cache_ptr l₃
        at ← place p (end p - len)
        pure (l₃, at))

unfoldable pub prepend_zero : Blist → ℕ → M Blist
unfolding ptr_of_raw create zero_all new_node
prepend_zero l len = do
  i ← create len
  p ← ptr_of_raw i
  zero_all p false
  n ← new_node p
  pure (record l { buffers = n ∷ l.buffers; len = l.len + len; num = l.num + 1 })

-- The reserve_t of the source also holds the addresses of the two lengths to be counted up.
unfoldable pub obtain_contiguous_space : Blist → ℕ → M (Blist × Place)
unfolding place create push_fresh cache_ptr sync_tail get_append_buffer_unused_tail_length
obtain_contiguous_space l len = do
  room ← get_append_buffer_unused_tail_length l
  l' ← if ltb room len then (do i ← create len; push_fresh l i) else sync_tail l
  p ← cache_ptr l'
  at ← place p (end p)
  pure (l', at)

unfoldable pub reserve : Blist → ℕ → M Blist
unfolding create_page_aligned push_fresh get_append_buffer_unused_tail_length
reserve l size = do
  room ← get_append_buffer_unused_tail_length l
  if ltb room size then (do i ← create_page_aligned size; push_fresh l i) else pure l

abbrev same_raw : Option ℕ → Option ℕ → Bool
same_raw none none = true
same_raw (some i) (some j) = i == j
same_raw _ _ = false

abbrev joins : Option Node → Ptr → ℕ → Bool
joins none p off = false
joins (some n) p off = same_raw n.bptr.m_raw p.m_raw && end n.bptr == p.m_off + off

abbrev grow_node : Option Node → ℕ → M (Option Node)
grow_node none len = pure none
grow_node (some n) len = do
  q ← set_length n.bptr (n.bptr.m_len + len)
  pure (some (record n { bptr = q }))

-- The list with another last node.
unfoldable pub set_last : Option Node → List Node → List Node
set_last none ns = ns
set_last (some n) [] = []
set_last (some n) (m ∷ []) = n ∷ []
set_last (some n) (m ∷ k ∷ ns) = m ∷ set_last (some n) (k ∷ ns)

-- append(const ptr&, uint64_t, uint64_t)
unfoldable pub append_window : Blist → Ptr → ℕ → ℕ → M Blist
unfolding set_last last? set_length sub_ptr new_node
append_window l p off len = do
  assert (leb (u64 (len + off)) p.m_len)
  if joins (last? l.buffers) p off
      then (do
        n ← grow_node (last? l.buffers) len
        pure (record l { buffers = set_last n l.buffers; len = l.len + len }))
      else (do
        q ← sub_ptr p off len
        n ← new_node q
        pure (record l { buffers = l.buffers ++ n ∷ []; len = l.len + len; num = l.num + 1 }))

-- The nodes of another list, cloned.
unfoldable pub clone_nodes : List Node → M (List Node)
unfolding new_node
clone_nodes [] = pure []
clone_nodes (n ∷ ns) = do m ← new_node n.bptr; ms ← clone_nodes ns; pure (m ∷ ms)

-- append(const buffer_list&)
unfoldable pub append_list : Blist → Blist → M Blist
unfolding clone_nodes
append_list l other = do
  ns ← clone_nodes other.buffers
  pure (record l { buffers = l.buffers ++ ns; len = l.len + other.len; num = l.num + other.num })

-- The copy constructor, operator=(const list&) and share, for another list than this one
unfoldable pub copy_list : Blist → M Blist
unfolding clone_nodes
copy_list other = do
  ns ← clone_nodes other.buffers
  pure (record { buffers = ns; cache = none; len = other.len; num = other.num })

unfoldable pub append_each : Blist → List Node → M Blist
unfolding append_window
append_each l [] = pure l
append_each l (n ∷ ns) = do l' ← append_window l n.bptr 0 n.bptr.m_len; append_each l' ns

unfoldable pub claim_append_piecewise : Blist → Blist → M (Blist × Blist)
unfolding append_each clear
claim_append_piecewise l other = do l' ← append_each l other.buffers; pure (l', clear other)
