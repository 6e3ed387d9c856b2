-- ===== src/Buffer/Blist.antt =====
-- buffer::list (include/buffer/buffer_list.h, common/buffer/buffer_list.cc): its state, the tail
-- cache and the operations that only link nodes. `buffers_t` is the sequence of its nodes.
pub mod Append
pub mod Contents
pub mod Edit
pub mod Iter
pub mod Query
pub mod Rebuild
use replica_wbcache.Prelude.{
  ℕ, zero, suc, ◌+◌, ◌-◌, Bool, true, false, ◌&&◌, not, Option, none, some, List, [], ◌∷◌, ◌++◌, ok,
  leb, ltb, ◌==◌, if◌then◌else◌,
}
use replica_wbcache.Buffer.Store.{
  Error, bad_access, Store, M, ◌>>=◌, ◌>>◌, pure, throw, create_page_aligned,
}
use replica_wbcache.Buffer.Ptr.{
  Ptr, null_ptr, sub_ptr, ptr_of_raw, unused_tail_length, set_length, get_mempool_type,
}

-- A ptr_node has an address of its own, by which `_tail_pnode_cache` knows it.
pub record Node : Type 0 where
  pub id : ℕ
  pub bptr : Ptr

-- `cache` is `none` where `_tail_pnode_cache` is `&always_empty_bptr`.
pub record Blist : Type 0 where
  pub buffers : List Node
  pub cache : Option ℕ
  pub len : ℕ
  pub num : ℕ

abbrev pub empty : Blist
empty = record { buffers = []; cache = none; len = 0; num = 0 }

-- ptr_node::create
unfoldable pub new_node : Ptr → M Node
new_node p s = ok (record { id = s.next_node; bptr = p }, record s { next_node = suc s.next_node })

-- buffers_t::push_back
abbrev pub link : Blist → Node → Blist
link l n = record l { buffers = l.buffers ++ n ∷ [] }

unfoldable pub find_node : ℕ → List Node → Option Ptr
find_node i [] = none
find_node i (n ∷ ns) = if n.id == i then some n.bptr else find_node i ns

unfoldable pub set_node : ℕ → Ptr → List Node → List Node
set_node i p [] = []
set_node i p (n ∷ ns) = if n.id == i then record n { bptr = p } ∷ ns else n ∷ set_node i p ns

unfoldable pub last? : List Node → Option Node
last? [] = none
last? (n ∷ []) = some n
last? (n ∷ m ∷ ns) = last? (m ∷ ns)

-- A cached address that no node of the list has is a dangling pointer.
abbrev found : Option Ptr → M Ptr
found none = throw bad_access
found (some p) = pure p

abbrev cached : Option ℕ → List Node → M Ptr
cached none ns = pure null_ptr
cached (some i) ns = found (find_node i ns)

-- `*_tail_pnode_cache`
unfoldable pub cache_ptr : Blist → M Ptr
unfolding find_node
cache_ptr l = cached l.cache l.buffers

abbrev put_cached : Option ℕ → Ptr → Blist → Blist
put_cached none p l = l
put_cached (some i) p l = record l { buffers = set_node i p l.buffers }

unfoldable pub put_cache_ptr : Blist → Ptr → Blist
unfolding set_node
put_cache_ptr l p = put_cached l.cache p l

abbrev same_node : Option ℕ → Option Node → Bool
same_node none n = false
same_node (some i) none = false
same_node (some i) (some n) = n.id == i

-- `_tail_pnode_cache == &_buffers.back()`
unfoldable pub cache_is_back : Blist → Bool
unfolding last?
cache_is_back l = same_node l.cache (last? l.buffers)

unfoldable pub get_append_buffer_unused_tail_length : Blist → M ℕ
unfolding cache_ptr unused_tail_length
get_append_buffer_unused_tail_length l = do p ← cache_ptr l; unused_tail_length p

-- A node that becomes both the last one and the cached one, as in many operations.
unfoldable pub push_cached : Blist → Ptr → M Blist
unfolding new_node
push_cached l p = do
  n ← new_node p
  pure (record l { buffers = l.buffers ++ n ∷ []; cache = some n.id; num = l.num + 1 })

-- The block that brings `_tail_pnode_cache` and `_buffers` together again.
unfoldable pub sync_tail : Blist → M Blist
unfolding cache_is_back cache_ptr sub_ptr push_cached
sync_tail l =
    if cache_is_back l then pure l else do p ← cache_ptr l; q ← sub_ptr p p.m_len 0; push_cached l q

unfoldable pub clear : Blist → Blist
clear l = empty

-- push_back(const ptr&)
unfoldable pub push_back : Blist → Ptr → M Blist
unfolding new_node
push_back l p = if p.m_len == 0 then pure l else do
  n ← new_node p
  pure (record l { buffers = l.buffers ++ n ∷ []; len = l.len + p.m_len; num = l.num + 1 })

-- push_back(ptr&&): the list, and what is left in the argument
unfoldable pub push_back_move : Blist → Ptr → M (Blist × Ptr)
unfolding new_node
push_back_move l p = if p.m_len == 0 then pure (l, p) else do
  n ← new_node p
  pure (
    record { buffers = l.buffers ++ n ∷ []; cache = none; len = l.len + p.m_len; num = l.num + 1 },
    null_ptr,
  )

-- push_back(std::unique_ptr<ptr_node>)
unfoldable pub push_back_node : Blist → Node → Blist
push_back_node l n = if n.bptr.m_len == 0 then l else record {
  buffers = l.buffers ++ n ∷ [];
  cache = some n.id;
  len = l.len + n.bptr.m_len;
  num = l.num + 1;
}

-- push_back(unique_leakable_ptr<raw>)
unfoldable pub push_back_raw : Blist → ℕ → M Blist
unfolding push_cached ptr_of_raw
push_back_raw l i = do
  p ← ptr_of_raw i
  l' ← push_cached l p
  pure (record l' { len = l'.len + p.m_len })

-- claim_append, swap and the move of a whole list: the list, and the other one
unfoldable pub claim_append : Blist → Blist → Blist × Blist
unfolding clear
claim_append l other = (
  record l {
    buffers = l.buffers ++ other.buffers;
    len = l.len + other.len;
    num = l.num + other.num;
  },
  clear other,
)

unfoldable pub swap : Blist → Blist → Blist × Blist
swap l other = (other, l)

unfoldable pub move_list : Blist → Blist × Blist
unfolding clear
move_list other = (other, clear other)

unfoldable pub is_contiguous : Blist → Bool
is_contiguous l = leb l.num 1

-- get_mempool_type, of the last node
unfoldable pub list_mempool_type : Blist → M ℕ
unfolding last? get_mempool_type
list_mempool_type l = elim (last? l.buffers) [
  | none ↦ get_mempool_type null_ptr
  | some n ↦ get_mempool_type n.bptr
]
