-- ===== src/Buffer/Blist/Rebuild.antt =====
-- Rebuilding a buffer::list in fewer or aligned raw buffers, and what stands on it: c_str and the
-- base64 conversions (common/buffer/buffer_list.cc).
pub mod Creates
pub mod Copying
pub mod Whole
pub mod Reads
pub mod Puts
pub mod Encodes
use Prim.Native.Nat.{bit_and}
use replica_wbcache.Prelude.{
  ℕ, zero, suc, ◌+◌, ◌-◌, ◌*◌, ◌/◌, ◌%◌, Bool, false, ◌&&◌, ◌||◌, not, Option, none, some, List, [],
  ◌∷◌, Result, ok, err, leb, ltb, ◌==◌, if◌then◌else◌, length,
}
use replica_wbcache.Intarith.{u64, round_up_to}
use replica_wbcache.Armor.{Encoded, armor, unarmor}
use replica_wbcache.Buffer.Store.{
  assert_failed, malformed_input, out_of_fuel, bad_access, M, ◌>>=◌, ◌>>◌, pure, throw, reading,
  assert, raw_at, put_raw, invalidate_crc, create, create_aligned, create_page_aligned, store_bytes,
}
use replica_wbcache.Buffer.Ptr
use replica_wbcache.Buffer.Ptr.{
  Ptr, null_ptr, ptr_of_raw, ptr_of_length, read_from, raw_id, is_aligned, is_n_align_sized,
  set_length,
}
use replica_wbcache.Buffer.Blist.{Node, Blist, new_node, is_contiguous, push_back_move}

-- invalidate_crc, over the nodes
unfoldable pub invalidate_nodes : List Node → M (Unit {0})
invalidate_nodes [] = pure tt
invalidate_nodes (n ∷ ns) = forget n.bptr.m_raw >> invalidate_nodes ns
  where
    forget : Option ℕ → M (Unit {0})
    forget none = pure tt
    forget (some i) = do r ← reading (λ s. raw_at s i); put_raw i (invalidate_crc r)

-- The loop of rebuild(nb): the bytes of every node go to the new one, from byte `pos` on.
unfoldable pub copy_nodes : Ptr → ℕ → List Node → M (Unit {0})
unfolding Ptr.copy_in read_from
copy_nodes nb pos [] = pure tt
copy_nodes nb pos (n ∷ ns) = do
  xs ← read_from n.bptr 0 n.bptr.m_len
  Ptr.copy_in nb pos xs false
  copy_nodes nb (pos + n.bptr.m_len) ns

-- rebuild(std::unique_ptr<ptr_node>)
unfoldable pub rebuild_with : Blist → Node → M Blist
unfolding copy_nodes invalidate_nodes
rebuild_with l nb = do
  copy_nodes nb.bptr 0 l.buffers
  if ltb 0 nb.bptr.m_len
      then (do
        invalidate_nodes (nb ∷ [])
        pure (record l { buffers = nb ∷ []; cache = some nb.id; num = 1 }))
      else pure (record l { buffers = []; cache = none; num = 0 })

unfoldable pub rebuild : Blist → M Blist
unfolding rebuild_with create create_page_aligned ptr_of_raw new_node
rebuild l s =
    if l.len == 0
    then ok (record l { buffers = []; cache = none; num = 0 }, s)
    else (do
      i ←
          if bit_and l.len (s.platform.page_size - 1) == 0
          then create_page_aligned l.len
          else create l.len
      p ← ptr_of_raw i
      nb ← new_node p
      rebuild_with l nb)
        s

-- The inner loop of rebuild_aligned_size_and_memory behind its first turn: the nodes that are
-- taken out, and those that stay. `taken` is unaligned_list_len.
unfoldable pub gather : (align_size align_memory taken : ℕ) → List Node → M (List Node × List Node)
unfolding is_aligned is_n_align_sized
gather size memory taken [] = pure ([], [])
gather size memory taken (n ∷ ns) = do
  aligned ← is_aligned n.bptr memory
  if not aligned || (not (is_n_align_sized n.bptr size) || not (taken % size == 0))
      then (do (group, rest) ← gather size memory (taken + n.bptr.m_len) ns; pure (n ∷ group, rest))
      else pure ([], n ∷ ns)

abbrev total_length : List Node → ℕ
total_length [] = 0
total_length (n ∷ ns) = n.bptr.m_len + total_length ns

-- front() of an empty list is its root.
abbrev pub front : List Node → M Node
front [] = throw bad_access
front (n ∷ ns) = pure n

-- What becomes of a group that was taken out: its one node, and whether it was rebuilt.
unfoldable pub consolidate : ℕ → List Node → M (Node × Bool)
unfolding is_contiguous is_aligned rebuild_with create_aligned ptr_of_raw new_node
consolidate memory group = do
  let unaligned : Blist = record {
    buffers = group;
    cache = none;
    len = total_length group;
    num = length group;
  }
  first ← front group
  aligned ← if is_contiguous unaligned then is_aligned first.bptr memory else pure false
  l ← if aligned then pure unaligned else (do
    i ← create_aligned unaligned.len memory
    p ← ptr_of_raw i
    nb ← new_node p
    rebuild_with unaligned nb)
  n ← front l.buffers
  m ← new_node n.bptr
  pure (m, not aligned)

-- The outer loop. Each turn takes a node at least.
unfoldable pub rebuild_loop : ℕ → (align_size align_memory : ℕ) → List Node → M (List Node × Bool)
unfolding gather consolidate is_aligned is_n_align_sized
rebuild_loop fuel size memory [] = pure ([], false)
rebuild_loop zero size memory (n ∷ ns) = throw out_of_fuel
rebuild_loop (suc fuel) size memory (n ∷ ns) = do
  aligned ← is_aligned n.bptr memory
  if aligned && is_n_align_sized n.bptr size
      then (do (ms, rebuilt) ← rebuild_loop fuel size memory ns; pure (n ∷ ms, rebuilt))
      else (do
        (group, rest) ← gather size memory n.bptr.m_len ns
        (m, rebuilt) ← consolidate memory (n ∷ group)
        (ms, more) ← rebuild_loop fuel size memory rest
        pure (m ∷ ms, rebuilt || more))

-- rebuild_aligned_size_and_memory: `_tail_pnode_cache` and `_len` stay as they are.
unfoldable pub rebuild_aligned_size_and_memory :
    Blist → (align_size align_memory max_buffers : ℕ) → M (Blist × Bool)
unfolding rebuild_loop
rebuild_aligned_size_and_memory l align_size align_memory max_buffers = do
  let crowded =
      not (max_buffers == 0)
      && (ltb max_buffers l.num && ltb (u64 (max_buffers * align_size)) l.len)
  let size =
      if crowded
      then round_up_to (round_up_to l.len max_buffers / max_buffers) align_size
      else align_size
  (ns, rebuilt) ← rebuild_loop (length l.buffers) size align_memory l.buffers
  pure (record l { buffers = ns; num = l.num + length ns - length l.buffers }, rebuilt)

unfoldable pub rebuild_aligned : Blist → ℕ → M (Blist × Bool)
unfolding rebuild_aligned_size_and_memory
rebuild_aligned l align = rebuild_aligned_size_and_memory l align align 0

abbrev pub fronted : Blist → M (Blist × Ptr)
fronted l = do f ← front l.buffers; pure (l, f.bptr)

abbrev pub c_str_of : Blist → List Node → M (Blist × Ptr)
c_str_of l [] = pure (l, null_ptr)
c_str_of l (n ∷ []) = pure (l, n.bptr)
c_str_of l (n ∷ m ∷ ns) = do l' ← rebuild l; fronted l'

-- c_str(): the rebuilt list, and the pointer that holds its bytes, if there is one
unfoldable pub c_str : Blist → M (Blist × Ptr)
unfolding rebuild
c_str l = c_str_of l l.buffers

-- The bytes from c_str() to c_str() + length(); there are none behind a null pointer.
abbrev pub text_of : Blist → Ptr → M (List ℕ)
text_of l p = if l.len == 0 then pure [] else read_from p 0 l.len

-- A negative length is a huge one for set_length.
abbrev pub encoded : {E : Type 0} → Result E Encoded → M Encoded
encoded (err e) = throw assert_failed
encoded (ok r) = pure r

abbrev decoded : {E : Type 0} → Result E Encoded → M Encoded
decoded (err e) = throw malformed_input
decoded (ok r) = pure r

-- encode_base64: the list, and the one that waits for the text
unfoldable pub encode_base64 : Blist → Blist → M (Blist × Blist)
unfolding c_str ptr_of_length set_length push_back_move armor store_bytes raw_id
encode_base64 l waiting = do
  p ← ptr_of_length (u64 (u64 (l.len * 4) / 3 + 3))
  (l', q) ← c_str l
  src ← text_of l' q
  (dst, len) ← encoded (armor p.m_len src)
  i ← raw_id p
  store_bytes i 0 dst.written
  p' ← set_length p len
  (w, moved) ← push_back_move waiting p'
  pure (l', w)

-- decode_base64: the list, and the one that holds the text
unfoldable pub decode_base64 : Blist → Blist → M (Blist × Blist)
unfolding c_str ptr_of_length set_length push_back_move unarmor store_bytes raw_id
decode_base64 l encoded_list = do
  p ← ptr_of_length (u64 (4 + u64 (encoded_list.len * 3) / 4))
  (e, q) ← c_str encoded_list
  src ← text_of e q
  (dst, len) ← decoded (unarmor p.m_len src)
  i ← raw_id p
  store_bytes i 0 dst.written
  assert (leb len p.m_len)
  p' ← set_length p len
  (l', moved) ← push_back_move l p'
  pure (l', e)
