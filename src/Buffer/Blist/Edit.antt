-- ===== src/Buffer/Blist/Edit.antt =====
-- Reading, cutting and zeroing a buffer::list (common/buffer/buffer_list.cc). A walk over
-- `_buffers` that passes the end reads the list's root as if it were a node: `bad_access`.
pub mod Index
pub mod Substr
pub mod Splice
use replica_wbcache.Prelude.{
  ℕ, zero, suc, ◌+◌, ◌-◌, Bool, true, false, ◌&&◌, ◌||◌, not, Option, none, some, List, [], ◌∷◌,
  ◌++◌, leb, ltb, ◌==◌, if◌then◌else◌, length,
}
use replica_wbcache.Intarith.{u64}
use replica_wbcache.Buffer.Store.{
  end_of_buffer, bad_access, assert_failed, Store, M, ◌>>=◌, ◌>>◌, pure, throw, assert,
}
use replica_wbcache.Buffer.Ptr
use replica_wbcache.Buffer.Ptr.{
  Ptr, sub_ptr, set_offset, set_length, read_from, byte_at, zero_all, zero_range,
}
use replica_wbcache.Buffer.Blist.{Node, Blist, empty, new_node}
use replica_wbcache.Buffer.Blist.Append.{append_window}

-- The loop of operator[]; behind the last node stands spec_abort().
pub index_loop : List Node → ℕ → M ℕ
index_loop [] pos = throw assert_failed
index_loop (n ∷ ns) pos =
    if leb n.bptr.m_len pos then index_loop ns (pos - n.bptr.m_len) else byte_at n.bptr pos

-- operator[]
unfoldable pub byte_of_list : Blist → ℕ → M ℕ
unfolding index_loop
byte_of_list l pos = if leb l.len pos then throw end_of_buffer else index_loop l.buffers pos

-- to_str, and what write_stream puts out
unfoldable pub to_str : List Node → M (List ℕ)
to_str [] = pure []
to_str (n ∷ ns) =
    if n.bptr.m_len == 0
    then to_str ns
    else do xs ← read_from n.bptr 0 n.bptr.m_len; ys ← to_str ns; pure (xs ++ ys)

-- Skipping the nodes before an offset: the nodes from there on, and the offset into the first.
pub skip : List Node → ℕ → M (List Node × ℕ)
skip [] off = if ltb 0 off then throw bad_access else pure ([], off)
skip (n ∷ ns) off =
    if ltb 0 off && leb n.bptr.m_len off then skip ns (off - n.bptr.m_len) else pure (n ∷ ns, off)

abbrev is_end : List Node → Bool
is_end [] = true
is_end (n ∷ ns) = false

-- The second loop of substr_of. Its test, `len >= 0` of an unsigned number, is always true.
pub substr_loop : Blist → List Node → ℕ → ℕ → M Blist
substr_loop l [] off len = throw bad_access
substr_loop l (n ∷ ns) off len =
    if ltb (off + len) n.bptr.m_len
    then (do
      p ← sub_ptr n.bptr off len
      m ← new_node p
      pure (record l { buffers = l.buffers ++ m ∷ []; len = l.len + len; num = l.num + 1 }))
    else (do
      let create_len = n.bptr.m_len - off
      p ← sub_ptr n.bptr off create_len
      m ← new_node p
      substr_loop
          (record l { buffers = l.buffers ++ m ∷ []; len = l.len + create_len; num = l.num + 1 }) ns
          0 (len - create_len))

-- substr_of, for another list than the one that is made
unfoldable pub substr_of : Blist → ℕ → ℕ → M Blist
unfolding skip substr_loop
substr_of other off len = if ltb other.len (u64 (off + len)) then throw end_of_buffer else do
  (cur, off') ← skip other.buffers off
  assert (len == 0 || not (is_end cur))
  substr_loop empty cur off' len

-- The first loop of splice also keeps the nodes that it has passed.
pub splice_skip : List Node → List Node → ℕ → M (List Node × List Node × ℕ)
splice_skip passed [] off = if ltb 0 off then throw assert_failed else pure (passed, [], off)
splice_skip passed (n ∷ ns) off =
    if ltb 0 off && leb n.bptr.m_len off
    then splice_skip (passed ++ n ∷ []) ns (off - n.bptr.m_len)
    else pure (passed, n ∷ ns, off)

abbrev claim : Option Blist → Ptr → ℕ → ℕ → M (Option Blist)
claim none p off len = pure none
claim (some c) p off len = do c' ← append_window c p off len; pure (some c')

-- The second loop of splice: the nodes that stay behind the cut, the counters and the claimer.
pub splice_loop :
    List Node → ℕ → ℕ → (len num : ℕ) → Option Blist → M (List Node × ℕ × ℕ × Option Blist)
splice_loop ns off zero size num by = pure (ns, size, num, by)
splice_loop [] off (suc left) size num by = throw bad_access
splice_loop (n ∷ ns) off (suc left) size num by =
    let len = suc left in
    let reach = u64 (off + len) in
    if ltb reach n.bptr.m_len
    then (do
      by' ← claim by n.bptr off len
      p ← set_offset n.bptr (u64 (reach + n.bptr.m_off))
      q ← set_length p (n.bptr.m_len - reach)
      pure (record n { bptr = q } ∷ ns, size - reach, num, by'))
    else (do
      let create_len = n.bptr.m_len - off
      by' ← claim by n.bptr off create_len
      splice_loop ns 0 (len - create_len) (size - n.bptr.m_len) (num - 1) by')

-- The reference to the front bit of the node where the cut begins.
abbrev front_bit : List Node → ℕ → M (List Node)
front_bit [] off = pure []
front_bit (n ∷ ns) off =
    if ltb 0 off then (do p ← sub_ptr n.bptr 0 off; m ← new_node p; pure (m ∷ [])) else pure []

-- splice(off, len, claim_by): the list and the list that claims, if there is one
unfoldable pub splice : Blist → ℕ → ℕ → Option Blist → M (Blist × Option Blist)
unfolding splice_skip splice_loop
splice l off len by =
    if len == 0 then pure (l, by) else if leb l.len off then throw end_of_buffer else do
      (passed, cur, off') ← splice_skip [] l.buffers off
      bit ← front_bit cur off'
      (rest, size, num, by') ← splice_loop cur off' len (l.len + off') (l.num + length bit) by
      pure (record { buffers = passed ++ (bit ++ rest); cache = none; len = size; num = num }, by')

-- zero(): every node
unfoldable pub zero_nodes : List Node → M (Unit {0})
zero_nodes [] = pure tt
zero_nodes (n ∷ ns) = do zero_all n.bptr true; zero_nodes ns

-- The loop of zero(off, len), at byte `pos` of the list.
pub zero_loop : List Node → (pos off len : ℕ) → M (Unit {0})
zero_loop [] pos off len = pure tt
zero_loop (n ∷ ns) pos off len =
    let size = n.bptr.m_len in
    let reach = u64 (off + len) in
    let next = zero_loop ns (pos + size) off len in
    if leb (reach) pos
    then pure tt
    else if size == 0 || leb (pos + size) off
    then next
    else if leb off pos && ltb (pos + size) (reach)
    then (zero_all n.bptr true >> next)
    else if leb off pos
    then (zero_range n.bptr 0 (reach - pos) true >> next)
    else if leb (pos + size) (reach)
    then (zero_range n.bptr (off - pos) (size - (off - pos)) true >> next)
    else (zero_range n.bptr (off - pos) len true >> next)

-- zero(off, len)
unfoldable pub zero_list : Blist → ℕ → ℕ → M (Unit {0})
unfolding zero_loop
zero_list l off len = do assert (leb (u64 (off + len)) l.len); zero_loop l.buffers 0 off len
