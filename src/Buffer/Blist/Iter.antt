-- ===== src/Buffer/Blist/Iter.antt =====
-- The iterators of buffer::list (include/buffer/buffer_list.h, common/buffer/buffer_list.cc).
-- What an exception leaves behind in an iterator is not followed.
pub mod Moves
pub mod Copies
use Prim.Native.Nat.{min}
use replica_wbcache.Prelude.{
  ℕ, zero, suc, ◌+◌, ◌-◌, Bool, true, false, Option, none, some, List, [], ◌∷◌, ◌++◌, leb, ltb,
  ◌==◌, if◌then◌else◌, length, take, drop,
}
use replica_wbcache.Intarith.{u64}
use replica_wbcache.Buffer.Store.{
  end_of_buffer, out_of_fuel, M, ◌>>=◌, ◌>>◌, pure, throw, reading, create, store_bytes, load_bytes,
}
use replica_wbcache.Buffer.Ptr
use replica_wbcache.Buffer.Ptr.{Ptr, ptr_of_raw, sub_ptr, byte_at, copy_out, read_from}
use replica_wbcache.Buffer.Blist.{Node, Blist}
use replica_wbcache.Buffer.Blist.Append.{Place, place, append_window}

-- `m_list_it` is the nodes from it on; none are left at `m_list->end()`.
pub record Iter : Type 0 where
  pub m_list : List Node
  pub m_list_it : List Node
  pub m_r_off : ℕ
  pub m_a_off : ℕ

-- The node under the iterator; every operation throws where there is none.
abbrev here : Iter → M Node
here it = at it.m_list_it
  where
    at : List Node → M Node
    at [] = throw end_of_buffer
    at (n ∷ ns) = pure n

abbrev pub at_end : Iter → Bool
at_end it = is_nil it.m_list_it
  where
    is_nil : List Node → Bool
    is_nil [] = true
    is_nil (n ∷ ns) = false

-- The loop of operator+=: the nodes from there on, and the offset into the first.
unfoldable pub advance_loop : List Node → ℕ → List Node × ℕ
advance_loop [] r_off = ([], r_off)
advance_loop (n ∷ ns) r_off =
    if leb n.bptr.m_len r_off then advance_loop ns (r_off - n.bptr.m_len) else (n ∷ ns, r_off)

-- What operator+= does after its loop.
unfoldable pub arrive : Iter → ℕ → List Node × ℕ → M Iter
arrive it off ([], suc r) = throw end_of_buffer
arrive it off (ns, r) =
    pure (record it { m_list_it = ns; m_r_off = r; m_a_off = u64 (it.m_a_off + off) })

-- operator+=
unfoldable pub advance : Iter → ℕ → M Iter
unfolding advance_loop arrive
advance it off = arrive it off (advance_loop it.m_list_it (u64 (it.m_r_off + off)))

-- seek
unfoldable pub seek : Iter → ℕ → M Iter
unfolding advance
seek it off = advance (record it { m_list_it = it.m_list; m_a_off = 0; m_r_off = 0 }) off

-- iterator_impl(blist_t*, uint64_t), begin(uint64_t)
unfoldable pub begin : Blist → ℕ → M Iter
unfolding advance
begin l off =
    advance (record { m_list = l.buffers; m_list_it = l.buffers; m_r_off = 0; m_a_off = 0 }) off

-- operator*
unfoldable pub get : Iter → M ℕ
unfolding byte_at
get it = do n ← here it; byte_at n.bptr it.m_r_off

-- operator++
unfoldable pub step : Iter → M Iter
unfolding advance
step it = do n ← here it; advance it 1

unfoldable pub get_current_ptr : Iter → M Ptr
unfolding sub_ptr
get_current_ptr it = do n ← here it; sub_ptr n.bptr it.m_r_off (n.bptr.m_len - it.m_r_off)

-- `if (m_list_it == m_list->end()) seek(m_a_off);`
unfoldable pub settle : Iter → M Iter
unfolding seek
settle it = if at_end it then seek it it.m_a_off else pure it

-- The loop of copy(uint64_t, char*), as long as bytes are wanted
unfoldable pub copy_loop : ℕ → Iter → ℕ → M (List ℕ × Iter)
unfolding advance copy_out
copy_loop fuel it zero = pure ([], it)
copy_loop zero it (suc len) = throw out_of_fuel
copy_loop (suc fuel) it (suc more) = do
  let len = suc more
  n ← here it
  let this_copy_len = min len (n.bptr.m_len - it.m_r_off)
  xs ← copy_out n.bptr it.m_r_off this_copy_len
  it' ← advance it this_copy_len
  (ys, it'') ← copy_loop fuel it' (len - this_copy_len)
  pure (xs ++ ys, it'')

-- copy(uint64_t, char*). Each turn leaves a node behind or is the last one.
unfoldable pub copy : Iter → ℕ → M (List ℕ × Iter)
unfolding settle copy_loop
copy it len = do it' ← settle it; copy_loop (suc (length it'.m_list_it)) it' len

-- copy_deep: the pointer that is made
unfoldable pub copy_deep : Iter → ℕ → M (Option Ptr × Iter)
unfolding create copy ptr_of_raw store_bytes
copy_deep it len = if len == 0 then pure (none, it) else do
  n ← here it
  i ← create len
  dest ← ptr_of_raw i
  (xs, it') ← copy it len
  store_bytes i 0 xs
  pure (some dest, it')

unfoldable pub copy_shallow : Iter → ℕ → M (Option Ptr × Iter)
unfolding create copy ptr_of_raw store_bytes sub_ptr advance
copy_shallow it len = if len == 0 then pure (none, it) else do
  n ← here it
  if ltb (n.bptr.m_len - it.m_r_off) len
      then (do
        i ← create len
        dest ← ptr_of_raw i
        (xs, it') ← copy it len
        store_bytes i 0 xs
        pure (some dest, it'))
      else (do dest ← sub_ptr n.bptr it.m_r_off len; it' ← advance it len; pure (some dest, it'))

-- copy(uint64_t, list&)
unfoldable pub copy_to_loop : ℕ → Iter → ℕ → Blist → M (Blist × Iter)
unfolding advance append_window
copy_to_loop fuel it zero dest = pure (dest, it)
copy_to_loop zero it (suc len) dest = throw out_of_fuel
copy_to_loop (suc fuel) it (suc more) dest = do
  let len = suc more
  n ← here it
  let this_copy_len = min len (n.bptr.m_len - it.m_r_off)
  dest' ← append_window dest n.bptr it.m_r_off this_copy_len
  it' ← advance it this_copy_len
  copy_to_loop fuel it' (len - this_copy_len) dest'

unfoldable pub copy_to_list : Iter → ℕ → Blist → M (Blist × Iter)
unfolding settle copy_to_loop
copy_to_list it len dest = do
  it' ← settle it
  copy_to_loop (suc (length it'.m_list_it)) it' len dest

-- iterator::copy_in(uint64_t, const char*, bool)
unfoldable pub copy_in_loop : ℕ → Iter → List ℕ → Bool → M Iter
unfolding advance Ptr.copy_in
copy_in_loop fuel it [] crc_reset = pure it
copy_in_loop zero it (x ∷ xs) crc_reset = throw out_of_fuel
copy_in_loop (suc fuel) it (x ∷ xs) crc_reset = do
  let src = x ∷ xs
  n ← here it
  let this_copy_len = min (length src) (n.bptr.m_len - it.m_r_off)
  Ptr.copy_in n.bptr it.m_r_off (take this_copy_len src) crc_reset
  it' ← advance it this_copy_len
  copy_in_loop fuel it' (drop this_copy_len src) crc_reset

unfoldable pub iterator_copy_in : Iter → List ℕ → Bool → M Iter
unfolding settle copy_in_loop
iterator_copy_in it src crc_reset = do
  it' ← settle it
  copy_in_loop (suc (length it'.m_list_it)) it' src crc_reset

-- get_ptr_and_advance: the place, the number of bytes from there on, and the iterator behind them
unfoldable pub get_ptr_and_advance : Iter → ℕ → M (Option Place × ℕ × Iter)
unfolding settle place
get_ptr_and_advance it max_req_size = do
  it' ← settle it
  if at_end it' then pure (none, 0, it') else do
    n ← here it'
    p ← place n.bptr (n.bptr.m_off + it'.m_r_off)
    let rst = min (n.bptr.m_len - it'.m_r_off) max_req_size
    pure (
      some p,
      rst,
      record it' {
        m_list_it =
            if it'.m_r_off + rst == n.bptr.m_len then drop 1 it'.m_list_it else it'.m_list_it;
        m_r_off = if it'.m_r_off + rst == n.bptr.m_len then 0 else it'.m_r_off + rst;
        m_a_off = u64 (it'.m_a_off + rst);
      },
    )
