-- ===== src/Examples/Runs.antt =====
-- Runs of buffer::list's operations (common/buffer/buffer_list.cc) on concrete lists.
use replica_wbcache.Prelude.{
  ℕ, ◌*◌, ◌+◌, ◌-◌, ◌^◌, ◌≡◌, refl, Option, some, none, List, [], ◌∷◌, Result, ok, err, true,
}
use replica_wbcache.Buffer.Store.{Error, Raw, Store, M, ◌>>=◌, ◌>>◌, pure, max_u64}
use replica_wbcache.Buffer.Ptr.{ptr}
use replica_wbcache.Buffer.Blist.{Node, Blist, empty}
use replica_wbcache.Buffer.Blist.Contents.{contents}
use replica_wbcache.Buffer.Blist.Append.{
  append_zero, append_char, append_window, prepend_zero, claim_append_piecewise,
}
use replica_wbcache.Buffer.Blist.Edit.{splice, zero_list}
use replica_wbcache.Buffer.Blist.Iter.{begin, iterator_copy_in, copy_to_list}
use replica_wbcache.Buffer.Blist.Rebuild.{rebuild, rebuild_aligned}

abbrev raw : Raw
raw = record {
  m_data = 11 ∷ 12 ∷ 13 ∷ 14 ∷ 15 ∷ 1 ∷ 1 ∷ 1 ∷ [];
  address = 4096;
  mempool_type_id = 0;
  last_crc_offset = (max_u64, max_u64);
  last_crc_val = (0, 0);
}

abbrev store : Store
store = record {
  raws = raw ∷ [];
  next_node = 2;
  platform = record { page_size = 4096; sizeof_raw_combined = 112; alignof_raw_combined = 8 };
  allocator = record { memalign = λ k a n. some (4096 * (k + 1)); memory = λ k i. 0 };
}

-- The bytes 11, 12 and then 13, 14, 15.
abbrev list : Blist
list = record {
  buffers = record { id = 0; bptr = ptr 0 0 2 } ∷ record { id = 1; bptr = ptr 0 2 3 } ∷ [];
  cache = some 1;
  len = 5;
  num = 2;
}

-- What a run makes: the bytes, the length and the number of nodes.
abbrev shown : Result Error (Blist × Store) → Option (List ℕ × ℕ × ℕ)
shown (err e) = none
shown (ok (l, s)) = some (contents s l.buffers, l.len, l.num)

splice_run :
    shown ((splice list 1 2 (some empty) >>= λ (l, by). pure l) store)
    ≡ some (11 ∷ 14 ∷ 15 ∷ [], 3, 2)
unfolding splice replica_wbcache.Buffer.Ptr.sub_ptr replica_wbcache.Buffer.Blist.new_node
    append_window replica_wbcache.Buffer.Store.raw_at replica_wbcache.Buffer.Ptr.set_offset
splice_run = refl

-- off + len wraps to 0: nothing is removed, and the bytes before `off` are there twice.
splice_wrap_run :
    shown ((splice list 1 (2 ^ 64 - 1) none >>= λ (l, by). pure l) store)
    ≡ some (11 ∷ 11 ∷ 12 ∷ 13 ∷ 14 ∷ 15 ∷ [], 6, 3)
unfolding splice replica_wbcache.Buffer.Ptr.sub_ptr replica_wbcache.Buffer.Blist.new_node
    replica_wbcache.Buffer.Store.raw_at replica_wbcache.Buffer.Ptr.set_offset
    replica_wbcache.Buffer.Ptr.set_length
splice_wrap_run = refl

zero_run : shown ((zero_list list 1 3 >> pure list) store) ≡ some (11 ∷ 0 ∷ 0 ∷ 0 ∷ 15 ∷ [], 5, 2)
unfolding zero_list replica_wbcache.Buffer.Ptr.zero_range
    replica_wbcache.Buffer.Store.invalidate_crc
zero_run = refl

append_zero_run :
    shown ((append_zero list 2 >>= λ l. append_char l 9) store)
    ≡ some (11 ∷ 12 ∷ 13 ∷ 14 ∷ 15 ∷ 0 ∷ 0 ∷ 9 ∷ [], 8, 2)
unfolding append_zero append_char replica_wbcache.Buffer.Store.raw_at
    replica_wbcache.Buffer.Ptr.append_zeros replica_wbcache.Buffer.Ptr.append
append_zero_run = refl

prepend_zero_run :
    shown (prepend_zero list 2 store) ≡ some (0 ∷ 0 ∷ 11 ∷ 12 ∷ 13 ∷ 14 ∷ 15 ∷ [], 7, 3)
unfolding prepend_zero
prepend_zero_run = refl

rebuild_run : shown (rebuild list store) ≡ some (11 ∷ 12 ∷ 13 ∷ 14 ∷ 15 ∷ [], 5, 1)
unfolding rebuild replica_wbcache.Buffer.Store.invalidate_crc
rebuild_run = refl

rebuild_aligned_run :
    shown ((rebuild_aligned list 4 >>= λ (l, b). pure l) store)
    ≡ some (11 ∷ 12 ∷ 13 ∷ 14 ∷ 15 ∷ [], 5, 1)
unfolding rebuild_aligned replica_wbcache.Buffer.Store.invalidate_crc
rebuild_aligned_run = refl

claim_append_piecewise_run :
    shown ((claim_append_piecewise empty list >>= λ (l, o). pure l) store)
    ≡ some (11 ∷ 12 ∷ 13 ∷ 14 ∷ 15 ∷ [], 5, 1)
unfolding claim_append_piecewise replica_wbcache.Buffer.Store.raw_at
claim_append_piecewise_run = refl

copy_in_run :
    shown
      ((begin list 1 >>= λ it. iterator_copy_in it (7 ∷ 8 ∷ 9 ∷ []) true >>= λ i. pure list) store)
    ≡ some (11 ∷ 7 ∷ 8 ∷ 9 ∷ 15 ∷ [], 5, 2)
unfolding begin iterator_copy_in replica_wbcache.Buffer.Store.invalidate_crc
copy_in_run = refl

copy_to_list_run :
    shown ((begin list 1 >>= λ it. copy_to_list it 3 empty >>= λ (d, i). pure d) store)
    ≡ some (12 ∷ 13 ∷ 14 ∷ [], 3, 1)
unfolding begin copy_to_list replica_wbcache.Buffer.Store.raw_at
copy_to_list_run = refl
