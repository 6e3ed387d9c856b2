-- ===== src/Examples/Lists.antt =====
-- Lists of buffers (common/buffer/buffer_list.cc) at concrete inputs.
use replica_wbcache.Buffer.Ptr.Walk.{ptr_begin, get_fields, walking, get_fields-fields}
use replica_wbcache.Prelude.{
  none, ℕ, ◌+◌, ◌*◌, ◌≤◌, ◌<◌, ◌≡◌, ◌≢◌, refl, some, [], ◌∷◌, ok, err, take, drop, get_elem?, arith,
  ◌++◌, length,
}
use replica_wbcache.Buffer.Store.{
  ◌>>=◌, Allocator, Raw, Store, end_of_buffer, bad_access, max_u64, out_of_fuel,
}
use replica_wbcache.Buffer.Ptr.{ptr}
use replica_wbcache.Buffer.Ptr.Access.{IsWindow, bytes}
use replica_wbcache.Buffer.Blist.{Blist, clear, find_node}
use replica_wbcache.Buffer.Blist.Contents.{contents, All, IsBehind, IsList}
use replica_wbcache.Buffer.Blist.Append.{append_bytes, append_window, claim_append_piecewise}
use replica_wbcache.Buffer.Blist.Append.Sync.{Synced, sync_tail-Synced}
use replica_wbcache.Buffer.Blist.Append.Refill.{CanAllocate, Refilled, refill_append_space-Refilled}
use replica_wbcache.Buffer.Blist.Append.Bytes.{Appends, append_bytes-Appends}
use replica_wbcache.Buffer.Blist.Append.Window.{
  Grows, append_window-Grows, claim_append_piecewise-contents,
}
use replica_wbcache.Buffer.Blist.Rebuild.{rebuild}
use replica_wbcache.Armor.Encode.{IsBytes}
use replica_wbcache.Buffer.Blist.Rebuild.{encode_base64}
use replica_wbcache.Buffer.Blist.Rebuild.Encodes.{Encodes, encode_base64-Encodes}
use replica_wbcache.Buffer.Blist.Rebuild.Creates.{CanAlign}
use replica_wbcache.Buffer.Blist.Rebuild.Whole.{Rebuilt, rebuild-Rebuilt}
use replica_wbcache.Buffer.Blist.Iter.Copies.{Copied, copy_from, copy-contents}
use replica_wbcache.Buffer.Blist.Edit.{byte_of_list, substr_of, splice}
use replica_wbcache.Buffer.Blist.Edit.Splice.{Spliced, splice-contents}
use replica_wbcache.Buffer.Blist.Query.{contents_equal}
use replica_wbcache.Buffer.Blist.Query.Equality.{contents_equal-out_of_fuel}
use replica_wbcache.Buffer.Blist.Edit.Index.{byte_of_list-contents}
use replica_wbcache.Buffer.Blist.Edit.Substr.{Made, substr_of-contents}

abbrev allocator : Allocator
allocator = record { memalign = λ k a n. some (4096 * (k + 1)); memory = λ k i. 0 }

allocator-CanAllocate : CanAllocate allocator
allocator-CanAllocate k n = (4096 * (k + 1), refl)

abbrev raw : Raw
raw = record {
  m_data = 11 ∷ 12 ∷ 13 ∷ 14 ∷ 15 ∷ 0 ∷ 0 ∷ 0 ∷ [];
  address = 4096;
  mempool_type_id = 0;
  last_crc_offset = (max_u64, max_u64);
  last_crc_val = (0, 0);
}

abbrev store : Store
store = record {
  raws = raw ∷ [];
  next_node = 2;
  platform = record { page_size = 4096; sizeof_raw_combined = 112; alignof_raw_combined = 8 };
  allocator = allocator;
}

-- Two nodes, of two and of three bytes; the second one has room behind it.
abbrev list : Blist
list = record {
  buffers = record { id = 0; bptr = ptr 0 0 2 } ∷ record { id = 1; bptr = ptr 0 2 3 } ∷ [];
  cache = some 1;
  len = 5;
  num = 2;
}

window_of : (off len : ℕ) → off + len ≤ 8 → IsWindow store (ptr 0 off len)
window_of off len h = record {
  i = 0;
  r = raw;
  is_raw = refl;
  holds = refl;
  fits = h;
  small = omega arith;
}

one-ne_zero : ◌≢◌ {A = ℕ} 1 0
one-ne_zero e = absurd (omega arith)

list-IsBehind : All (IsBehind (ptr 0 2 3)) list.buffers
list-IsBehind = ((λ i e r. omega arith), ((λ i e r. omega arith), tt))

list-IsList : IsList store list
unfolding find_node
list-IsList = record {
  chain = record {
    windows = (window_of 0 2 (omega arith), (window_of 2 3 (omega arith), tt));
    fresh = (omega arith, (omega arith, tt));
    distinct = ((one-ne_zero, tt), (tt, tt));
  };
  tail = (ptr 0 2 3, refl, list-IsBehind);
  counted = refl;
  numbered = refl;
}

append_bytes-Appends_example :
    Appends store list (21 ∷ 22 ∷ 23 ∷ 24 ∷ []) (append_bytes list (21 ∷ 22 ∷ 23 ∷ 24 ∷ []) store)
append_bytes-Appends_example =
    append_bytes-Appends store list (21 ∷ 22 ∷ 23 ∷ 24 ∷ []) list-IsList allocator-CanAllocate
      (omega arith)

substr_of-contents_example :
    (1 + 3 < 5
      → Made store (take 3 (drop 1 (contents store list.buffers))) (substr_of list 1 3 store))
    × (1 + 3 ≡ 5 → substr_of list 1 3 store ≡ err bad_access)
    × (5 < 1 + 3 → substr_of list 1 3 store ≡ err end_of_buffer)
substr_of-contents_example = substr_of-contents store list 1 3 list-IsList (omega arith)

byte_of_list-contents_example :
    (3 < 5
      → (c : ℕ) × (get_elem? (contents store list.buffers) 3 ≡ some c)
        × (byte_of_list list 3 store ≡ ok (c, store)))
    × (5 ≤ 3 → byte_of_list list 3 store ≡ err end_of_buffer)
byte_of_list-contents_example = byte_of_list-contents store list 3 list-IsList

sync_tail-Synced_example : Synced store list (ptr 0 2 3)
unfolding find_node
sync_tail-Synced_example =
    sync_tail-Synced store list list-IsList.chain 1 (ptr 0 2 3) refl refl list-IsBehind

refill_append_space-Refilled_example : Refilled store list 100
refill_append_space-Refilled_example =
    refill_append_space-Refilled store list 100 list-IsList.chain (omega arith)
      allocator-CanAllocate

copy-contents_example :
    (1 + 4 ≤ 5 → Copied store list 1 4 (copy_from list 1 4 store))
    × (5 < 1 + 4 → copy_from list 1 4 store ≡ err end_of_buffer)
copy-contents_example = copy-contents store list 1 4 list-IsList (omega arith) (omega arith)

splice-contents_example :
    (1 + 3 ≤ 5 → Spliced store list 1 3 (splice list 1 3 none store))
    × (1 < 5 → 5 < 1 + 3 → splice list 1 3 none store ≡ err bad_access)
    × (5 ≤ 1 → splice list 1 3 none store ≡ err end_of_buffer)
splice-contents_example = splice-contents store list 1 3 list-IsList (omega arith) (omega arith)

-- The same bytes in one node.
abbrev one_node : Blist
one_node = record {
  buffers = record { id = 0; bptr = ptr 0 0 5 } ∷ [];
  cache = none;
  len = 5;
  num = 1;
}

one_node-IsList : IsList store one_node
one_node-IsList = record {
  chain = record {
    windows = (window_of 0 5 (omega arith), tt);
    fresh = (omega arith, tt);
    distinct = (tt, tt);
  };
  tail = tt;
  counted = refl;
  numbered = refl;
}

contents_equal-out_of_fuel_example : contents_equal 1000 one_node list store ≡ err out_of_fuel
contents_equal-out_of_fuel_example =
    contents_equal-out_of_fuel store one_node list (record { id = 0; bptr = ptr 0 0 2 })
      (record { id = 1; bptr = ptr 0 2 3 } ∷ []) 1000 one_node-IsList list-IsList refl refl
      (omega arith) refl

-- The first node alone, behind which the second goes on in the same raw buffer.
abbrev first_node : Blist
first_node = record {
  buffers = record { id = 0; bptr = ptr 0 0 2 } ∷ [];
  cache = none;
  len = 2;
  num = 1;
}

append_window-Grows_example :
    Grows store first_node
      (take 2 (drop 0 (bytes store (ptr 0 2 3))))
      (append_window first_node (ptr 0 2 3) 0 2 store)
append_window-Grows_example =
    append_window-Grows store first_node (ptr 0 2 3) 0 2 (window_of 0 2 (omega arith), tt)
      (window_of 2 3 (omega arith)) (omega arith)

claim_append_piecewise-contents_example :
    (l' : Blist) × (s' : Store) × (claim_append_piecewise first_node list store
      ≡ ok ((l', clear list), s'))
    × (contents s' l'.buffers ≡ contents store first_node.buffers ++ contents store list.buffers)
    × (l'.len ≡ 2 + length (contents store list.buffers))
claim_append_piecewise-contents_example =
    claim_append_piecewise-contents store first_node list (window_of 0 2 (omega arith), tt)
      list-IsList.chain.windows

allocator-CanAlign_word : CanAlign allocator 8
allocator-CanAlign_word = record { accepted = refl; memory = λ k n. (4096 * (k + 1), refl) }

allocator-CanAlign_page : CanAlign allocator 4096
allocator-CanAlign_page = record { accepted = refl; memory = λ k n. (4096 * (k + 1), refl) }

rebuild-Rebuilt_example : Rebuilt store list (rebuild list store)
rebuild-Rebuilt_example =
    rebuild-Rebuilt store list list-IsList (omega arith) allocator-CanAlign_word
      allocator-CanAlign_page

list-IsBytes : IsBytes (contents store list.buffers)
list-IsBytes = (omega arith, (omega arith, (omega arith, (omega arith, (omega arith, tt)))))

encode_base64-Encodes_example : Encodes store list one_node (encode_base64 list one_node store)
encode_base64-Encodes_example =
    encode_base64-Encodes store list one_node list-IsList one_node-IsList list-IsBytes (omega arith)
      (omega arith) allocator-CanAlign_word allocator-CanAlign_page

get_fields-fields_example :
    (ptr_begin (ptr 0 1 6) 1 >>= get_fields (2 ∷ 3 ∷ [])) store
    ≡ ok ((ptr 0 2 2 ∷ ptr 0 4 3 ∷ [], walking (raw.address + 1) 0 1 6 1 6), store)
get_fields-fields_example =
    get_fields-fields (2 ∷ 3 ∷ []) 0 1 6 1 raw store refl (omega arith) (omega arith) (omega arith)
