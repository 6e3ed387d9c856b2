-- ===== src/Buffer/Blist/Append/Refill.antt =====
-- refill_append_space of buffer::list: a new last node for what is left to be appended.
use mathlib.Core.Path.{subst}
use replica_wbcache.Prelude.{
  ℕ, suc, ◌+◌, ◌^◌, ◌≤◌, ◌<◌, ◌≡◌, refl, sym, ap, ◌∙◌, inl, inr, some, [], ◌∷◌, ◌++◌, append-nil,
  arith, ok, length, length-append, get_elem?, get_elem?-append_length, Option-cases,
}
use replica_wbcache.Intarith.{u64, round_up_to}
use replica_wbcache.Intarith.Rounding.{round_up_to_least}
use replica_wbcache.Buffer.Store.{
  Raw, Store, Allocator, Platform, new_raw, posix_memalign, create_combined, fill, max_u64,
}
use replica_wbcache.Buffer.Ptr.{ptr, ptr_of_raw, set_length, get_mempool_type, raw_length, have_raw}
use replica_wbcache.Buffer.Ptr.Access.{IsWindow, IsBefore, Preserves, get_mempool_type-ok}
use replica_wbcache.Buffer.Ptr.Write.{
  length-fill, grown_store-Preserves, found-raw_at, get_elem?-lt, le→leb,
}
use replica_wbcache.Buffer.Blist.{Node, Blist, last?, push_cached, new_node, list_mempool_type}
use replica_wbcache.Buffer.Blist.Append.{push_fresh, refill_length, refill_append_space}
use replica_wbcache.Buffer.Blist.Append.Sync.{IsTailed}
use replica_wbcache.Buffer.Blist.Contents.{
  contents, All, All-append, All-right, All-mono, IsBehind, IsChain, contents-snoc, keep-windows,
  keep-contents, snoc-IsDistinct, last?_split,
}

-- `posix_memalign` succeeds whenever the program aligns to a word.
abbrev pub CanAllocate : Allocator → Type 0
CanAllocate a = (k n : ℕ) → (address : ℕ) × (a.memalign k 8 n ≡ some address)

-- If the length leaves 8192 bytes and a raw_combined below 2^64, the length of the new raw buffer
-- is at least that length, and below 2^64.
pub refill_length_fits :
    (size len : ℕ)
    → len + size + 8192 < 2 ^ 64
    → (len ≤ refill_length size len) × (refill_length size len < 2 ^ 64)
unfolding refill_length
refill_length_fits size len fits =
    let inner = round_up_to_least len 8 (omega arith) (omega arith) in
    let need : u64 (round_up_to len 8 + size) ≡ round_up_to len 8 + size = omega (arith, inner) in
    let outer =
      round_up_to_least (round_up_to len 8 + size) 4096 (omega arith) (omega (arith, inner)) in
    rw need (omega (arith, inner, outer), omega (arith, inner, outer))

some_inj : {a b : ℕ} → some a ≡ some b → a ≡ b
some_inj e = cc

raw_inj : {a b : Raw} → some a ≡ some b → a ≡ b
raw_inj e = cc

-- The state after a raw buffer of `n` bytes has been made and linked as an empty node.
abbrev made : Store → ℕ → ℕ → ℕ → Raw
made s n address pool = record {
  m_data = fill (s.allocator.memory (length s.raws)) n;
  address = address;
  mempool_type_id = pool;
  last_crc_offset = (max_u64, max_u64);
  last_crc_val = (0, 0);
}

module _ (s : Store) (l : Blist) (chain : IsChain s l.buffers) (n address pool : ℕ)
    (word : n < 2 ^ 64) where
  abbrev r : Raw
  r = made s n address pool

  abbrev with_raw : Store
  with_raw = record s { raws = s.raws ++ r ∷ [] }

  abbrev pub with_node : Store
  with_node = record with_raw { next_node = suc s.next_node }

  abbrev pub fresh_node : Node
  fresh_node = record { id = s.next_node; bptr = ptr (length s.raws) 0 0 }

  abbrev pub linked : Blist
  linked = record l {
    buffers = l.buffers ++ fresh_node ∷ [];
    cache = some s.next_node;
    num = l.num + 1;
  }

  push_fresh-ok : push_fresh l (length s.raws) with_raw ≡ ok (linked, with_node)
  unfolding push_fresh ptr_of_raw set_length raw_length push_cached new_node
  push_fresh-ok =
      let read = found-raw_at with_raw (length s.raws) (get_elem?-append_length s.raws r) in
      rw (read, read, le→leb 0 (length r.m_data) (omega arith))

  window : IsWindow with_node (ptr (length s.raws) 0 0)
  window = record {
    i = length s.raws;
    r = r;
    is_raw = refl;
    holds = get_elem?-append_length s.raws r;
    fits = omega arith;
    small = omega (arith, length-fill (s.allocator.memory (length s.raws)) n);
  }

  -- No window of the list is one of the new raw buffer.
  outside : (k : ℕ) → All (λ m. IsBefore (length s.raws) k m.bptr) l.buffers
  outside k =
      All-mono (λ m. IsWindow s m.bptr) (λ m. IsBefore (length s.raws) k m.bptr) l.buffers
        (λ m w e.
          absurd (omega (arith, get_elem?-lt s.raws w.i w.holds, some_inj (sym w.is_raw ∙ e))))
        chain.windows

  kept : Preserves (length s.raws) 0 s with_node
  kept = record { keeps = (grown_store-Preserves s r 0).keeps }

  pub linked_contents : contents with_node linked.buffers ≡ contents s l.buffers
  linked_contents =
      contents-snoc with_node l.buffers fresh_node
      ∙ append-nil (contents with_node l.buffers)
      ∙ keep-contents kept l.buffers chain.windows (outside 0)

  pub linked-IsTailed : IsTailed with_node linked
  linked-IsTailed = record {
    front = l.buffers;
    t = fresh_node;
    split = refl;
    cached = refl;
    chain = record {
      windows =
          All-append (λ m. IsWindow with_node m.bptr) l.buffers (fresh_node ∷ [])
            (keep-windows kept l.buffers chain.windows) (window, tt);
      fresh =
          All-append (λ m. m.id < suc s.next_node) l.buffers (fresh_node ∷ [])
            (All-mono (λ m. m.id < s.next_node) (λ m. m.id < suc s.next_node) l.buffers
              (λ m lt. omega arith) chain.fresh)
            (omega arith, tt);
      distinct = snoc-IsDistinct l.buffers fresh_node chain.distinct chain.fresh;
    };
    behind =
        All-mono (λ m. IsBefore (length s.raws) 0 m.bptr) (IsBehind fresh_node.bptr) l.buffers
          (λ m b i e same. omega (arith, b (same ∙ sym e))) (outside 0);
  }

-- The pool of the last node can be read.
pool_of :
    (s : Store) (l : Blist)
    → IsChain s l.buffers
    → (pool : ℕ) × (list_mempool_type l s ≡ ok (pool, s))
unfolding list_mempool_type
pool_of s l chain = elim (Option-cases (last? l.buffers)) [
  | inl none_left ↦
      (0, rw (none_left, list_mempool_type) (unfold get_mempool_type have_raw in refl))
  | inr (n, is_last) ↦
      let (front, e) = last?_split l.buffers n is_last in
      let windows = subst (All (λ m. IsWindow s m.bptr)) e chain.windows in
      let w : IsWindow s n.bptr = (All-right (λ m. IsWindow s m.bptr) front (n ∷ []) windows).0 in
      (w.r.mempool_type_id, rw (is_last, list_mempool_type) (get_mempool_type-ok w))
]

-- What refill_append_space returns: the same bytes, and an empty cached last node whose raw
-- buffer has room for `len` bytes.
pub record Refilled (s : Store) (l : Blist) (len : ℕ) : Type 0 where
  pub l' : Blist
  pub s' : Store
  pub runs : refill_append_space l len s ≡ ok (l', s')
  pub tailed : IsTailed s' l'
  pub contents_same : contents s' l'.buffers ≡ contents s l.buffers
  pub room : (r : Raw) → get_elem? s'.raws (length s.raws) ≡ some r → len ≤ length r.m_data
  pub place : tailed.t.bptr ≡ ptr (length s.raws) 0 0
  pub len_same : l'.len ≡ l.len
  pub num_lem : l'.num + length l.buffers ≡ l.num + length l'.buffers
  pub platform_same : s'.platform ≡ s.platform
  pub allocator_same : s'.allocator ≡ s.allocator

-- The size that is asked of `posix_memalign`.
abbrev asked : Platform → ℕ → ℕ
asked p n = u64 (
    round_up_to p.sizeof_raw_combined p.alignof_raw_combined + round_up_to n p.alignof_raw_combined)

module _ (s : Store) (l : Blist) (len : ℕ) (chain : IsChain s l.buffers)
    (fits : len + s.platform.sizeof_raw_combined + 8192 < 2 ^ 64) where
  abbrev n : ℕ
  n = refill_length s.platform.sizeof_raw_combined len

  size : (len ≤ n) × (n < 2 ^ 64)
  size = refill_length_fits s.platform.sizeof_raw_combined len fits

  refilled :
      (pool address : ℕ)
      → list_mempool_type l s ≡ ok (pool, s)
      → s.allocator.memalign (length s.raws) 8 (asked s.platform n) ≡ some address
      → Refilled s l len
  unfolding linked-IsTailed
  refilled pool address has_pool given = record {
    l' = linked s l chain n address pool size.1;
    s' = with_node s l chain n address pool size.1;
    runs =
        unfold refill_append_space create_combined new_raw posix_memalign in
        rw (has_pool, given) (push_fresh-ok s l chain n address pool size.1);
    tailed = linked-IsTailed s l chain n address pool size.1;
    contents_same = linked_contents s l chain n address pool size.1;
    room = λ r h. omega (
      arith,
      size.0,
      length-fill (s.allocator.memory (length s.raws)) n,
      ap (λ (q : Raw). length q.m_data)
          (raw_inj (sym (get_elem?-append_length s.raws (made s n address pool)) ∙ h)),
    );
    place = refl;
    len_same = refl;
    num_lem =
        omega (arith, length-append l.buffers (fresh_node s l chain n address pool size.1 ∷ []));
    platform_same = refl;
    allocator_same = refl;
  }

  -- On a chain of nodes, refill_append_space succeeds, keeps the bytes and makes an empty cached
  -- last node with room for `len` bytes, if `posix_memalign` succeeds at a word's alignment and
  -- `len` leaves 8192 bytes and a raw_combined below 2^64.
  pub refill_append_space-Refilled : CanAllocate s.allocator → Refilled s l len
  refill_append_space-Refilled allocates =
      let (pool, has_pool) = pool_of s l chain in
      let (address, given) = allocates (length s.raws) (asked s.platform n) in
      refilled pool address has_pool given
