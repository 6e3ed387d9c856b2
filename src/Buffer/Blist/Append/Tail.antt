-- ===== src/Buffer/Blist/Append/Tail.antt =====
-- Bytes put behind the cached last node, where there is room for them.
use replica_wbcache.Prelude.{
  ℕ, ◌+◌, ◌≤◌, ◌<◌, ◌≡◌, ◌≢◌, refl, sym, ap, ◌∙◌, List, [], ◌∷◌, ◌++◌, append_assoc, arith, Result,
  ok, length, length-append,
}
use replica_wbcache.Buffer.Store.{Error, Store, M}
use replica_wbcache.Buffer.Ptr
use replica_wbcache.Buffer.Ptr.{Ptr, end}
use replica_wbcache.Buffer.Ptr.Access.{IsWindow, bytes, IsBefore}
use replica_wbcache.Buffer.Ptr.Write.{
  grown, after, append-ok, after-Preserves, grown-IsWindow, bytes-grown,
}
use replica_wbcache.Buffer.Blist.{Node, Blist, cache_ptr, put_cache_ptr}
use replica_wbcache.Buffer.Blist.Append.{on_cache}
use replica_wbcache.Buffer.Blist.Append.Sync.{IsTailed}
use replica_wbcache.Buffer.Blist.Contents.{
  contents, All, All-append, All-left, All-right, All-mono, IsBehind, IsCached, IsChain,
  contents-snoc, keep-windows, keep-contents, snoc_apart, snoc_same-IsDistinct, find_node-snoc,
  set_node-snoc,
}

-- A run that returns a list with the bytes of `l` and `src` behind them, and leaves the counters
-- of bytes to its caller.
pub record Adds (s : Store) (l : Blist) (src : List ℕ) (run : Result Error (Blist × Store))
    : Type 0 where
  pub l' : Blist
  pub s' : Store
  pub runs : run ≡ ok (l', s')
  pub chain : IsChain s' l'.buffers
  pub tail : IsCached l'.cache l'.buffers
  pub contents_lem : contents s' l'.buffers ≡ contents s l.buffers ++ src
  pub len_same : l'.len ≡ l.len
  pub num_lem : l'.num + length l.buffers ≡ l.num + length l'.buffers
  pub platform_same : s'.platform ≡ s.platform
  pub allocator_same : s'.allocator ≡ s.allocator

module _ {s : Store} {l : Blist} (tailed : IsTailed s l) where
  open tailed use {front, t, split, cached, chain, behind}

  pub tail-IsWindow : IsWindow s t.bptr
  tail-IsWindow = (All-right (λ n. IsWindow s n.bptr) front (t ∷ []) chain.windows).0

  pub tail_apart : All (λ m. m.id ≢ t.id) front
  tail_apart = snoc_apart front t chain.distinct

  pub tailed-IsCached : IsCached l.cache l.buffers
  tailed-IsCached =
      rw (cached, split)
        (
          t.bptr,
          find_node-snoc front t tail_apart,
          All-append (IsBehind t.bptr) front (t ∷ []) behind ((λ i e same. omega arith), tt),
        )

  pub on_cache-ok :
      (f : Ptr → M Ptr) (q : Ptr) (s' : Store)
      → f t.bptr s ≡ ok (q, s')
      → on_cache f l s ≡ ok (record l { buffers = front ++ record t { bptr = q } ∷ [] }, s')
  unfolding cache_ptr put_cache_ptr
  on_cache-ok f q s' h =
      rw (cached, split, find_node-snoc front t tail_apart, h, set_node-snoc front t q tail_apart)
        refl

module _ {s : Store} {l : Blist} (tailed : IsTailed s l) (src : List ℕ)
    (room : end tailed.t.bptr + length src ≤ length (tail-IsWindow tailed).r.m_data) where
  open tailed use {front, t, split, cached, chain, behind}

  abbrev w : IsWindow s t.bptr
  w = tail-IsWindow tailed

  abbrev s₁ : Store
  s₁ = after w src room

  abbrev grown_node : Node
  grown_node = record t { bptr = grown t.bptr (length src) }

  abbrev l₁ : Blist
  l₁ = record l { buffers = front ++ grown_node ∷ [] }

  front_windows : All (λ n. IsWindow s n.bptr) front
  front_windows = All-left (λ n. IsWindow s n.bptr) front (t ∷ []) chain.windows

  grown-IsTailed : IsTailed s₁ l₁
  grown-IsTailed = record {
    front = front;
    t = grown_node;
    split = refl;
    cached = cached;
    chain = record {
      windows =
          All-append (λ n. IsWindow s₁ n.bptr) front (grown_node ∷ [])
            (keep-windows (after-Preserves w src room) front front_windows)
            (grown-IsWindow w src room, tt);
      fresh =
          All-append (λ n. n.id < s.next_node) front (grown_node ∷ [])
            (All-left (λ n. n.id < s.next_node) front (t ∷ []) chain.fresh)
            (All-right (λ n. n.id < s.next_node) front (t ∷ []) chain.fresh);
      distinct = snoc_same-IsDistinct front t grown_node refl chain.distinct;
    };
    behind =
        All-mono (IsBehind t.bptr) (IsBehind grown_node.bptr) front
          (λ n b i e same. omega (arith, b i e same)) behind;
  }

  front_kept : contents s₁ front ≡ contents s front
  front_kept = keep-contents (after-Preserves w src room) front front_windows (
      All-mono (IsBehind t.bptr) (λ n. IsBefore w.i (end t.bptr) n.bptr) front
        (λ n b. b w.i w.is_raw) behind)

  grown_contents : contents s₁ l₁.buffers ≡ contents s l.buffers ++ src
  grown_contents =
      contents-snoc s₁ front grown_node
      ∙ ap (λ xs. xs ++ bytes s₁ grown_node.bptr) front_kept
      ∙ ap (λ xs. contents s front ++ xs) (bytes-grown w src room)
      ∙ sym (append_assoc (contents s front) (bytes s t.bptr) src)
      ∙ ap (λ xs. xs ++ src) (sym (contents-snoc s front t))
      ∙ ap (λ ns. contents s ns ++ src) (sym split)

  -- `_tail_pnode_cache->append(src)` on a list whose cached node is the last one
  pub append_tail-Adds : Adds s l src (on_cache (λ p. Ptr.append p src) l s)
  unfolding grown-IsTailed
  append_tail-Adds = record {
    l' = l₁;
    s' = s₁;
    runs =
        on_cache-ok tailed (λ p. Ptr.append p src) (grown t.bptr (length src)) s₁
          (append-ok w src room);
    chain = grown-IsTailed.chain;
    tail = tailed-IsCached grown-IsTailed;
    contents_lem = grown_contents;
    len_same = refl;
    num_lem = omega (
      arith,
      ap length split,
      length-append front (t ∷ []),
      length-append front (grown_node ∷ []),
    );
    platform_same = refl;
    allocator_same = refl;
  }
