-- ===== src/Buffer/Blist/Append/Sync.antt =====
-- A list whose cached node is its last one, and how sync_tail makes it.
use mathlib.Core.Path.{subst}
use replica_wbcache.Prelude.{
  ℕ, suc, ◌+◌, ◌<◌, ◌≡◌, refl, sym, ap, ◌∙◌, inl, inr, some, List, [], ◌∷◌, ◌++◌, append-nil, arith,
  ok, length, length-append, ◌==◌, false, Bool-cases, Option-cases, ==_iff,
}
use replica_wbcache.Buffer.Store.{Store}
use replica_wbcache.Buffer.Ptr.{Ptr, end, sub_ptr}
use replica_wbcache.Buffer.Ptr.Access.{IsWindow, sub-IsWindow}
use replica_wbcache.Buffer.Blist.{
  Node, Blist, cache_ptr, cache_is_back, find_node, last?, sync_tail, push_cached, new_node,
}
use replica_wbcache.Buffer.Blist.Contents.{
  contents, All, All-append, All-left, All-mono, IsBehind, IsChain, contents-snoc, contents_raws,
  windows_raws, IsWindow_raws, snoc-IsDistinct, snoc_apart, last?_split, find_node-snoc,
}

pub record IsTailed (s : Store) (l : Blist) : Type 0 where
  pub front : List Node
  pub t : Node
  pub split : l.buffers ≡ front ++ t ∷ []
  pub cached : l.cache ≡ some t.id
  pub chain : IsChain s (front ++ t ∷ [])
  pub behind : All (IsBehind t.bptr) front

-- `sync_tail` gives a list with the same bytes, whose last node is cached and ends where the
-- cached one did.
pub record Synced (s : Store) (l : Blist) (p : Ptr) : Type 0 where
  pub l' : Blist
  pub s' : Store
  pub runs : sync_tail l s ≡ ok (l', s')
  pub tailed : IsTailed s' l'
  pub raws_same : s'.raws ≡ s.raws
  pub platform_same : s'.platform ≡ s.platform
  pub allocator_same : s'.allocator ≡ s.allocator
  pub contents_same : contents s' l'.buffers ≡ contents s l.buffers
  pub raw_same : tailed.t.bptr.m_raw ≡ p.m_raw
  pub end_same : end tailed.t.bptr ≡ end p
  pub len_same : l'.len ≡ l.len
  pub num_same : l'.num + length l.buffers ≡ l.num + length l'.buffers

some_inj : {a b : Ptr} → some a ≡ some b → a ≡ b
some_inj e = cc

find-IsWindow :
    (s : Store) (i : ℕ) (ns : List Node) {p : Ptr}
    → All (λ n. IsWindow s n.bptr) ns
    → find_node i ns ≡ some p
    → IsWindow s p
unfolding find_node
find-IsWindow s i [] w h = cc
find-IsWindow s i (n ∷ ns) {p} w h = elim (Bool-cases (n.id == i)) [
  | inl here ↦ subst (IsWindow s) (some_inj (rw here at h)) w.0
  | inr there ↦ find-IsWindow s i ns w.1 (ground arith)
]

module _ (s : Store) (l : Blist) (chain : IsChain s l.buffers) (i : ℕ) (p : Ptr)
    (is_cached : l.cache ≡ some i) (is_found : find_node i l.buffers ≡ some p)
    (behind : All (IsBehind p) l.buffers) where
  pub window : IsWindow s p
  window = find-IsWindow s i l.buffers chain.windows is_found

  pub cache_ptr-ok : cache_ptr l s ≡ ok (p, s)
  unfolding cache_ptr
  cache_ptr-ok = rw (is_cached, is_found)

  -- The new last node, where the cached one is not the last.
  abbrev moved : Node
  moved = record { id = s.next_node; bptr = record p { m_off = p.m_off + p.m_len; m_len = 0 } }

  sub_ptr-ok : sub_ptr p p.m_len 0 s ≡ ok (record p { m_off = p.m_off + p.m_len; m_len = 0 }, s)
  unfolding sub_ptr
  sub_ptr-ok = rw (window.is_raw) (ground arith)

  stays : (n : Node) → last? l.buffers ≡ some n → n.id ≡ i → Synced s l p
  stays n is_last same =
      let (front, e) = last?_split l.buffers n is_last in
      let split_chain : IsChain s (front ++ n ∷ []) = subst (IsChain s) e chain in
      let it_is : n.bptr ≡ p = some_inj (
        sym (find_node-snoc front n (snoc_apart front n split_chain.distinct))
        ∙ ap (λ k. find_node k (front ++ n ∷ [])) same
        ∙ ap (find_node i) (sym e)
        ∙ is_found) in
      record {
        l' = l;
        s' = s;
        runs = unfold sync_tail cache_is_back in rw (is_cached, is_last, (==_iff n.id i).1 same);
        tailed = record {
          front = front;
          t = n;
          split = e;
          cached = is_cached ∙ ap some (sym same);
          chain = split_chain;
          behind =
              subst (λ q. All (IsBehind q) front) (sym it_is)
                (All-left (IsBehind p) front (n ∷ []) (subst (All (IsBehind p)) e behind));
        };
        raws_same = refl;
        platform_same = refl;
        allocator_same = refl;
        contents_same = refl;
        raw_same = ap (λ (q : Ptr). q.m_raw) it_is;
        end_same = ap (λ (q : Ptr). end q) it_is;
        len_same = refl;
        num_same = refl;
      }

  abbrev after : Store
  after = record s { next_node = suc s.next_node }

  moves : cache_is_back l ≡ false → Synced s l p
  moves not_back = record {
    l' = record l { buffers = l.buffers ++ moved ∷ []; cache = some s.next_node; num = l.num + 1 };
    s' = after;
    runs = unfold sync_tail push_cached new_node in rw (not_back, cache_ptr-ok, sub_ptr-ok);
    tailed = record {
      front = l.buffers;
      t = moved;
      split = refl;
      cached = refl;
      chain = record {
        windows =
            All-append (λ n. IsWindow after n.bptr) l.buffers (moved ∷ [])
              (windows_raws s after refl l.buffers chain.windows)
              (
                IsWindow_raws s after refl moved.bptr (sub-IsWindow window p.m_len 0 (omega arith)),
                tt,
              );
        fresh =
            All-append (λ n. n.id < suc s.next_node) l.buffers (moved ∷ [])
              (All-mono (λ n. n.id < s.next_node) (λ n. n.id < suc s.next_node) l.buffers
                (λ n lt. omega arith) chain.fresh)
              (omega arith, tt);
        distinct = snoc-IsDistinct l.buffers moved chain.distinct chain.fresh;
      };
      behind =
          All-mono (IsBehind p) (IsBehind moved.bptr) l.buffers
            (λ n b j e r. omega (arith, b j e r)) behind;
    };
    raws_same = refl;
    platform_same = refl;
    allocator_same = refl;
    contents_same =
        contents-snoc after l.buffers moved
        ∙ append-nil (contents after l.buffers)
        ∙ contents_raws s after refl l.buffers;
    raw_same = refl;
    end_same = omega arith;
    len_same = refl;
    num_same = omega (arith, length-append l.buffers (moved ∷ []));
  }

  -- Where the cached node is one of a chain of nodes and owns the tail of its raw buffer, bringing
  -- the cache and the list together keeps the bytes, the raw buffers and the length, and leaves a
  -- cached last node that ends where the cached one did.
  pub sync_tail-Synced : Synced s l p
  sync_tail-Synced = elim (Option-cases (last? l.buffers)) [
    | inl none_left ↦ moves (unfold cache_is_back in rw (is_cached, none_left))
    | inr (n, is_last) ↦ elim (Bool-cases (n.id == i)) [
      | inl same ↦ stays n is_last ((==_iff n.id i).0 same)
      | inr other ↦ moves (unfold cache_is_back in rw (is_cached, is_last, other))
    ]
  ]
