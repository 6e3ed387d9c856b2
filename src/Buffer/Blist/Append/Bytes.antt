-- ===== src/Buffer/Blist/Append/Bytes.antt =====
-- append(const char*, uint64_t) of buffer::list against the contents.
use mathlib.Core.Path.{subst}
use Prim.Native.Nat.{min}
use replica_wbcache.Prelude.{
  ℕ, ◌+◌, ◌-◌, ◌^◌, ◌≤◌, ◌<◌, ◌≡◌, refl, sym, ap, ◌∙◌, inl, inr, none, some, List, [], ◌++◌,
  append-nil, append_assoc, arith, Result, ok, ltb, length, length-append, get_elem?, take, drop,
  length-take, length-drop, Option-cases, Bool-cases, lt→ltb, ltb→lt, ltb_ge,
}
use replica_wbcache.Prelude.Slices.{take-append-drop, take_all}
use replica_wbcache.Buffer.Store.{Error, Store, ◌>>=◌}
use replica_wbcache.Buffer.Ptr
use replica_wbcache.Buffer.Ptr.{Ptr, end, unused_tail_length, have_raw}
use replica_wbcache.Buffer.Ptr.Access.{IsWindow, unused_tail_length-ok, same_raw_length}
use replica_wbcache.Buffer.Blist.{Blist, find_node, cache_ptr, get_append_buffer_unused_tail_length}
use replica_wbcache.Buffer.Blist.Append.{append_first, append_bytes, on_cache, refill_append_space}
use replica_wbcache.Buffer.Blist.Append.Sync.{Synced, sync_tail-Synced, window, cache_ptr-ok}
use replica_wbcache.Buffer.Blist.Append.Tail.{Adds, tail-IsWindow, append_tail-Adds}
use replica_wbcache.Buffer.Blist.Append.Refill.{CanAllocate, Refilled, refill_append_space-Refilled}
use replica_wbcache.Buffer.Blist.Contents.{contents, All, IsBehind, IsCached, IsChain, IsList}

some_inj : {a b : ℕ} → some a ≡ some b → a ≡ b
some_inj e = cc

nothing-Adds :
    (s : Store) (l : Blist) (src : List ℕ)
    → src ≡ []
    → IsChain s l.buffers
    → IsCached l.cache l.buffers
    → Adds s l src (ok (l, s))
nothing-Adds s l src is_empty chain tail = record {
  l' = l;
  s' = s;
  runs = refl;
  chain = chain;
  tail = tail;
  contents_lem = rw is_empty (sym (append-nil (contents s l.buffers)));
  len_same = refl;
  num_lem = refl;
  platform_same = refl;
  allocator_same = refl;
}

-- The first part: at most `room` bytes go behind the cached node.
pub record First (s : Store) (l : Blist) (bytes : List ℕ) : Type 0 where
  pub room : ℕ
  pub asks : get_append_buffer_unused_tail_length l s ≡ ok (room, s)
  pub adds : Adds s l (take (min (length bytes) room) bytes) (
      append_first
        (λ p. Ptr.append p (take (min (length bytes) room) bytes))
        (min (length bytes) room)
        l
        s)

module _ (s : Store) (l : Blist) (bytes : List ℕ) (chain : IsChain s l.buffers) where
  -- No bytes go there where nothing is cached, or where the cached node is full.
  skips :
      (room : ℕ)
      → IsCached l.cache l.buffers
      → min (length bytes) room ≡ 0
      → Adds s l (take (min (length bytes) room) bytes) (
          append_first
            (λ p. Ptr.append p (take (min (length bytes) room) bytes))
            (min (length bytes) room)
            l
            s)
  unfolding append_first
  skips room tail nothing = rw nothing (nothing-Adds s l [] refl chain tail)

  module _ (i : ℕ) (p : Ptr) (is_cached : l.cache ≡ some i)
      (is_found : find_node i l.buffers ≡ some p) (behind : All (IsBehind p) l.buffers) where
    synced : Synced s l p
    synced = sync_tail-Synced s l chain i p is_cached is_found behind

    puts :
        (y : Synced s l p) (src : List ℕ)
        → end y.tailed.t.bptr + length src ≤ length (tail-IsWindow y.tailed).r.m_data
        → 0 < length src
        → Adds s l src (append_first (λ q. Ptr.append q src) (length src) l s)
    unfolding append_first
    puts y src fits some_bytes =
        let a = append_tail-Adds y.tailed src fits in
        record {
          l' = a.l';
          s' = a.s';
          runs = rw (lt→ltb 0 (length src) some_bytes, y.runs) a.runs;
          chain = a.chain;
          tail = a.tail;
          contents_lem = a.contents_lem ∙ ap (λ xs. xs ++ src) y.contents_same;
          len_same = a.len_same ∙ y.len_same;
          num_lem = omega (arith, a.num_lem, y.num_same);
          platform_same = a.platform_same ∙ y.platform_same;
          allocator_same = a.allocator_same ∙ y.allocator_same;
        }

    from_room :
        (w : IsWindow s p) (room : ℕ)
        → room ≡ length w.r.m_data - end p
        → Adds s l (take (min (length bytes) room) bytes) (
            append_first
              (λ q. Ptr.append q (take (min (length bytes) room) bytes))
              (min (length bytes) room)
              l
              s)
    from_room w room is_room =
        let first = take (min (length bytes) room) bytes in
        let size : length first ≡ min (length bytes) room =
          omega (arith, length-take (min (length bytes) room) bytes) in
        elim (Bool-cases (ltb 0 (length first))) [
          | inl some_bytes ↦
              let y = synced in
              subst (λ (k : ℕ). Adds s l first (append_first (λ q. Ptr.append q first) k l s)) size
                (puts y first
                  (omega (
                    arith,
                    size,
                    y.end_same,
                    same_raw_length w (tail-IsWindow y.tailed) y.raws_same y.raw_same,
                    ltb→lt 0 (length first) some_bytes,
                  ))
                  (ltb→lt 0 (length first) some_bytes))
          | inr no_bytes ↦
              skips room (rw is_cached (p, is_found, behind))
                (omega (arith, size, ltb_ge 0 (length first) no_bytes))
        ]

    cached-First : First s l bytes
    cached-First =
        let w = window s l chain i p is_cached is_found behind in
        record {
          room = length w.r.m_data - end p;
          asks =
              unfold get_append_buffer_unused_tail_length in
              rw (cache_ptr-ok s l chain i p is_cached is_found behind) (unused_tail_length-ok w);
          adds = from_room w (length w.r.m_data - end p) refl;
        }

  uncached-First : l.cache ≡ none → First s l bytes
  uncached-First is_none = record {
    room = 0;
    asks =
        unfold get_append_buffer_unused_tail_length cache_ptr unused_tail_length have_raw in
        rw is_none;
    adds = skips 0 (rw is_none tt) (omega arith);
  }

  pub append_first_lem : IsCached l.cache l.buffers → First s l bytes
  append_first_lem tail = elim (Option-cases l.cache) [
    | inl is_none ↦ uncached-First is_none
    | inr (i, is_cached) ↦
        let (p, is_found, behind) = rw is_cached at tail in
        cached-First i p is_cached is_found behind
  ]

-- The second part: what is left goes to a node of its own.
module _ (s : Store) (l : Blist) (src : List ℕ) (chain : IsChain s l.buffers)
    (allocates : CanAllocate s.allocator)
    (fits : length src + s.platform.sizeof_raw_combined + 8192 < 2 ^ 64) where
  refills :
      (z : Refilled s l (length src))
      → Adds s l src
          ((refill_append_space l (length src) >>= λ l'. on_cache (λ p. Ptr.append p src) l') s)
  refills z =
      let w = tail-IsWindow z.tailed in
      let at_end : some (length s.raws) ≡ some w.i =
        ap (λ (p : Ptr). p.m_raw) (sym z.place) ∙ w.is_raw in
      let holds : get_elem? z.s'.raws (length s.raws) ≡ some w.r =
        ap (get_elem? z.s'.raws) (some_inj at_end) ∙ w.holds in
      let no_bytes : end z.tailed.t.bptr ≡ 0 = ap (λ (p : Ptr). end p) z.place in
      let a = append_tail-Adds z.tailed src (omega (arith, no_bytes, z.room w.r holds)) in
      record {
        l' = a.l';
        s' = a.s';
        runs = rw z.runs a.runs;
        chain = a.chain;
        tail = a.tail;
        contents_lem = a.contents_lem ∙ ap (λ xs. xs ++ src) z.contents_same;
        len_same = a.len_same ∙ z.len_same;
        num_lem = omega (arith, a.num_lem, z.num_lem);
        platform_same = a.platform_same ∙ z.platform_same;
        allocator_same = a.allocator_same ∙ z.allocator_same;
      }

  pub refills-Adds :
      Adds s l src
        ((refill_append_space l (length src) >>= λ l'. on_cache (λ p. Ptr.append p src) l') s)
  refills-Adds = refills (refill_append_space-Refilled s l (length src) chain fits allocates)

-- Two runs, one after the other.
joined :
    {s : Store} {l : Blist} {xs ys zs : List ℕ} {first second whole : Result Error (Blist × Store)}
    (a : Adds s l xs first)
    → whole ≡ second
    → Adds a.s' a.l' ys second
    → xs ++ ys ≡ zs
    → Adds s l zs whole
joined {s} {l} {xs} {ys} a e b whole = record {
  l' = b.l';
  s' = b.s';
  runs = e ∙ b.runs;
  chain = b.chain;
  tail = b.tail;
  contents_lem =
      b.contents_lem
      ∙ ap (λ c. c ++ ys) a.contents_lem
      ∙ append_assoc (contents s l.buffers) xs ys
      ∙ ap (λ c. contents s l.buffers ++ c) whole;
  len_same = b.len_same ∙ a.len_same;
  num_lem = omega (arith, a.num_lem, b.num_lem);
  platform_same = b.platform_same ∙ a.platform_same;
  allocator_same = b.allocator_same ∙ a.allocator_same;
}

-- A run that returns a well-formed list with `src` behind the bytes of `l`.
pub record Appends (s : Store) (l : Blist) (src : List ℕ) (run : Result Error (Blist × Store))
    : Type 0 where
  pub l' : Blist
  pub s' : Store
  pub runs : run ≡ ok (l', s')
  pub valid : IsList s' l'
  pub contents_lem : contents s' l'.buffers ≡ contents s l.buffers ++ src
  pub platform_same : s'.platform ≡ s.platform
  pub allocator_same : s'.allocator ≡ s.allocator

-- The counter of bytes, raised beforehand by the caller, is right.
counts :
    (s : Store) (l : Blist) (src : List ℕ) (run : Result Error (Blist × Store))
    → IsList s l
    → Adds s (record l { len = l.len + length src }) src run
    → Appends s l src run
counts s l src run valid a = record {
  l' = a.l';
  s' = a.s';
  runs = a.runs;
  valid = record {
    chain = a.chain;
    tail = a.tail;
    counted = omega (
      arith,
      a.len_same,
      valid.counted,
      ap length a.contents_lem,
      length-append (contents s l.buffers) src,
    );
    numbered = omega (arith, a.num_lem, valid.numbered);
  };
  contents_lem = a.contents_lem;
  platform_same = a.platform_same;
  allocator_same = a.allocator_same;
}

-- On a well-formed list, append(data, len) succeeds, and gives a well-formed list whose contents
-- are the old ones and then the bytes, if `posix_memalign` succeeds at a word's alignment and the
-- length leaves 8192 bytes and a raw_combined below 2^64.
pub append_bytes-Appends :
    (s : Store) (l : Blist) (src : List ℕ)
    → IsList s l
    → CanAllocate s.allocator
    → length src + s.platform.sizeof_raw_combined + 8192 < 2 ^ 64
    → Appends s l src (append_bytes l src s)
unfolding append_bytes
append_bytes-Appends s l src valid allocates fits =
    counts s l src (append_bytes l src s) valid
      (both (append_first_lem s l₁ src valid.chain valid.tail))
  where
    l₁ : Blist
    l₁ = record l { len = l.len + length src }

    both : First s l₁ src → Adds s l₁ src (append_bytes l src s)
    both f =
        let first = min (length src) f.room in
        let rest = drop first src in
        let size : length rest ≡ length src - first = omega (arith, length-drop first src) in
        let a = f.adds in
        elim (Bool-cases (ltb 0 (length src - first))) [
          | inl more ↦
              let tail_run = λ (k : ℕ).
                (refill_append_space a.l' k >>= λ l'. on_cache (λ p. Ptr.append p rest) l') a.s' in
              joined a (rw (f.asks, a.runs, more) refl)
                (subst (λ (k : ℕ). Adds a.s' a.l' rest (tail_run k)) size
                  (refills-Adds a.s' a.l' rest a.chain (rw a.allocator_same allocates)
                    (rw a.platform_same (omega (arith, size)))))
                (take-append-drop first src)
          | inr done ↦
              joined a (rw (f.asks, a.runs, done) refl)
                (nothing-Adds a.s' a.l' [] refl a.chain a.tail)
                (append-nil (take first src)
                  ∙ take_all first src (omega (arith, ltb_ge 0 (length src - first) done)))
        ]
