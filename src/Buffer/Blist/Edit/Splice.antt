-- ===== src/Buffer/Blist/Edit/Splice.antt =====
-- splice of buffer::list without a claiming list, against the contents.
use mathlib.Core.Path.{subst}
use replica_wbcache.Prelude.{
  ℕ, zero, suc, Result, true, false, ◌+◌, ◌-◌, ◌^◌, ◌≤◌, ◌<◌, ◌≡◌, refl, sym, ap, ◌∙◌, inl, inr,
  Option, none, List, [], ◌∷◌, ◌++◌, append_assoc, append-nil, arith, ok, err, leb, ltb, ◌&&◌, ◌==◌,
  length, length-append, length-drop, take, drop, Bool-cases, ltb_ge, lt→ltb,
}
use replica_wbcache.Prelude.Slices.{
  take_all, drop-append_left, drop-append_right, take-append_right, take-append_left,
}
use replica_wbcache.Intarith.{u64}
use replica_wbcache.Intarith.Rounding.{u64-own}
use replica_wbcache.Buffer.Store.{Error, Store, end_of_buffer, bad_access}
use replica_wbcache.Buffer.Ptr.{Ptr, set_offset, set_length, raw_length}
use replica_wbcache.Buffer.Ptr.Access.{
  IsWindow, bytes, sub-IsWindow, length-bytes, raw_id-ok, raw_at-ok,
}
use replica_wbcache.Buffer.Ptr.Cut.{sub_ptr-ok, bytes-sub}
use replica_wbcache.Buffer.Blist.{Node, Blist, new_node}
use replica_wbcache.Buffer.Blist.Contents.{
  contents, contents-append, All, All-append, All-left, All-right, IsList, contents_raws,
  windows_raws, IsWindow_raws, bytes_raws,
}
use replica_wbcache.Buffer.Blist.Edit.Substr.{IsWithin, IsWithin-zero}
use replica_wbcache.Buffer.Blist.Edit.{splice_skip, splice_loop, front_bit, splice}

-- Where the first loop stops: the nodes before the cut, and the offset into the next one.
record Parts (s : Store) (passed ns : List Node) (off : ℕ) : Type 0 where
  front : List Node
  cur : List Node
  off' : ℕ
  runs : splice_skip passed ns off s ≡ ok ((passed ++ front, cur, off'), s)
  split : ns ≡ front ++ cur
  place : off ≡ length (contents s front) + off'
  inside : off' ≤ length (contents s cur)
  within : IsWithin off' cur

splice_skip-Parts :
    (s : Store) (passed ns : List Node) (off : ℕ)
    → All (λ n. IsWindow s n.bptr) ns
    → off ≤ length (contents s ns)
    → Parts s passed ns off
unfolding splice_skip
splice_skip-Parts s passed [] off w h = record {
  front = [];
  cur = [];
  off' = 0;
  runs = let e : off ≡ 0 = omega arith in rw (e, append-nil passed);
  split = refl;
  place = omega arith;
  inside = omega arith;
  within = refl;
}
splice_skip-Parts s passed (n ∷ ns) off w h =
    let size = length-bytes w.0 in
    let sum = length-append (bytes s n.bptr) (contents s ns) in
    elim (Bool-cases (ltb 0 off && leb n.bptr.m_len off)) [
      | inl past ↦
          let behind : n.bptr.m_len ≤ off = ground arith in
          let rest =
            splice_skip-Parts s (passed ++ n ∷ []) ns (off - n.bptr.m_len) w.1
              (omega (arith, size, sum)) in
          record {
            front = n ∷ rest.front;
            cur = rest.cur;
            off' = rest.off';
            runs = rw (past, rest.runs, append_assoc passed (n ∷ []) rest.front);
            split = ap (λ ms. n ∷ ms) rest.split;
            place =
                omega
                  (arith, rest.place, size, length-append (bytes s n.bptr) (contents s rest.front));
            inside = rest.inside;
            within = rest.within;
          }
      | inr here ↦ record {
        front = [];
        cur = n ∷ ns;
        off' = off;
        runs = rw (here, append-nil passed);
        split = refl;
        place = omega arith;
        inside = h;
        within = ground arith;
      }
    ]

-- A node whose first `k` bytes are cut off.
module _ (s : Store) (n : Node) (w : IsWindow s n.bptr) (k : ℕ) (h : k ≤ n.bptr.m_len) where
  abbrev cut : Node
  cut = record n { bptr = record n.bptr { m_off = k + n.bptr.m_off; m_len = n.bptr.m_len - k } }

  cut-IsWindow : IsWindow s cut.bptr
  cut-IsWindow = record {
    i = w.i;
    r = w.r;
    is_raw = w.is_raw;
    holds = w.holds;
    fits = omega (arith, w.fits);
    small = w.small;
  }

  set_offset-ok :
      set_offset n.bptr (u64 (k + n.bptr.m_off)) s
      ≡ ok (record n.bptr { m_off = k + n.bptr.m_off }, s)
  unfolding set_offset raw_length
  set_offset-ok =
      let fits : leb (k + n.bptr.m_off) (length w.r.m_data) ≡ true = ground (arith, w.fits) in
      let whole : u64 (k + n.bptr.m_off) ≡ k + n.bptr.m_off = omega (arith, w.fits, w.small) in
      rw (whole, raw_id-ok w, raw_at-ok w, fits)

  set_length-ok :
      set_length (record n.bptr { m_off = k + n.bptr.m_off }) (n.bptr.m_len - k) s
      ≡ ok (cut.bptr, s)
  unfolding set_length raw_length
  set_length-ok =
      let fits : leb (n.bptr.m_len - k) (length w.r.m_data) ≡ true = ground (arith, w.fits) in
      rw (w.is_raw, raw_at-ok w, fits)

  same_place : cut.bptr ≡ record n.bptr { m_off = n.bptr.m_off + k; m_len = n.bptr.m_len - k }
  same_place =
      let e : k + n.bptr.m_off ≡ n.bptr.m_off + k = omega arith in
      ap (λ (o : ℕ). record n.bptr { m_off = o; m_len = n.bptr.m_len - k }) e

  cut-bytes : bytes s cut.bptr ≡ drop k (bytes s n.bptr)
  cut-bytes =
      ap (bytes s) same_place
      ∙ bytes-sub s n.bptr k (n.bptr.m_len - k) (omega arith)
      ∙ take_all (n.bptr.m_len - k) (drop k (bytes s n.bptr))
          (omega (arith, length-bytes w, length-drop k (bytes s n.bptr)))

-- What the second loop leaves behind the cut.
record Leaves (s : Store) (cur : List Node) (off len size num : ℕ)
    (run : Result Error ((List Node × ℕ × ℕ × Option Blist) × Store)) : Type 0 where
  rest : List Node
  size' : ℕ
  num' : ℕ
  runs : run ≡ ok ((rest, size', num', none), s)
  holds : contents s rest ≡ drop (off + len) (contents s cur)
  windows : All (λ n. IsWindow s n.bptr) rest
  size_lem : size' + (off + len) ≡ size
  num_lem : num' + length cur ≡ num + length rest

splice_loop-Leaves :
    (s : Store) (cur : List Node) (off len size num : ℕ)
    → All (λ n. IsWindow s n.bptr) cur
    → IsWithin off cur
    → off + len ≤ length (contents s cur)
    → off + len < 2 ^ 64
    → (len ≡ 0 → off ≡ 0)
    → off + len ≤ size
    → length cur ≤ num
    → Leaves s cur off len size num (splice_loop cur off len size num none s)
unfolding splice_loop
splice_loop-Leaves s cur off zero size num w i h nowrap zero_off room many =
    let start : off + 0 ≡ 0 = omega (arith, zero_off refl) in
    record {
      rest = cur;
      size' = size;
      num' = num;
      runs = refl;
      holds = sym (ap (λ (k : ℕ). drop k (contents s cur)) start);
      windows = w;
      size_lem = omega (arith, start);
      num_lem = refl;
    }
splice_loop-Leaves s [] off (suc left) size num w i h nowrap zero_off room many =
    absurd (omega arith)
splice_loop-Leaves s (n ∷ ns) off (suc left) size num w i h nowrap zero_off room many =
    let len = suc left in
    let bytes_here = length-bytes w.0 in
    let sum = length-append (bytes s n.bptr) (contents s ns) in
    elim (Bool-cases (ltb (off + len) n.bptr.m_len)) [
      | inl part ↦
          let k = off + len in
          let fits : k ≤ n.bptr.m_len = ground arith in
          record {
            rest = cut s n w.0 k fits ∷ ns;
            size' = size - k;
            num' = num;
            runs = rw (
              u64-own (off + len) nowrap,
              part,
              set_offset-ok s n w.0 k fits,
              set_length-ok s n w.0 k fits,
            );
            holds =
                ap (λ xs. xs ++ contents s ns) (cut-bytes s n w.0 k fits)
                ∙ sym (
                    drop-append_left k (bytes s n.bptr) (contents s ns)
                      (omega (arith, bytes_here, fits)));
            windows = (cut-IsWindow s n w.0 k fits, w.1);
            size_lem = omega (arith, room);
            num_lem = omega arith;
          }
      | inr over ↦
          let reached = ltb_ge (off + len) n.bptr.m_len over in
          let gone = n.bptr.m_len - off in
          let rest =
            splice_loop-Leaves s ns 0 (len - gone) (size - n.bptr.m_len) (num - 1) w.1
              (IsWithin-zero ns) (omega (arith, bytes_here, sum, reached, i))
              (omega (arith, nowrap)) (λ _. refl) (omega (arith, room, reached, i))
              (omega (arith, many)) in
          record {
            rest = rest.rest;
            size' = rest.size';
            num' = rest.num';
            runs = rw (u64-own (off + len) nowrap, over, rest.runs);
            holds =
                rest.holds
                ∙ ap (λ (j : ℕ). drop j (contents s ns)) (omega (arith, bytes_here, reached, i))
                ∙ sym (
                    drop-append_right (off + len) (bytes s n.bptr) (contents s ns)
                      (omega (arith, bytes_here, reached)));
            windows = rest.windows;
            size_lem = omega (arith, rest.size_lem, reached, i, room);
            num_lem = omega (arith, rest.num_lem, many);
          }
    ]

-- Past the end, the second loop reads the list's root as a node.
splice_loop-past :
    (s : Store) (cur : List Node) (off len size num : ℕ)
    → All (λ n. IsWindow s n.bptr) cur
    → IsWithin off cur
    → length (contents s cur) < off + len
    → off + len < 2 ^ 64
    → 0 < len
    → splice_loop cur off len size num none s ≡ err bad_access
unfolding splice_loop
splice_loop-past s cur off zero size num w i past nowrap some_bytes = absurd (omega arith)
splice_loop-past s [] off (suc left) size num w i past nowrap some_bytes = refl
splice_loop-past s (n ∷ ns) off (suc left) size num w i past nowrap some_bytes =
    let len = suc left in
    let bytes_here = length-bytes w.0 in
    let sum = length-append (bytes s n.bptr) (contents s ns) in
    let over : ltb (off + len) n.bptr.m_len ≡ false = ground (arith, bytes_here, sum) in
    let gone = n.bptr.m_len - off in
    rw (u64-own (off + len) nowrap, over)
      (splice_loop-past s ns 0 (len - gone) (size - n.bptr.m_len) (num - 1) w.1 (IsWithin-zero ns)
        (omega (arith, bytes_here, sum, i)) (omega (arith, nowrap))
        (omega (arith, bytes_here, sum, i)))

-- The reference to the bytes before the cut, in the node where it begins.
record Fronts (s : Store) (cur : List Node) (off : ℕ) : Type 0 where
  bit : List Node
  s' : Store
  runs : front_bit cur off s ≡ ok (bit, s')
  raws_same : s'.raws ≡ s.raws
  holds : contents s' bit ≡ take off (contents s cur)
  windows : All (λ n. IsWindow s' n.bptr) bit

front_bit-Fronts :
    (s : Store) (cur : List Node) (off : ℕ)
    → All (λ n. IsWindow s n.bptr) cur
    → IsWithin off cur
    → Fronts s cur off
unfolding new_node
front_bit-Fronts s [] off w i = record {
  bit = [];
  s' = s;
  runs = refl;
  raws_same = refl;
  holds = ap (λ (k : ℕ). take {A = ℕ} k []) (sym i);
  windows = tt;
}
front_bit-Fronts s (n ∷ ns) zero w i = record {
  bit = [];
  s' = s;
  runs = refl;
  raws_same = refl;
  holds = refl;
  windows = tt;
}
front_bit-Fronts s (n ∷ ns) (suc o) w i =
    let off = suc o in
    let s' = record s { next_node = suc s.next_node } in
    let p : Ptr = record n.bptr { m_off = n.bptr.m_off + 0; m_len = off } in
    record {
      bit = record { id = s.next_node; bptr = p } ∷ [];
      s' = s';
      runs = rw (lt→ltb 0 off (omega arith), sub_ptr-ok s n.bptr w.0 0 off (omega (arith, i)));
      raws_same = refl;
      holds =
          append-nil (bytes s' p)
          ∙ bytes_raws s s' refl p
          ∙ bytes-sub s n.bptr 0 off (omega (arith, i))
          ∙ sym (
              take-append_left off (bytes s n.bptr) (contents s ns)
                (omega (arith, length-bytes w.0, i)));
      windows = (IsWindow_raws s s' refl p (sub-IsWindow w.0 0 off (omega (arith, i))), tt);
    }

-- The list without the bytes that were cut out. Its raw buffers are as they were.
pub record Spliced (s : Store) (l : Blist) (off len : ℕ)
    (run : Result Error ((Blist × Option Blist) × Store)) : Type 0 where
  pub l' : Blist
  pub s' : Store
  pub runs : run ≡ ok ((l', none), s')
  pub holds :
      contents s' l'.buffers
      ≡ take off (contents s l.buffers) ++ drop (off + len) (contents s l.buffers)
  pub windows : All (λ n. IsWindow s' n.bptr) l'.buffers
  pub counted : l'.len + len ≡ l.len
  pub numbered : l'.num ≡ length l'.buffers
  pub uncached : l'.cache ≡ none
  pub raws_same : s'.raws ≡ s.raws

-- Cutting in the second of two lists.
cut_second :
    (front cur : List ℕ) (off off' len : ℕ)
    → off ≡ length front + off'
    → front ++ (take off' cur ++ drop (off' + len) cur)
      ≡ take off (front ++ cur) ++ drop (off + len) (front ++ cur)
cut_second front cur off off' len e =
    sym (append_assoc front (take off' cur) (drop (off' + len) cur))
    ∙ ap (λ (k : ℕ). front ++ take k cur ++ drop (k + len) cur) (omega (arith, e))
    ∙ ap (λ xs. xs ++ drop (off - length front + len) cur)
        (sym (take-append_right off front cur (omega (arith, e))))
    ∙ ap (λ (k : ℕ). take off (front ++ cur) ++ drop k cur) (omega (arith, e))
    ∙ ap (λ xs. take off (front ++ cur) ++ xs)
        (sym (drop-append_right (off + len) front cur (omega (arith, e))))

module _ (s : Store) (l : Blist) (off len : ℕ) (valid : IsList s l) (some_bytes : 0 < len)
    (before : off < l.len) (nowrap : off + len < 2 ^ 64) where
  parts : Parts s [] l.buffers off
  parts = splice_skip-Parts s [] l.buffers off valid.chain.windows (omega (arith, valid.counted))

  -- The windows and the contents of the two parts.
  split_windows : All (λ n. IsWindow s n.bptr) (parts.front ++ parts.cur)
  split_windows = subst (All (λ n. IsWindow s n.bptr)) parts.split valid.chain.windows

  cur_windows : All (λ n. IsWindow s n.bptr) parts.cur
  cur_windows = All-right (λ n. IsWindow s n.bptr) parts.front parts.cur split_windows

  split_contents : contents s l.buffers ≡ contents s parts.front ++ contents s parts.cur
  split_contents = ap (contents s) parts.split ∙ contents-append s parts.front parts.cur

  bit : Fronts s parts.cur parts.off'
  bit = front_bit-Fronts s parts.cur parts.off' cur_windows parts.within

  after_windows : All (λ n. IsWindow bit.s' n.bptr) parts.cur
  after_windows = windows_raws s bit.s' bit.raws_same parts.cur cur_windows

  after_contents : contents bit.s' parts.cur ≡ contents s parts.cur
  after_contents = contents_raws s bit.s' bit.raws_same parts.cur

  total : length (contents s parts.front) + length (contents s parts.cur) ≡ l.len
  total = sym (
      valid.counted
      ∙ ap length split_contents
      ∙ length-append (contents s parts.front) (contents s parts.cur))

  nodes : length parts.front + length parts.cur ≡ l.num
  nodes = sym (valid.numbered ∙ ap length parts.split ∙ length-append parts.front parts.cur)

  tests : ((len == 0) ≡ false) × (leb l.len off ≡ false)
  tests = (ground arith, ground arith)

  fails : l.len < off + len → splice l off len none s ≡ err bad_access
  unfolding splice
  fails past = rw (
    tests.0,
    tests.1,
    parts.runs,
    bit.runs,
    splice_loop-past bit.s' parts.cur parts.off' len (l.len + parts.off') (l.num + length bit.bit)
        after_windows parts.within
        (omega (arith, parts.place, total, ap length after_contents, past))
        (omega (arith, parts.place, nowrap)) some_bytes,
  )

  loop :
      off + len ≤ l.len
      → Leaves bit.s' parts.cur parts.off' len (l.len + parts.off') (l.num + length bit.bit) (
          splice_loop parts.cur parts.off' len
            (l.len + parts.off')
            (l.num + length bit.bit)
            none
            bit.s')
  loop fits =
      splice_loop-Leaves bit.s' parts.cur parts.off' len (l.len + parts.off')
        (l.num + length bit.bit) after_windows parts.within
        (omega (arith, parts.place, total, ap length after_contents, fits))
        (omega (arith, parts.place, nowrap)) (λ z. absurd (omega arith))
        (omega (arith, parts.place, total, fits)) (omega (arith, nodes))

  cuts : off + len ≤ l.len → Spliced s l off len (splice l off len none s)
  unfolding splice
  cuts fits =
      let left = loop fits in
      record {
        l' = record {
          buffers = parts.front ++ (bit.bit ++ left.rest);
          cache = none;
          len = left.size';
          num = left.num';
        };
        s' = bit.s';
        runs = rw (tests.0, tests.1, parts.runs, bit.runs, left.runs);
        holds =
            contents-append bit.s' parts.front (bit.bit ++ left.rest)
            ∙ ap (λ xs. xs ++ contents bit.s' (bit.bit ++ left.rest))
                (contents_raws s bit.s' bit.raws_same parts.front)
            ∙ ap (λ ys. contents s parts.front ++ ys)
                (contents-append bit.s' bit.bit left.rest
                  ∙ ap (λ xs. xs ++ contents bit.s' left.rest) bit.holds
                  ∙ ap (λ ys. take parts.off' (contents s parts.cur) ++ ys)
                      (left.holds ∙ ap (drop (parts.off' + len)) after_contents))
            ∙ cut_second (contents s parts.front) (contents s parts.cur) off parts.off' len
                parts.place
            ∙ ap (λ xs. take off xs ++ drop (off + len) xs) (sym split_contents);
        windows =
            All-append (λ n. IsWindow bit.s' n.bptr) parts.front (bit.bit ++ left.rest)
              (windows_raws s bit.s' bit.raws_same parts.front
                (All-left (λ n. IsWindow s n.bptr) parts.front parts.cur split_windows))
              (All-append (λ n. IsWindow bit.s' n.bptr) bit.bit left.rest bit.windows left.windows);
        counted = omega (arith, left.size_lem);
        numbered = omega (
          arith,
          left.num_lem,
          nodes,
          length-append parts.front (bit.bit ++ left.rest),
          length-append bit.bit left.rest,
        );
        uncached = refl;
        raws_same = bit.raws_same;
      }

-- On a well-formed list and for a length that is not 0, where off + len does not wrap, splice(off,
-- len) without a claiming list leaves the bytes before `off` and from off + len on, in windows of
-- the raw buffers as they are, counts them and the nodes, and resets the tail cache, if the cut
-- lies within the list; if it starts before the end and reaches behind it, it reads the list's
-- root as a node; if it starts at the end or behind it, it throws end_of_buffer.
pub splice-contents :
    (s : Store) (l : Blist) (off len : ℕ)
    → IsList s l
    → 0 < len
    → off + len < 2 ^ 64
    → (off + len ≤ l.len → Spliced s l off len (splice l off len none s))
      × (off < l.len → l.len < off + len → splice l off len none s ≡ err bad_access)
      × (l.len ≤ off → splice l off len none s ≡ err end_of_buffer)
unfolding splice
splice-contents s l off len valid some_bytes nowrap = (
  λ fits. cuts s l off len valid some_bytes (omega arith) nowrap fits,
  λ before past. fails s l off len valid some_bytes before nowrap past,
  λ behind.
      let more : (len == 0) ≡ false = ground arith in
      let out : leb l.len off ≡ true = ground arith in rw (more, out),
)
