-- ===== src/Buffer/Blist/Append/Window.antt =====
-- append(const ptr&, uint64_t, uint64_t) of buffer::list, and claim_append_piecewise, against the
-- contents.
use mathlib.Core.Path.{subst}
use replica_wbcache.Prelude.{
  ℕ, suc, Result, true, false, ◌+◌, ◌≤◌, ◌≡◌, refl, sym, ap, ◌∙◌, inl, inr, Bool, ◌&&◌, Option,
  none, some, List, [], ◌∷◌, ◌++◌, append-nil, append_assoc, arith, ok, leb, ◌==◌, length,
  length-append, take, drop, Bool-cases, ==_iff,
}
use replica_wbcache.Prelude.Slices.{take-add, drop-drop, take_all, length-slice}
use replica_wbcache.Intarith.{u64}
use replica_wbcache.Buffer.Store.{Error, Store}
use replica_wbcache.Buffer.Ptr.{Ptr, end, set_length, raw_length, raw_id}
use replica_wbcache.Buffer.Ptr.Access.{
  IsWindow, bytes, data_of, sub-IsWindow, raw_at-ok, length-bytes,
}
use replica_wbcache.Buffer.Ptr.Cut.{sub_ptr-ok, bytes-sub}
use replica_wbcache.Buffer.Blist.{Node, Blist, last?, new_node, clear}
use replica_wbcache.Buffer.Blist.Contents.{
  contents, contents-snoc, All, All-append, All-left, bytes_raws, contents_raws, windows_raws,
  IsWindow_raws, last?_split,
}
use replica_wbcache.Buffer.Blist.Append.{
  same_raw, joins, set_last, append_window, append_each, claim_append_piecewise,
}

-- A list that has got `xs` behind its bytes, in the raw buffers that were there.
pub record Grows (s : Store) (l : Blist) (xs : List ℕ) (run : Result Error (Blist × Store))
    : Type 0 where
  pub l' : Blist
  pub s' : Store
  pub runs : run ≡ ok (l', s')
  pub holds : contents s' l'.buffers ≡ contents s l.buffers ++ xs
  pub windows : All (λ n. IsWindow s' n.bptr) l'.buffers
  pub counted : l'.len ≡ l.len + length xs
  pub raws_same : s'.raws ≡ s.raws

same_raw_lem : (a b : Option ℕ) → same_raw a b ≡ true → a ≡ b
same_raw_lem none none h = refl
same_raw_lem none (some j) h = cc
same_raw_lem (some i) none h = cc
same_raw_lem (some i) (some j) h = ap some ((==_iff i j).0 h)

set_last-snoc :
    (n m : Node) (front : List Node) → set_last (some m) (front ++ n ∷ []) ≡ front ++ m ∷ []
unfolding set_last
set_last-snoc n m [] = refl
set_last-snoc n m (x ∷ []) = refl
set_last-snoc n m (x ∷ y ∷ front) = ap (λ ns. x ∷ ns) (set_last-snoc n m (y ∷ front))

both_true : (a b : Bool) → (a && b) ≡ true → (a ≡ true) × (b ≡ true)
both_true true b h = (refl, h)
both_true false b h = cc

joins-some :
    (o : Option Node) (p : Ptr) (off : ℕ) → joins o p off ≡ true → (n : Node) × (o ≡ some n)
joins-some none p off h = cc
joins-some (some n) p off h = (n, refl)

module _ (s : Store) (l : Blist) (p : Ptr) (off len : ℕ)
    (all : All (λ n. IsWindow s n.bptr) l.buffers) (w : IsWindow s p)
    (h : off + len ≤ p.m_len) where
  abbrev part : List ℕ
  part = take len (drop off (bytes s p))

  length-part : length part ≡ len
  length-part = length-slice off len (bytes s p) (omega (arith, length-bytes w, h))

  asserted : leb (u64 (len + off)) p.m_len ≡ true
  asserted = ground (arith, w.fits, w.small)

  -- A window that goes on where the last node ends makes that node longer.
  module _ (n : Node) (same : n.bptr.m_raw ≡ p.m_raw) (ends : end n.bptr ≡ p.m_off + off) where
    abbrev longer : Ptr
    longer = record n.bptr { m_len = n.bptr.m_len + len }

    longer-IsWindow : IsWindow s longer
    longer-IsWindow = record {
      i = w.i;
      r = w.r;
      is_raw = same ∙ w.is_raw;
      holds = w.holds;
      fits = omega (arith, w.fits, ends, h);
      small = w.small;
    }

    longer-bytes : bytes s longer ≡ bytes s n.bptr ++ part
    longer-bytes =
        let d = data_of s n.bptr.m_raw in
        let o = n.bptr.m_off in
        let e : n.bptr.m_len + o ≡ p.m_off + off = omega (arith, ends) in
        take-add n.bptr.m_len len (drop o d)
        ∙ ap (λ xs. bytes s n.bptr ++ xs)
            (ap (λ xs. take len xs) (drop-drop n.bptr.m_len o d)
              ∙ ap (λ (k : ℕ). take len (drop k d)) e
              ∙ ap (λ r. take len (drop (p.m_off + off) (data_of s r))) same
              ∙ bytes-sub s p off len h)

    set_length-longer : set_length n.bptr (n.bptr.m_len + len) s ≡ ok (longer, s)
    unfolding set_length raw_length raw_id
    set_length-longer =
        let room : leb (n.bptr.m_len + len) (length w.r.m_data) ≡ true =
          ground (arith, longer-IsWindow.fits) in
        rw (same, w.is_raw, raw_at-ok w, room)

  joined :
      (n : Node)
      → last? l.buffers ≡ some n
      → joins (some n) p off ≡ true
      → Grows s l part (append_window l p off len s)
  unfolding append_window
  joined n is_last join =
      let (same_at, ends_at) =
        both_true (same_raw n.bptr.m_raw p.m_raw) (end n.bptr == p.m_off + off) join in
      let same = same_raw_lem n.bptr.m_raw p.m_raw same_at in
      let ends : end n.bptr ≡ p.m_off + off = (==_iff (end n.bptr) (p.m_off + off)).0 ends_at in
      let (front, split) = last?_split l.buffers n is_last in
      let m : Node = record n { bptr = longer n same ends } in
      let all' = subst (All (λ k. IsWindow s k.bptr)) split all in
      let placed : set_last (some m) l.buffers ≡ front ++ m ∷ [] =
        ap (set_last (some m)) split ∙ set_last-snoc n m front in
      record {
        l' = record l { buffers = front ++ m ∷ []; len = l.len + len };
        s' = s;
        runs =
            rw (asserted, is_last, join, set_length-longer n same ends)
              (ap (λ ns. ok (record l { buffers = ns; len = l.len + len }, s)) placed);
        holds =
            contents-snoc s front m
            ∙ ap (λ xs. contents s front ++ xs) (longer-bytes n same ends)
            ∙ sym (append_assoc (contents s front) (bytes s n.bptr) part)
            ∙ ap (λ xs. xs ++ part) (sym (contents-snoc s front n) ∙ ap (contents s) (sym split));
        windows =
            All-append (λ k. IsWindow s k.bptr) front (m ∷ [])
              (All-left (λ k. IsWindow s k.bptr) front (n ∷ []) all')
              (longer-IsWindow n same ends, tt);
        counted = omega (arith, length-part);
        raws_same = refl;
      }

  apart : joins (last? l.buffers) p off ≡ false → Grows s l part (append_window l p off len s)
  unfolding append_window new_node
  apart apart_at =
      let s' = record s { next_node = suc s.next_node } in
      let q : Ptr = record p { m_off = p.m_off + off; m_len = len } in
      let m : Node = record { id = s.next_node; bptr = q } in
      record {
        l' = record l { buffers = l.buffers ++ m ∷ []; len = l.len + len; num = l.num + 1 };
        s' = s';
        runs = rw (asserted, apart_at, sub_ptr-ok s p w off len h);
        holds =
            contents-snoc s' l.buffers m
            ∙ ap (λ xs. xs ++ bytes s' q) (contents_raws s s' refl l.buffers)
            ∙ ap (λ xs. contents s l.buffers ++ xs)
                (bytes_raws s s' refl q ∙ bytes-sub s p off len h);
        windows =
            All-append (λ n. IsWindow s' n.bptr) l.buffers (m ∷ [])
              (windows_raws s s' refl l.buffers all)
              (IsWindow_raws s s' refl q (sub-IsWindow w off len h), tt);
        counted = omega (arith, length-part);
        raws_same = refl;
      }

  -- Where the list's nodes and a ptr lie within their raw buffers, and off + len is not above the
  -- ptr's length, append(ptr, off, len) succeeds, puts those bytes of the ptr behind the list's and
  -- counts them, in windows of the raw buffers as they are, whether it adds a node or makes the last
  -- one longer.
  pub append_window-Grows : Grows s l part (append_window l p off len s)
  append_window-Grows = elim (Bool-cases (joins (last? l.buffers) p off)) [
    | inl goes_on ↦
        let (n, is_last) = joins-some (last? l.buffers) p off goes_on in
        joined n is_last (subst (λ o. joins o p off ≡ true) is_last goes_on)
    | inr stands ↦ apart stands
  ]

-- Windows of whole nodes, one after another.
append_each-Grows :
    (s : Store) (l : Blist) (ns : List Node)
    → All (λ n. IsWindow s n.bptr) l.buffers
    → All (λ n. IsWindow s n.bptr) ns
    → Grows s l (contents s ns) (append_each l ns s)
unfolding append_each
append_each-Grows s l [] all others = record {
  l' = l;
  s' = s;
  runs = refl;
  holds = sym (append-nil (contents s l.buffers));
  windows = all;
  counted = omega arith;
  raws_same = refl;
}
append_each-Grows s l (n ∷ ns) all others =
    let p = n.bptr in
    let one = append_window-Grows s l p 0 p.m_len all others.0 (omega arith) in
    let rest =
      append_each-Grows one.s' one.l' ns one.windows
        (windows_raws s one.s' one.raws_same ns others.1) in
    let whole : take p.m_len (bytes s p) ≡ bytes s p =
      take_all p.m_len (bytes s p) (omega (arith, length-bytes others.0)) in
    let tail : contents one.s' ns ≡ contents s ns = contents_raws s one.s' one.raws_same ns in
    record {
      l' = rest.l';
      s' = rest.s';
      runs = rw (one.runs, rest.runs);
      holds =
          rest.holds
          ∙ ap (λ xs. xs ++ contents one.s' ns) one.holds
          ∙ append_assoc (contents s l.buffers) (take p.m_len (bytes s p)) (contents one.s' ns)
          ∙ ap (λ xs. contents s l.buffers ++ xs)
              (ap (λ xs. xs ++ contents one.s' ns) whole ∙ ap (λ xs. bytes s p ++ xs) tail);
      windows = rest.windows;
      counted =
          rw (length-append (bytes s p) (contents s ns))
            (omega (arith, rest.counted, one.counted, ap length whole, ap length tail));
      raws_same = rest.raws_same ∙ one.raws_same;
    }

-- Where the nodes of two lists lie within their raw buffers, claim_append_piecewise succeeds, puts
-- the other list's bytes behind this one's and counts them, and clears the other list.
pub claim_append_piecewise-contents :
    (s : Store) (l other : Blist)
    → All (λ n. IsWindow s n.bptr) l.buffers
    → All (λ n. IsWindow s n.bptr) other.buffers
    → (l' : Blist) × (s' : Store) × (claim_append_piecewise l other s ≡ ok ((l', clear other), s'))
      × (contents s' l'.buffers ≡ contents s l.buffers ++ contents s other.buffers)
      × (l'.len ≡ l.len + length (contents s other.buffers))
unfolding claim_append_piecewise
claim_append_piecewise-contents s l other all others =
    let g = append_each-Grows s l other.buffers all others in
    (g.l', g.s', rw g.runs, g.holds, g.counted)
