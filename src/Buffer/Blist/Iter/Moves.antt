-- ===== src/Buffer/Blist/Iter/Moves.antt =====
-- Where the iterators of buffer::list go.
use replica_wbcache.Prelude.{
  ℕ, zero, suc, Result, true, ◌+◌, ◌-◌, ◌^◌, ◌≤◌, ◌<◌, ◌≡◌, refl, sym, ap, ◌∙◌, inl, inr, List, [],
  ◌∷◌, arith, ok, err, leb, length, length-append, drop, Bool-cases, leb→le,
}
use replica_wbcache.Prelude.Slices.{drop-append_right, drop-drop, drop_all}
use replica_wbcache.Intarith.{u64}
use replica_wbcache.Buffer.Store.{Error, Store, end_of_buffer}
use replica_wbcache.Buffer.Ptr.Access.{IsWindow, bytes, length-bytes}
use replica_wbcache.Buffer.Blist.{Node}
use replica_wbcache.Buffer.Blist.Contents.{contents, All}
use replica_wbcache.Buffer.Blist.Iter.{Iter, advance_loop, arrive, advance}

-- The offset is before the end of the first node.
abbrev pub IsInside : ℕ → List Node → Type 0
IsInside off [] = off ≡ 0
IsInside off (n ∷ ns) = off < n.bptr.m_len

-- The nodes and the offset that are left agree with the place in the whole list.
pub record IsOn (s : Store) (it : Iter) : Type 0 where
  pub all_windows : All (λ n. IsWindow s n.bptr) it.m_list
  pub windows : All (λ n. IsWindow s n.bptr) it.m_list_it
  pub rest_same : drop it.m_r_off (contents s it.m_list_it) ≡ drop it.m_a_off (contents s it.m_list)
  pub total :
      it.m_a_off + length (contents s it.m_list_it) ≡ it.m_r_off + length (contents s it.m_list)
  pub small : length (contents s it.m_list) < 2 ^ 64
  pub ordered : it.m_r_off ≤ it.m_a_off
  pub before : it.m_a_off ≤ length (contents s it.m_list)

-- And the iterator is not behind the bytes of its node.
pub record IsAt (s : Store) (it : Iter) : Type 0 where
  pub on : IsOn s it
  pub inside : IsInside it.m_r_off it.m_list_it

-- An offset behind the first node leaves that node.
abbrev pub IsFewer : List Node → ℕ → List Node → Type 0
IsFewer [] off cur = Unit {0}
IsFewer (n ∷ ns) off cur = n.bptr.m_len ≤ off → length cur ≤ length ns

-- Where the loop of `+=` stops.
record Lands (s : Store) (ns : List Node) (off : ℕ) : Type 0 where
  cur : List Node
  r : ℕ
  runs : advance_loop ns off ≡ (cur, r)
  windows : All (λ n. IsWindow s n.bptr) cur
  inside : IsInside r cur
  rest_same : drop r (contents s cur) ≡ drop off (contents s ns)
  total : r + length (contents s ns) ≡ off + length (contents s cur)
  fewer : length cur ≤ length ns
  lower : r ≤ off
  left : IsFewer ns off cur

advance_loop-Lands :
    (s : Store) (ns : List Node) (off : ℕ)
    → All (λ n. IsWindow s n.bptr) ns
    → off ≤ length (contents s ns)
    → Lands s ns off
unfolding advance_loop
advance_loop-Lands s [] off w h = record {
  cur = [];
  r = 0;
  runs = let e : off ≡ 0 = omega arith in rw e;
  windows = tt;
  inside = refl;
  rest_same = sym (drop_all {A = ℕ} off [] (omega arith));
  total = omega arith;
  fewer = omega arith;
  lower = omega arith;
  left = tt;
}
advance_loop-Lands s (n ∷ ns) off w h =
    let size = length-bytes w.0 in
    let sum = length-append (bytes s n.bptr) (contents s ns) in
    elim (Bool-cases (leb n.bptr.m_len off)) [
      | inl past ↦
          let behind = leb→le n.bptr.m_len off past in
          let rest = advance_loop-Lands s ns (off - n.bptr.m_len) w.1 (omega (arith, size, sum)) in
          record {
            cur = rest.cur;
            r = rest.r;
            runs = rw past rest.runs;
            windows = rest.windows;
            inside = rest.inside;
            rest_same =
                rest.rest_same
                ∙ sym (
                    drop-append_right off (bytes s n.bptr) (contents s ns) (omega (arith, size))
                    ∙ ap (λ (k : ℕ). drop (off - k) (contents s ns)) size);
            total = omega (arith, rest.total, size, sum);
            fewer = omega (arith, rest.fewer);
            lower = omega (arith, rest.lower);
            left = λ _. rest.fewer;
          }
      | inr stop ↦ record {
        cur = n ∷ ns;
        r = off;
        runs = rw stop;
        windows = w;
        inside = ground arith;
        rest_same = refl;
        total = refl;
        fewer = omega arith;
        lower = omega arith;
        left = λ h'. absurd (ground arith);
      }
    ]

-- Past the end, an offset is left over.
advance_loop-past :
    (s : Store) (ns : List Node) (off : ℕ)
    → All (λ n. IsWindow s n.bptr) ns
    → length (contents s ns) < off
    → (k : ℕ) × (advance_loop ns off ≡ ([], suc k))
unfolding advance_loop
advance_loop-past s [] zero w h = absurd (omega arith)
advance_loop-past s [] (suc off) w h = (off, refl)
advance_loop-past s (n ∷ ns) off w h =
    let size = length-bytes w.0 in
    let sum = length-append (bytes s n.bptr) (contents s ns) in
    let past : leb n.bptr.m_len off ≡ true = ground arith in
    let (k, e) = advance_loop-past s ns (off - n.bptr.m_len) w.1 (omega (arith, size, sum)) in
    (k, rw past e)

-- An iterator that has moved on within its list.
pub record Moves (s : Store) (it : Iter) (off : ℕ) (run : Result Error (Iter × Store))
    : Type 0 where
  pub it' : Iter
  pub runs : run ≡ ok (it', s)
  pub valid : IsAt s it'
  pub list_same : it'.m_list ≡ it.m_list
  pub moved : it'.m_a_off ≡ it.m_a_off + off
  pub left : IsFewer it.m_list_it (it.m_r_off + off) it'.m_list_it

pub drop_after : (n m : ℕ) (xs : List ℕ) → drop (n + m) xs ≡ drop m (drop n xs)
drop_after n m xs = ap (λ (k : ℕ). drop k xs) (omega arith) ∙ sym (drop-drop m n xs)

arrive-ok :
    (s : Store) (it : Iter) (off : ℕ) (cur : List Node) (r : ℕ)
    → IsInside r cur
    → arrive it off (cur, r) s
      ≡ ok (record it { m_list_it = cur; m_r_off = r; m_a_off = u64 (it.m_a_off + off) }, s)
unfolding arrive
arrive-ok s it off [] zero h = refl
arrive-ok s it off [] (suc r) h = absurd (omega arith)
arrive-ok s it off (n ∷ ns) r h = refl

module _ (s : Store) (it : Iter) (on : IsOn s it) (off : ℕ) (word : it.m_a_off + off < 2 ^ 64) where
  r_off : u64 (it.m_r_off + off) ≡ it.m_r_off + off
  r_off = omega (arith, on.ordered)

  -- Up to the end, `+=` moves on by as many bytes; and it leaves the nodes that it has used up.
  pub advance-Moves :
      it.m_a_off + off ≤ length (contents s it.m_list) → Moves s it off (advance it off s)
  unfolding advance
  advance-Moves below =
      let land =
        advance_loop-Lands s it.m_list_it (it.m_r_off + off) on.windows (omega (arith, on.total)) in
      let a_off : u64 (it.m_a_off + off) ≡ it.m_a_off + off = omega arith in
      record {
        it' = record it { m_list_it = land.cur; m_r_off = land.r; m_a_off = it.m_a_off + off };
        runs = rw (r_off, land.runs, arrive-ok s it off land.cur land.r land.inside, a_off);
        valid = record {
          on = record {
            all_windows = on.all_windows;
            windows = land.windows;
            rest_same =
                land.rest_same
                ∙ drop_after it.m_r_off off (contents s it.m_list_it)
                ∙ ap (drop off) on.rest_same
                ∙ sym (drop_after it.m_a_off off (contents s it.m_list));
            total = omega (arith, land.total, on.total);
            small = on.small;
            ordered = omega (arith, land.lower, on.ordered);
            before = below;
          };
          inside = land.inside;
        };
        list_same = refl;
        moved = refl;
        left = land.left;
      }

  -- Past the end, `+=` throws end_of_buffer.
  pub advance_past :
      length (contents s it.m_list) < it.m_a_off + off → advance it off s ≡ err end_of_buffer
  unfolding advance arrive
  advance_past behind =
      let (k, e) =
        advance_loop-past s it.m_list_it (it.m_r_off + off) on.windows (omega (arith, on.total)) in
      rw (r_off, e)

-- The start of a well-formed list.
pub start-IsOn :
    (s : Store) (ns : List Node)
    → All (λ n. IsWindow s n.bptr) ns
    → length (contents s ns) < 2 ^ 64
    → IsOn s (record { m_list = ns; m_list_it = ns; m_r_off = 0; m_a_off = 0 })
start-IsOn s ns w h = record {
  all_windows = w;
  windows = w;
  rest_same = refl;
  total = refl;
  small = h;
  ordered = omega arith;
  before = omega arith;
}
