-- ===== src/Buffer/Blist/Query/Equality.antt =====
-- contents_equal of two lists, where the second has more than one node.
use mathlib.Core.Path.{subst}
use Prim.Native.Nat.{Ordering, min, compare}
use replica_wbcache.Prelude.{
  ℕ, zero, suc, true, false, ◌+◌, ◌-◌, ◌≤◌, ◌<◌, ◌≡◌, refl, sym, ap, ◌∙◌, inl, inr, List, [], ◌∷◌,
  arith, err, ltb, ◌==◌, length, length-append, take, drop, Bool-cases, ==_iff,
}
use replica_wbcache.Prelude.Slices.{
  slice-append_left, drop-append_right, drop-drop, take-take, take_all,
}
use replica_wbcache.Buffer.Store.{Store, out_of_fuel}
use replica_wbcache.Buffer.Ptr.{memcmp}
use replica_wbcache.Buffer.Ptr.Access.{IsWindow, bytes, length-bytes}
use replica_wbcache.Buffer.Ptr.Cut.{read_from-ok}
use replica_wbcache.Buffer.Blist.{Node, Blist}
use replica_wbcache.Buffer.Blist.Contents.{contents, All, IsList}
use replica_wbcache.Buffer.Blist.Edit.Substr.{IsWithin, IsWithin-zero}
use replica_wbcache.Buffer.Blist.Query.{contents_loop, contents_equal}

memcmp_refl : (xs : List ℕ) → memcmp xs xs ≡ Ordering.eq
unfolding memcmp
memcmp_refl [] = refl
memcmp_refl (x ∷ xs) =
    let same : compare x x ≡ Ordering.eq = ground arith in rw (memcmp, same) (memcmp_refl xs)

drop-take : (n m : ℕ) (xs : List ℕ) → drop n (take (n + m) xs) ≡ take m (drop n xs)
drop-take zero m xs = ap (λ (k : ℕ). take k xs) (omega arith)
drop-take (suc n) m [] =
    ap (drop (suc n)) (take_all {A = ℕ} (suc n + m) [] (omega arith))
    ∙ sym (take_all {A = ℕ} m [] (omega arith))
drop-take (suc n) m (x ∷ xs) =
    let e : suc n + m ≡ suc (n + m) = omega arith in
    ap (λ (k : ℕ). drop (suc n) (take k (x ∷ xs))) e ∙ drop-take n m xs

-- The other list's first node is used up to `other_off`, and this list has more bytes left than
-- that node, the first of which are the node's.
record IsBehind (s : Store) (ns : List Node) (this_off : ℕ) (m : Node) (other_off : ℕ)
    : Type 0 where
  windows : All (λ n. IsWindow s n.bptr) ns
  within : other_off ≤ m.bptr.m_len
  more : this_off + (m.bptr.m_len - other_off) < length (contents s ns)
  agree :
      take (m.bptr.m_len - other_off) (drop this_off (contents s ns))
      ≡ drop other_off (bytes s m.bptr)

-- Both sides of an agreement go on by `k` bytes.
agree_on :
    (left k : ℕ) (xs ys : List ℕ)
    → k ≤ left
    → take left xs ≡ ys
    → take (left - k) (drop k xs) ≡ drop k ys
agree_on left k xs ys h e =
    let whole : k + (left - k) ≡ left = omega arith in
    sym (drop-take k (left - k) xs) ∙ ap (λ (j : ℕ). drop k (take j xs)) whole ∙ ap (drop k) e

-- One turn, whose bytes agree.
module _ (s : Store) (n : Node) (ns : List Node) (this_off : ℕ) (m : Node) (other_off : ℕ)
    (v : IsWindow s m.bptr) (b : IsBehind s (n ∷ ns) this_off m other_off)
    (h : this_off ≤ n.bptr.m_len) where
  abbrev k : ℕ
  k = min (n.bptr.m_len - this_off) (m.bptr.m_len - other_off)

  size : length (bytes s n.bptr) ≡ n.bptr.m_len
  size = length-bytes b.windows.0

  sum : length (contents s (n ∷ ns)) ≡ n.bptr.m_len + length (contents s ns)
  sum = omega (arith, length-append (bytes s n.bptr) (contents s ns), size)

  turn_agrees : take k (drop other_off (bytes s m.bptr)) ≡ take k (drop this_off (bytes s n.bptr))
  turn_agrees =
      ap (take k) (sym b.agree)
      ∙ take-take k (m.bptr.m_len - other_off) (drop this_off (contents s (n ∷ ns))) (omega arith)
      ∙ slice-append_left this_off k (bytes s n.bptr) (contents s ns) (omega (arith, size, h))

  rest_agrees :
      take (m.bptr.m_len - (other_off + k)) (drop (this_off + k) (contents s (n ∷ ns)))
      ≡ drop (other_off + k) (bytes s m.bptr)
  rest_agrees =
      ap (λ (j : ℕ). take j (drop (this_off + k) (contents s (n ∷ ns)))) (omega arith)
      ∙ ap (take (m.bptr.m_len - other_off - k)) (
          ap (λ (j : ℕ). drop j (contents s (n ∷ ns))) (omega arith)
          ∙ sym (drop-drop k this_off (contents s (n ∷ ns))))
      ∙ agree_on (m.bptr.m_len - other_off) k (drop this_off (contents s (n ∷ ns)))
          (drop other_off (bytes s m.bptr)) (omega arith) b.agree
      ∙ drop-drop k other_off (bytes s m.bptr)
      ∙ ap (λ (j : ℕ). drop j (bytes s m.bptr)) (omega arith)

  within_node : IsBehind s (n ∷ ns) (this_off + k) m (other_off + k)
  within_node = record {
    windows = b.windows;
    within = omega (arith, b.within);
    more = omega (arith, b.more, b.within);
    agree = rest_agrees;
  }

  next_node : this_off + k ≡ n.bptr.m_len → IsBehind s ns 0 m (other_off + k)
  next_node done =
      let none_left : this_off + k - length (bytes s n.bptr) ≡ 0 = omega (arith, size, done) in
      record {
        windows = b.windows.1;
        within = omega (arith, b.within);
        more = omega (arith, b.more, b.within, sum, done);
        agree =
            ap (take (m.bptr.m_len - (other_off + k))) (
              sym (
                drop-append_right (this_off + k) (bytes s n.bptr) (contents s ns)
                  (omega (arith, size, done))
                ∙ ap (λ (j : ℕ). drop j (contents s ns)) none_left))
            ∙ rest_agrees;
      }

contents_loop-out_of_fuel :
    (s : Store) (fuel : ℕ) (ns : List Node) (this_off : ℕ) (m : Node) (ms : List Node)
    (other_off : ℕ)
    → IsWindow s m.bptr
    → IsBehind s ns this_off m other_off
    → IsWithin this_off ns
    → contents_loop fuel ns this_off (m ∷ ms) other_off s ≡ err out_of_fuel
unfolding contents_loop
contents_loop-out_of_fuel s fuel [] this_off m ms other_off v b h = absurd (omega (arith, b.more))
contents_loop-out_of_fuel s zero (n ∷ ns) this_off m ms other_off v b h = refl
contents_loop-out_of_fuel s (suc fuel) (n ∷ ns) this_off m ms other_off v b h =
    let k = min (n.bptr.m_len - this_off) (m.bptr.m_len - other_off) in
    let stays : ltb m.bptr.m_len (other_off + k) ≡ false = ground (arith, b.within) in
    let here = read_from-ok s n.bptr b.windows.0 this_off k (omega (arith, h)) in
    let there = read_from-ok s m.bptr v other_off k (omega (arith, b.within)) in
    let equal = turn_agrees s n ns this_off m other_off v b h in
    let memory = memcmp_refl (take k (drop this_off (bytes s n.bptr))) in
    elim (Bool-cases (this_off + k == n.bptr.m_len)) [
      | inl done ↦
          let at_end = (==_iff (this_off + k) n.bptr.m_len).0 done in
          rw (here, there, equal, memory, stays, done)
            (contents_loop-out_of_fuel s fuel ns 0 m ms (other_off + k) v
              (next_node s n ns this_off m other_off v b h at_end) (IsWithin-zero ns))
      | inr inside ↦
          rw (here, there, equal, memory, stays, inside)
            (contents_loop-out_of_fuel s fuel (n ∷ ns) (this_off + k) m ms (other_off + k) v
              (within_node s n ns this_off m other_off v b h) (omega (arith, h)))
    ]

-- For well-formed lists of the same length, where the other list's first node is shorter than that
-- and holds the bytes that this list begins with, contents_equal uses up any fuel: the loop never
-- leaves that node.
pub contents_equal-out_of_fuel :
    (s : Store) (l other : Blist) (m : Node) (ms : List Node) (fuel : ℕ)
    → IsList s l
    → IsList s other
    → other.buffers ≡ m ∷ ms
    → l.len ≡ other.len
    → m.bptr.m_len < l.len
    → take m.bptr.m_len (contents s l.buffers) ≡ bytes s m.bptr
    → contents_equal fuel l other s ≡ err out_of_fuel
unfolding contents_equal
contents_equal-out_of_fuel s l other m ms fuel valid valid' first same more agree =
    let v = (subst (All (λ n. IsWindow s n.bptr)) first valid'.chain.windows).0 in
    let lengths : (l.len == other.len) ≡ true = (==_iff l.len other.len).1 same in
    rw (lengths, first)
      (contents_loop-out_of_fuel s fuel l.buffers 0 m ms 0 v
        (record {
          windows = valid.chain.windows;
          within = omega arith;
          more = omega (arith, more, valid.counted);
          agree = ap (λ (j : ℕ). take j (contents s l.buffers)) (omega arith) ∙ agree;
        })
        (IsWithin-zero l.buffers))
