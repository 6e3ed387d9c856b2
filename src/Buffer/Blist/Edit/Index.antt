-- ===== src/Buffer/Blist/Edit/Index.antt =====
-- operator[] against the contents.
use replica_wbcache.Prelude.{
  ℕ, zero, suc, Result, true, false, get_elem?-append_left, ◌+◌, ◌-◌, ◌≤◌, ◌<◌, ◌≡◌, refl, ap, ◌∙◌,
  inl, inr, some, List, [], ◌∷◌, ◌++◌, arith, ok, err, leb, length, length-append, get_elem?, take,
  drop, Bool-cases, lt→ltb, leb→le,
}
use replica_wbcache.Buffer.Store.{Error, Store, end_of_buffer}
use replica_wbcache.Buffer.Ptr.{Ptr, byte_at}
use replica_wbcache.Buffer.Ptr.Access.{IsWindow, bytes, bytes_lem, raw_at-ok, length-bytes}
use replica_wbcache.Buffer.Blist.{Node, Blist}
use replica_wbcache.Buffer.Blist.Contents.{contents, All, IsList}
use replica_wbcache.Buffer.Blist.Edit.{index_loop, byte_of_list}

get_elem?-drop : (o i : ℕ) (xs : List ℕ) → get_elem? (drop o xs) i ≡ get_elem? xs (o + i)
get_elem?-drop zero i xs = ap (get_elem? xs) (omega arith)
get_elem?-drop (suc o) i [] = refl
get_elem?-drop (suc o) i (x ∷ xs) =
    let e : suc (o + i) ≡ suc o + i = omega arith in
    get_elem?-drop o i xs ∙ ap (get_elem? (x ∷ xs)) e

get_elem?-take : (n i : ℕ) (xs : List ℕ) → i < n → get_elem? (take n xs) i ≡ get_elem? xs i
get_elem?-take zero i xs h = absurd (omega arith)
get_elem?-take (suc n) i [] h = refl
get_elem?-take (suc n) zero (x ∷ xs) h = refl
get_elem?-take (suc n) (suc i) (x ∷ xs) h = get_elem?-take n i xs (omega arith)

get_elem?-append_right :
    (xs ys : List ℕ) (i : ℕ) → length xs ≤ i → get_elem? (xs ++ ys) i ≡ get_elem? ys (i - length xs)
get_elem?-append_right [] ys i h = ap (get_elem? ys) (omega arith)
get_elem?-append_right (x ∷ xs) ys zero h = absurd (omega arith)
get_elem?-append_right (x ∷ xs) ys (suc i) h =
    get_elem?-append_right xs ys i (omega arith) ∙ ap (get_elem? ys) (omega arith)

-- A read that finds the byte of the contents.
record Finds (s : Store) (xs : List ℕ) (pos : ℕ) (run : Result Error (ℕ × Store)) : Type 0 where
  c : ℕ
  at : get_elem? xs pos ≡ some c
  runs : run ≡ ok (c, s)

-- The node that holds the byte.
module _ {s : Store} {p : Ptr} (w : IsWindow s p) (pos : ℕ) (inside : pos < p.m_len) where
  present : (xs : List ℕ) (i : ℕ) → i < length xs → (c : ℕ) × (get_elem? xs i ≡ some c)
  present [] i h = absurd (omega arith)
  present (x ∷ xs) zero h = (x, refl)
  present (x ∷ xs) (suc i) h = present xs i (omega arith)

  byte_at-Finds : Finds s (bytes s p) pos (byte_at p pos s)
  byte_at-Finds =
      let (c, here) = present w.r.m_data (p.m_off + pos) (omega (arith, w.fits)) in
      record {
        c = c;
        at =
            ap (λ xs. get_elem? xs pos) (bytes_lem w)
            ∙ get_elem?-take p.m_len pos (drop p.m_off w.r.m_data) inside
            ∙ get_elem?-drop p.m_off pos w.r.m_data
            ∙ here;
        runs = unfold byte_at in rw (w.is_raw, lt→ltb pos p.m_len inside, raw_at-ok w, here);
      }

index_loop-Finds :
    (s : Store) (ns : List Node) (pos : ℕ)
    → All (λ n. IsWindow s n.bptr) ns
    → pos < length (contents s ns)
    → Finds s (contents s ns) pos (index_loop ns pos s)
unfolding index_loop
index_loop-Finds s [] pos w h = absurd (omega arith)
index_loop-Finds s (n ∷ ns) pos w h =
    let size = length-bytes w.0 in
    let total = length-append (bytes s n.bptr) (contents s ns) in
    elim (Bool-cases (leb n.bptr.m_len pos)) [
      | inl behind ↦
          let past = leb→le n.bptr.m_len pos behind in
          let rest = index_loop-Finds s ns (pos - n.bptr.m_len) w.1 (omega (arith, size, total)) in
          record {
            c = rest.c;
            at =
                get_elem?-append_right (bytes s n.bptr) (contents s ns) pos (omega (arith, size))
                ∙ ap (λ (k : ℕ). get_elem? (contents s ns) (pos - k)) size
                ∙ rest.at;
            runs = rw behind rest.runs;
          }
      | inr here ↦
          let inside : pos < n.bptr.m_len = ground arith in
          let found = byte_at-Finds w.0 pos inside in
          record {
            c = found.c;
            at =
                get_elem?-append_left (bytes s n.bptr) (contents s ns) pos (omega (arith, size))
                ∙ found.at;
            runs = rw here found.runs;
          }
    ]

-- On a well-formed list, operator[] gives the byte of the contents at every position below the
-- length, and throws end_of_buffer at every other.
pub byte_of_list-contents :
    (s : Store) (l : Blist) (pos : ℕ)
    → IsList s l
    → (pos < l.len
        → (c : ℕ) × (get_elem? (contents s l.buffers) pos ≡ some c)
          × (byte_of_list l pos s ≡ ok (c, s)))
      × (l.len ≤ pos → byte_of_list l pos s ≡ err end_of_buffer)
unfolding byte_of_list
byte_of_list-contents s l pos valid = (
  λ below.
      let found =
        index_loop-Finds s l.buffers pos valid.chain.windows (omega (arith, valid.counted)) in
      let within : leb l.len pos ≡ false = ground arith in
      (found.c, found.at, rw within found.runs),
  λ above. let out : leb l.len pos ≡ true = ground arith in rw out,
)
