-- ===== src/Buffer/Blist/Edit/Substr.antt =====
-- substr_of against the contents.
use replica_wbcache.Prelude.{
  ℕ, suc, Result, true, false, ◌+◌, ◌-◌, ◌^◌, ◌≤◌, ◌<◌, ◌≡◌, ◌≢◌, refl, sym, ap, ◌∙◌, inl, inr,
  none, List, [], ◌∷◌, ◌++◌, append_assoc, append-nil, arith, ok, err, leb, ltb, ◌&&◌, ◌||◌, ◌==◌,
  not, length, length-append, length-drop, take, drop, Bool-cases, ltb_ge,
}
use replica_wbcache.Prelude.Slices.{
  slice-append_left, slice-append_over, length-slice, take_all, drop-append_right, drop_all,
}
use replica_wbcache.Intarith.{u64}
use replica_wbcache.Buffer.Store.{Error, Store, end_of_buffer, bad_access}
use replica_wbcache.Buffer.Ptr.Access.{IsWindow, bytes, sub-IsWindow, length-bytes}
use replica_wbcache.Buffer.Ptr.Cut.{sub_ptr-ok, bytes-sub}
use replica_wbcache.Buffer.Blist.{Node, Blist, empty, new_node}
use replica_wbcache.Buffer.Blist.Contents.{
  contents, All, All-mono, IsChain, IsList, bytes_raws, contents_raws, windows_raws, IsWindow_raws,
}
use replica_wbcache.Buffer.Blist.Edit.{skip, is_end, substr_loop, substr_of}

-- The offset is within the first node.
abbrev pub IsWithin : ℕ → List Node → Type 0
IsWithin off [] = off ≡ 0
IsWithin off (n ∷ ns) = off ≤ n.bptr.m_len

-- Where `skip` stops.
record Skips (s : Store) (ns : List Node) (off : ℕ) : Type 0 where
  cur : List Node
  off' : ℕ
  runs : skip ns off s ≡ ok ((cur, off'), s)
  windows : All (λ n. IsWindow s n.bptr) cur
  within : IsWithin off' cur
  rest_same : drop off' (contents s cur) ≡ drop off (contents s ns)
  total : off' + length (contents s ns) ≡ off + length (contents s cur)

skip-Skips :
    (s : Store) (ns : List Node) (off : ℕ)
    → All (λ n. IsWindow s n.bptr) ns
    → off ≤ length (contents s ns)
    → Skips s ns off
unfolding skip
skip-Skips s [] off w h = record {
  cur = [];
  off' = 0;
  runs = let e : off ≡ 0 = omega arith in rw e;
  windows = tt;
  within = refl;
  rest_same = sym (drop_all {A = ℕ} off [] (omega arith));
  total = omega arith;
}
skip-Skips s (n ∷ ns) off w h =
    let size = length-bytes w.0 in
    let sum = length-append (bytes s n.bptr) (contents s ns) in
    elim (Bool-cases (ltb 0 off && leb n.bptr.m_len off)) [
      | inl past ↦
          let behind : n.bptr.m_len ≤ off = ground arith in
          let rest = skip-Skips s ns (off - n.bptr.m_len) w.1 (omega (arith, size, sum)) in
          record {
            cur = rest.cur;
            off' = rest.off';
            runs = rw past rest.runs;
            windows = rest.windows;
            within = rest.within;
            rest_same =
                rest.rest_same
                ∙ sym (
                    drop-append_right off (bytes s n.bptr) (contents s ns) (omega (arith, size))
                    ∙ ap (λ (k : ℕ). drop (off - k) (contents s ns)) size);
            total = omega (arith, rest.total, size, sum);
          }
      | inr here ↦ record {
        cur = n ∷ ns;
        off' = off;
        runs = rw here;
        windows = w;
        within = ground arith;
        rest_same = refl;
        total = refl;
      }
    ]

-- New nodes behind those of `l`, which hold `xs` in the raw buffers that are there.
record Cuts (s : Store) (l : Blist) (xs : List ℕ) (run : Result Error (Blist × Store))
    : Type 0 where
  new : List Node
  s' : Store
  runs :
      run
      ≡ ok (
        record {
          buffers = l.buffers ++ new;
          cache = l.cache;
          len = l.len + length xs;
          num = l.num + length new;
        },
        s',
      )
  raws_same : s'.raws ≡ s.raws
  holds : contents s' new ≡ xs
  chain : IsChain s' new
  later : All (λ n. s.next_node ≤ n.id) new
  grows : s.next_node ≤ s'.next_node

pub IsWithin-zero : (ns : List Node) → IsWithin 0 ns
IsWithin-zero [] = refl
IsWithin-zero (n ∷ ns) = omega arith

abbrev cut_node : Store → Node → ℕ → ℕ → Node
cut_node s n off len = record {
  id = s.next_node;
  bptr = record n.bptr { m_off = n.bptr.m_off + off; m_len = len };
}

abbrev after : Store → Store
after s = record s { next_node = suc s.next_node }

module _ (s : Store) (n : Node) (w : IsWindow s n.bptr) (off len : ℕ)
    (h : off + len ≤ n.bptr.m_len) where
  cut-bytes :
      (s' : Store)
      → s'.raws ≡ s.raws
      → bytes s' (cut_node s n off len).bptr ≡ take len (drop off (bytes s n.bptr))
  cut-bytes s' same =
      bytes_raws s s' same (cut_node s n off len).bptr ∙ bytes-sub s n.bptr off len h

  cut-IsWindow : (s' : Store) → s'.raws ≡ s.raws → IsWindow s' (cut_node s n off len).bptr
  cut-IsWindow s' same =
      IsWindow_raws s s' same (cut_node s n off len).bptr (sub-IsWindow w off len h)

  -- One new node, and then those that are cut from the rest.
  cons-IsChain :
      (s' : Store) (new : List Node)
      → s'.raws ≡ s.raws
      → suc s.next_node ≤ s'.next_node
      → All (λ m. suc s.next_node ≤ m.id) new
      → IsChain s' new
      → IsChain s' (cut_node s n off len ∷ new)
  cons-IsChain s' new same grows later chain = record {
    windows = (cut-IsWindow s' same, chain.windows);
    fresh = (grows, chain.fresh);
    distinct = (
      All-mono (λ m. suc s.next_node ≤ m.id) (λ m. m.id ≢ s.next_node) new
          (λ m k e. absurd (omega arith)) later,
      chain.distinct,
    );
  }

substr_loop-Cuts :
    (s : Store) (l : Blist) (ns : List Node) (off len : ℕ)
    → All (λ n. IsWindow s n.bptr) ns
    → IsWithin off ns
    → off + len < length (contents s ns)
    → Cuts s l (take len (drop off (contents s ns))) (substr_loop l ns off len s)
unfolding substr_loop new_node
substr_loop-Cuts s l [] off len w i h = absurd (omega arith)
substr_loop-Cuts s l (n ∷ ns) off len w i h =
    let size = length-bytes w.0 in
    let sum = length-append (bytes s n.bptr) (contents s ns) in
    elim (Bool-cases (ltb (off + len) n.bptr.m_len)) [
      | inl inside ↦
          let fits : off + len ≤ n.bptr.m_len = ground arith in
          record {
            new = cut_node s n off len ∷ [];
            s' = after s;
            runs = rw (
              inside,
              sub_ptr-ok s n.bptr w.0 off len fits,
              length-slice off len (contents s (n ∷ ns)) (omega arith),
            );
            raws_same = refl;
            holds =
                append-nil (bytes (after s) (cut_node s n off len).bptr)
                ∙ cut-bytes s n w.0 off len fits (after s) refl
                ∙ sym (
                    slice-append_left off len (bytes s n.bptr) (contents s ns)
                      (omega (arith, size)));
            chain =
                cons-IsChain s n w.0 off len fits (after s) [] refl (omega arith) tt
                  (record { windows = tt; fresh = tt; distinct = tt });
            later = (omega arith, tt);
            grows = omega arith;
          }
      | inr over ↦
          let cut = n.bptr.m_len - off in
          let fits : off + cut ≤ n.bptr.m_len = omega (arith, i) in
          let m = cut_node s n off cut in
          let s₁ = after s in
          let same = contents_raws s s₁ refl ns in
          let reached = ltb_ge (off + len) n.bptr.m_len over in
          let bound : 0 + (len - cut) < length (contents s₁ ns) =
            omega (arith, size, sum, reached) in
          let longer : l.len + cut + (len - cut) ≡ l.len + len = omega (arith, i, reached) in
          let rest =
            substr_loop-Cuts s₁
              (record l { buffers = l.buffers ++ m ∷ []; len = l.len + cut; num = l.num + 1 }) ns 0
              (len - cut) (windows_raws s s₁ refl ns w.1) (IsWithin-zero ns) bound in
          let more : l.num + 1 + length rest.new ≡ l.num + suc (length rest.new) = omega arith in
          record {
            new = m ∷ rest.new;
            s' = rest.s';
            runs = rw (
              over,
              sub_ptr-ok s n.bptr w.0 off cut fits,
              rest.runs,
              append_assoc l.buffers (m ∷ []) rest.new,
              length-slice 0 (len - cut) (contents s₁ ns) (omega arith),
              length-slice off len (contents s (n ∷ ns)) (omega arith),
              longer,
              more,
            );
            raws_same = rest.raws_same;
            holds =
                ap (λ xs. xs ++ contents rest.s' rest.new)
                  (cut-bytes s n w.0 off cut fits rest.s' rest.raws_same
                    ∙ take_all cut (drop off (bytes s n.bptr))
                        (omega (arith, size, length-drop off (bytes s n.bptr))))
                ∙ ap (λ ys. drop off (bytes s n.bptr) ++ ys)
                    (rest.holds
                      ∙ ap (take (len - cut)) same
                      ∙ ap (λ (k : ℕ). take (len - (k - off)) (contents s ns)) (sym size))
                ∙ sym (
                    slice-append_over off len (bytes s n.bptr) (contents s ns)
                      (omega (arith, size, i)) (omega (arith, size, reached)));
            chain =
                cons-IsChain s n w.0 off cut fits rest.s' rest.new rest.raws_same rest.grows
                  rest.later rest.chain;
            later = (
              omega arith,
              All-mono (λ k. suc s.next_node ≤ k.id) (λ k. s.next_node ≤ k.id) rest.new
                  (λ k g. omega arith) rest.later,
            );
            grows = omega (arith, rest.grows);
          }
    ]

-- A slice that reaches the end of the list runs on to the root.
substr_loop-at_end :
    (s : Store) (l : Blist) (ns : List Node) (off len : ℕ)
    → All (λ n. IsWindow s n.bptr) ns
    → IsWithin off ns
    → off + len ≡ length (contents s ns)
    → substr_loop l ns off len s ≡ err bad_access
unfolding substr_loop new_node
substr_loop-at_end s l [] off len w i h = refl
substr_loop-at_end s l (n ∷ ns) off len w i h =
    let size = length-bytes w.0 in
    let sum = length-append (bytes s n.bptr) (contents s ns) in
    let over : ltb (off + len) n.bptr.m_len ≡ false = ground arith in
    let cut = n.bptr.m_len - off in
    let fits : off + cut ≤ n.bptr.m_len = omega (arith, i) in
    let s₁ = after s in
    let rest =
      substr_loop-at_end s₁
        (record l {
          buffers = l.buffers ++ cut_node s n off cut ∷ [];
          len = l.len + cut;
          num = l.num + 1;
        })
        ns 0 (len - cut) (windows_raws s s₁ refl ns w.1) (IsWithin-zero ns)
        (omega (arith, size, sum, ap length (contents_raws s s₁ refl ns))) in
    rw (over, sub_ptr-ok s n.bptr w.0 off cut fits, rest)

-- The assertion between the loops holds.
asserted :
    (s : Store) (ns : List Node) (off len : ℕ)
    → off + len ≤ length (contents s ns)
    → (len == 0 || not (is_end ns)) ≡ true
asserted s [] off len h = ground arith
asserted s (n ∷ ns) off len h = elim (Bool-cases (len == 0)) [ inl e ↦ rw e | inr e ↦ rw e ]

-- A list that has just been made, of the given bytes, over the raw buffers that were there.
pub record Made (s : Store) (xs : List ℕ) (run : Result Error (Blist × Store)) : Type 0 where
  pub l : Blist
  pub s' : Store
  pub runs : run ≡ ok (l, s')
  pub valid : IsList s' l
  pub holds : contents s' l.buffers ≡ xs
  pub raws_same : s'.raws ≡ s.raws

-- On a well-formed list, where off + len does not wrap, substr_of(other, off, len) makes a
-- well-formed list of the `len` bytes from `off` on, over the raw buffers as they are, if a byte
-- follows them; it throws end_of_buffer if they reach behind the end; and if they end where the
-- list does, it reads the list's root as a node.
pub substr_of-contents :
    (s : Store) (other : Blist) (off len : ℕ)
    → IsList s other
    → off + len < 2 ^ 64
    → (off + len < other.len
        → Made s (take len (drop off (contents s other.buffers))) (substr_of other off len s))
      × (off + len ≡ other.len → substr_of other off len s ≡ err bad_access)
      × (other.len < off + len → substr_of other off len s ≡ err end_of_buffer)
unfolding substr_of
substr_of-contents s other off len valid small =
    let counted = valid.counted in
    (
      λ inside.
          let at = skip-Skips s other.buffers off valid.chain.windows (omega arith) in
          let fits : at.off' + len < length (contents s at.cur) = omega (arith, at.total) in
          let cut = substr_loop-Cuts s empty at.cur at.off' len at.windows at.within fits in
          let ok_off : ltb other.len (u64 (off + len)) ≡ false = ground arith in
          record {
            l = record {
              buffers = cut.new;
              cache = none;
              len = 0 + length (take len (drop at.off' (contents s at.cur)));
              num = 0 + length cut.new;
            };
            s' = cut.s';
            runs =
                rw (ok_off, at.runs, asserted s at.cur at.off' len (omega (arith, fits)), cut.runs);
            valid = record {
              chain = cut.chain;
              tail = tt;
              counted = omega (arith, ap length cut.holds);
              numbered = omega arith;
            };
            holds = cut.holds ∙ ap (take len) at.rest_same;
            raws_same = cut.raws_same;
          },
      λ reach.
          let at = skip-Skips s other.buffers off valid.chain.windows (omega arith) in
          let ends : at.off' + len ≡ length (contents s at.cur) = omega (arith, at.total) in
          let ok_off : ltb other.len (u64 (off + len)) ≡ false = ground arith in
          rw (
            ok_off,
            at.runs,
            asserted s at.cur at.off' len (omega (arith, ends)),
            substr_loop-at_end s empty at.cur at.off' len at.windows at.within ends,
          ),
      λ behind. let out : ltb other.len (u64 (off + len)) ≡ true = ground arith in rw out,
    )
