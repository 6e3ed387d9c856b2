-- ===== src/Buffer/Blist/Rebuild/Reads.antt =====
-- c_str() of buffer::list: where the bytes of a list are afterwards.
use replica_wbcache.Prelude.{
  ℕ, ◌^◌, ◌≤◌, ◌<◌, ◌≡◌, refl, sym, ap, ◌∙◌, some, List, [], ◌∷◌, append-nil, arith, ok, false,
  ◌==◌, length, Result,
}
use mathlib.Core.Path.{subst}
use replica_wbcache.Prelude.Slices.{take_all}
use replica_wbcache.Buffer.Store.{Error, Store, and_then}
use replica_wbcache.Buffer.Ptr.{Ptr, ptr}
use replica_wbcache.Buffer.Ptr.Access.{
  IsWindow, IsBefore, Preserves, Preserves-refl, bytes, length-bytes,
}
use replica_wbcache.Buffer.Ptr.Cut.{read_from-ok}
use replica_wbcache.Buffer.Ptr.Write.{get_elem?-lt}
use replica_wbcache.Buffer.Blist.{Node, Blist}
use replica_wbcache.Buffer.Blist.Contents.{contents, All, All-mono, IsList}
use replica_wbcache.Buffer.Blist.Rebuild.{front, fronted, c_str_of, c_str, text_of}
use replica_wbcache.Buffer.Blist.Rebuild.Creates.{CanAlign}
use replica_wbcache.Buffer.Blist.Rebuild.Whole.{rebuild-Rebuilt}

some_inj : {a b : ℕ} → some a ≡ some b → a ≡ b
some_inj e = cc

-- Windows into the raw buffers of `s` reach into none that is newer.
pub early :
    (s : Store) (j : ℕ) (ns : List Node)
    → length s.raws ≤ j
    → All (λ n. IsWindow s n.bptr) ns
    → All (λ n. IsBefore j 0 n.bptr) ns
early s j ns new =
    All-mono (λ n. IsWindow s n.bptr) (λ n. IsBefore j 0 n.bptr) ns
      (λ n w e.
        absurd (omega (arith, get_elem?-lt s.raws w.i w.holds, some_inj (sym w.is_raw ∙ e))))

-- c_str() leaves the bytes where the pointer reads them, in a list of raw buffers that it had or
-- that are new, and changes no other raw buffer's bytes.
pub record Reads (s : Store) (l : Blist) (run : Result Error ((Blist × Ptr) × Store)) : Type 0 where
  pub l' : Blist
  pub q : Ptr
  pub s' : Store
  pub runs : run ≡ ok ((l', q), s')
  pub reads : text_of l' q s' ≡ ok (contents s l.buffers, s')
  pub kept : Preserves (length s.raws) 0 s s'
  pub windows : All (λ n. IsWindow s' n.bptr) l'.buffers
  pub still : contents s' l'.buffers ≡ contents s l.buffers
  pub away :
      (j : ℕ)
      → j < length s.raws
      → All (λ n. IsBefore j 0 n.bptr) l.buffers
      → All (λ n. IsBefore j 0 n.bptr) l'.buffers

-- A pointer to all that a list of one node holds.
one_node :
    (s : Store) (l : Blist) (n : Node)
    → IsList s l
    → 0 < l.len
    → l.buffers ≡ n ∷ []
    → text_of l n.bptr s ≡ ok (contents s l.buffers, s)
one_node s l n well more alone =
    let w = (subst (All (λ m. IsWindow s m.bptr)) alone well.chain.windows).0 in
    let all : contents s l.buffers ≡ bytes s n.bptr =
      ap (contents s) alone ∙ append-nil (bytes s n.bptr) in
    let size : l.len ≡ n.bptr.m_len = well.counted ∙ ap length all ∙ length-bytes w in
    let some_bytes : (l.len == 0) ≡ false = ground (arith, more) in
    rw (some_bytes, read_from-ok s n.bptr w 0 l.len (omega (arith, size)))
      (ap (λ xs. ok (xs, s))
        (take_all l.len (bytes s n.bptr) (omega (arith, length-bytes w, size)) ∙ sym all))

-- A list that holds bytes in at most one node has this node.
just_one :
    (s : Store) (ns : List Node)
    → length ns ≤ 1
    → 0 < length (contents s ns)
    → (n : Node) × (ns ≡ n ∷ [])
just_one s [] few more = absurd (omega arith)
just_one s (n ∷ []) few more = (n, refl)
just_one s (n ∷ m ∷ ns) few more = absurd (omega arith)

fronted-one :
    (l : Blist) (n : Node) → l.buffers ≡ n ∷ [] → (s : Store) → fronted l s ≡ ok ((l, n.bptr), s)
fronted-one l n alone s = ap (λ bs. and_then (front bs s) (λ f. λ t. ok ((l, f.bptr), t))) alone

module _ (s : Store) (l : Blist) (well : IsList s l) (more : 0 < l.len) (small : l.len < 2 ^ 64)
    (word : CanAlign s.allocator 8) (page : CanAlign s.allocator s.platform.page_size) where
  pub c_str-Reads : (ns : List Node) → l.buffers ≡ ns → Reads s l (c_str l s)
  unfolding c_str
  c_str-Reads [] e = absurd (omega (arith, well.counted, more, ap (λ ms. length (contents s ms)) e))
  c_str-Reads (n ∷ []) e = record {
    l' = l;
    q = n.bptr;
    s' = s;
    runs = ap (λ bs. c_str_of l bs s) e;
    reads = one_node s l n well more e;
    kept = Preserves-refl;
    windows = well.chain.windows;
    still = refl;
    away = λ j old before. before;
  }
  c_str-Reads (n ∷ m ∷ ns) e =
      let done = rebuild-Rebuilt s l well small word page in
      let size : done.l'.len ≡ l.len =
        done.well.counted ∙ ap length done.holds ∙ sym well.counted in
      let (one, alone) =
        just_one done.s' done.l'.buffers done.one (omega (arith, done.well.counted, size, more)) in
      record {
        l' = done.l';
        q = one.bptr;
        s' = done.s';
        runs =
            ap (λ bs. c_str_of l bs s) e
            ∙ ap (λ r. and_then r fronted) done.runs
            ∙ fronted-one done.l' one alone done.s';
        reads =
            one_node done.s' done.l' one done.well (omega (arith, size, more)) alone
            ∙ ap (λ xs. ok (xs, done.s')) done.holds;
        kept = done.kept;
        windows = done.well.chain.windows;
        still = done.holds;
        away = λ j old before.
            All-mono (λ k. k.bptr ≡ ptr (length s.raws) 0 l.len) (λ k. IsBefore j 0 k.bptr)
              done.l'.buffers
              (λ k own e.
                absurd (omega (arith, old, some_inj (sym (ap (λ (p : Ptr). p.m_raw) own) ∙ e))))
              done.own;
      }
