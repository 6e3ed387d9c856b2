-- ===== src/Buffer/Blist/Rebuild/Whole.antt =====
-- rebuild of buffer::list against the contents.
use Prim.Native.Nat.{bit_and}
use mathlib.Core.Path.{subst}
use replica_wbcache.Prelude.{
  ℕ, suc, ◌+◌, ◌-◌, ◌^◌, ◌≤◌, ◌<◌, ◌≡◌, refl, sym, ap, ◌∙◌, inl, inr, some, none, List, [], ◌∷◌,
  ◌++◌, append-nil, arith, ok, true, false, ltb, ◌==◌, length, get_elem?, set,
  get_elem?-append_length, get_elem?-set_self, get_elem?-set_ne, take, Result, Bool-cases, ==_iff,
  if◌then◌else◌, ltb→lt,
}
use replica_wbcache.Prelude.Slices.{take_all}
use replica_wbcache.Buffer.Store.{
  Error, Store, Raw, ◌>>=◌, and_then, invalidate_crc, create, create_page_aligned, create_aligned,
}
use replica_wbcache.Buffer.Ptr.{Ptr, ptr, ptr_of_raw}
use replica_wbcache.Buffer.Ptr.Access.{
  IsWindow, IsBefore, Preserves, Preserves-refl, Preserves-trans, bytes, length-bytes,
}
use replica_wbcache.Buffer.Ptr.Write.{grown_store-Preserves, found-raw_at, get_elem?-lt}
use replica_wbcache.Buffer.Blist.{Node, Blist, new_node, find_node}
use replica_wbcache.Buffer.Blist.Contents.{
  contents, All, All-mono, IsList, keep-windows, keep-contents,
}
use replica_wbcache.Buffer.Blist.Rebuild.{copy_nodes, invalidate_nodes, rebuild_with, rebuild}
use replica_wbcache.Buffer.Blist.Rebuild.Creates.{Creates, CanAlign, create_aligned-Creates}
use replica_wbcache.Buffer.Blist.Rebuild.Copying.{IsAway, Filled, copy_nodes-Filled}

some_inj : {a b : ℕ} → some a ≡ some b → a ≡ b
some_inj e = cc

raw_inj : {a b : Raw} → some a ≡ some b → a ≡ b
raw_inj e = cc

-- Forgetting a raw buffer's checksum keeps its bytes.
module _ (s : Store) (p : Ptr) (w : IsWindow s p) where
  abbrev forgotten : Store
  forgotten = record s { raws = set s.raws w.i (invalidate_crc w.r) }

  forgotten-holds : get_elem? forgotten.raws w.i ≡ some (invalidate_crc w.r)
  forgotten-holds =
      get_elem?-set_self s.raws w.i (invalidate_crc w.r) (get_elem?-lt s.raws w.i w.holds)

  pub invalidate-ok :
      (k : ℕ) → invalidate_nodes (record { id = k; bptr = p } ∷ []) s ≡ ok (tt, forgotten)
  unfolding invalidate_nodes replica_wbcache.Buffer.Store.put_raw
  invalidate-ok k = rw (w.is_raw, found-raw_at s w.i w.holds) refl

  pub forgotten-IsWindow : IsWindow forgotten p
  unfolding invalidate_crc
  forgotten-IsWindow = record {
    i = w.i;
    r = invalidate_crc w.r;
    is_raw = w.is_raw;
    holds = forgotten-holds;
    fits = w.fits;
    small = w.small;
  }

  pub forgotten-bytes : bytes forgotten p ≡ bytes s p
  unfolding invalidate_crc
  forgotten-bytes = rw (w.is_raw, w.holds, forgotten-holds) refl

  forgotten-Preserves : Preserves w.i 0 s forgotten
  unfolding invalidate_crc
  forgotten-Preserves = record {
    keeps = λ j q h. elim (Bool-cases (w.i == j)) [
      | inl same ↦
          let e : w.i ≡ j = (==_iff w.i j).0 same in
          let was : w.r ≡ q = raw_inj (sym w.holds ∙ ap (get_elem? s.raws) e ∙ h) in
          (
            invalidate_crc w.r,
            ap (get_elem? forgotten.raws) (sym e) ∙ forgotten-holds,
            ap (λ (x : Raw). length x.m_data) was,
            λ m _. ap (λ (x : Raw). take m x.m_data) was,
          )
      | inr other ↦ (
        q,
        get_elem?-set_ne s.raws w.i j (invalidate_crc w.r) (λ e. ground (arith, other, e)) ∙ h,
        refl,
        λ m _. refl,
      )
    ];
  }

-- A list with its bytes in one node, or none; the node is the whole of a raw buffer that is new.
pub record Rebuilt (s : Store) (l : Blist) (run : Result Error (Blist × Store)) : Type 0 where
  pub l' : Blist
  pub s' : Store
  pub runs : run ≡ ok (l', s')
  pub well : IsList s' l'
  pub holds : contents s' l'.buffers ≡ contents s l.buffers
  pub one : length l'.buffers ≤ 1
  pub own : All (λ n. n.bptr ≡ ptr (length s.raws) 0 l.len) l'.buffers
  pub kept : Preserves (length s.raws) 0 s s'

-- The new node, in a raw buffer of its own, is filled with the list's bytes.
module _ (s : Store) (l : Blist) (well : IsList s l) (r : Raw) (size : length r.m_data ≡ l.len)
    (small : l.len < 2 ^ 64) (some_bytes : 0 < l.len) where
  abbrev made : Store
  made = record s { raws = s.raws ++ r ∷ []; next_node = suc s.next_node }

  abbrev nb : Node
  nb = record { id = s.next_node; bptr = ptr (length s.raws) 0 (length r.m_data) }

  window : IsWindow made nb.bptr
  window = record {
    i = length s.raws;
    r = r;
    is_raw = refl;
    holds = get_elem?-append_length s.raws r;
    fits = omega arith;
    small = omega (arith, size);
  }

  kept : Preserves (length s.raws) 0 s made
  kept = record { keeps = (grown_store-Preserves s r 0).keeps }

  away : All (IsAway (length s.raws)) l.buffers
  away =
      All-mono (λ n. IsWindow s n.bptr) (IsAway (length s.raws)) l.buffers
        (λ n w e.
          absurd (omega (arith, get_elem?-lt s.raws w.i w.holds, some_inj (sym w.is_raw ∙ e))))
        well.chain.windows

  same_contents : contents made l.buffers ≡ contents s l.buffers
  same_contents = keep-contents kept l.buffers well.chain.windows (
      All-mono (IsAway (length s.raws)) (λ n. IsBefore (length s.raws) 0 n.bptr) l.buffers
        (λ n a e. absurd (a e)) away)

  filled :
      Filled made nb.bptr
        (length s.raws)
        0
        (contents made l.buffers)
        (copy_nodes nb.bptr 0 l.buffers made)
  filled =
      copy_nodes-Filled l.buffers made nb.bptr (length s.raws) 0 refl window
        (keep-windows kept l.buffers well.chain.windows) away
        (omega (arith, ap length same_contents, size, well.counted))

  whole : bytes filled.s' nb.bptr ≡ contents s l.buffers
  whole =
      sym (
        take_all (0 + length (contents made l.buffers)) (bytes filled.s' nb.bptr)
          (omega (arith, length-bytes filled.window, ap length same_contents, size, well.counted)))
      ∙ filled.head
      ∙ same_contents

  rebuild_with-Rebuilt : Rebuilt s l (rebuild_with l nb made)
  unfolding rebuild_with find_node
  rebuild_with-Rebuilt =
      let filled_some : ltb 0 (length r.m_data) ≡ true = ground (arith, size, some_bytes) in
      let s' = forgotten filled.s' nb.bptr filled.window in
      let holds : contents s' (nb ∷ []) ≡ contents s l.buffers =
        append-nil (bytes s' nb.bptr) ∙ forgotten-bytes filled.s' nb.bptr filled.window ∙ whole in
      record {
        l' = record l { buffers = nb ∷ []; cache = some s.next_node; num = 1 };
        s' = s';
        runs =
            rw (filled.runs, filled_some, invalidate-ok filled.s' nb.bptr filled.window s.next_node)
              refl;
        well = record {
          chain = record {
            windows = (forgotten-IsWindow filled.s' nb.bptr filled.window, tt);
            fresh = (omega (arith, filled.nodes), tt);
            distinct = (tt, tt);
          };
          tail = (
            nb.bptr,
            rw ((==_iff s.next_node s.next_node).1 refl) refl,
            ((λ i e e'. omega arith), tt),
          );
          counted = well.counted ∙ ap length (sym holds);
          numbered = refl;
        };
        holds = holds;
        one = omega arith;
        own = (ap (ptr (length s.raws) 0) size, tt);
        kept = Preserves-trans kept (
            Preserves-trans filled.kept (
              subst (λ (j : ℕ). Preserves j 0 filled.s' s') (some_inj (sym filled.window.is_raw))
                (forgotten-Preserves filled.s' nb.bptr filled.window)));
      }

-- The raw buffer is made, a ptr and a node are made of it, and it is filled.
made_of : Blist → Result Error (ℕ × Store) → Result Error (Blist × Store)
made_of l run = and_then run (λ i. ptr_of_raw i >>= λ p. new_node p >>= λ nb. rebuild_with l nb)

made_of-Rebuilt :
    (s : Store) (l : Blist) (run : Result Error (ℕ × Store))
    → IsList s l
    → 0 < l.len
    → l.len < 2 ^ 64
    → Creates s l.len run
    → Rebuilt s l (made_of l run)
unfolding made_of ptr_of_raw new_node
made_of-Rebuilt s l run well some_bytes small c =
    let with_raw : Store = record s { raws = s.raws ++ c.r ∷ [] } in
    let read = found-raw_at with_raw (length s.raws) (get_elem?-append_length s.raws c.r) in
    let done = rebuild_with-Rebuilt s l well c.r c.size small some_bytes in
    record {
      l' = done.l';
      s' = done.s';
      runs = rw (c.runs, read) done.runs;
      well = done.well;
      holds = done.holds;
      one = done.one;
      own = done.own;
      kept = done.kept;
    }

-- Whole pages go to pages of their own.
abbrev chosen : Store → Blist → Result Error (ℕ × Store)
chosen s l =
    if bit_and l.len (s.platform.page_size - 1) == 0
    then create_page_aligned l.len s
    else create l.len s

chosen-Creates :
    (s : Store) (l : Blist)
    → CanAlign s.allocator 8
    → CanAlign s.allocator s.platform.page_size
    → Creates s l.len (chosen s l)
unfolding create create_page_aligned
chosen-Creates s l word page = elim (Bool-cases (bit_and l.len (s.platform.page_size - 1) == 0)) [
  | inl paged ↦ rw paged (create_aligned-Creates s l.len s.platform.page_size page)
  | inr odd ↦ rw odd (create_aligned-Creates s l.len 8 word)
]

rebuild-made : (s : Store) (l : Blist) → 0 < l.len → rebuild l s ≡ made_of l (chosen s l)
unfolding rebuild made_of
rebuild-made s l some_bytes =
    let more : (l.len == 0) ≡ false = ground arith in
    elim (Bool-cases (bit_and l.len (s.platform.page_size - 1) == 0)) [
      | inl paged ↦ rw (more, paged) refl
      | inr odd ↦ rw (more, odd) refl
    ]

no_bytes : (xs : List ℕ) → length xs ≡ 0 → xs ≡ []
no_bytes [] e = refl
no_bytes (x ∷ xs) e = absurd (omega arith)

rebuild_nothing : (s : Store) (l : Blist) → IsList s l → l.len ≡ 0 → Rebuilt s l (rebuild l s)
unfolding rebuild
rebuild_nothing s l well none_left =
    let nothing : contents s l.buffers ≡ [] =
      no_bytes (contents s l.buffers) (omega (arith, well.counted)) in
    record {
      l' = record l { buffers = []; cache = none; num = 0 };
      s' = s;
      runs = rw ((==_iff l.len 0).1 none_left) refl;
      well = record {
        chain = record { windows = tt; fresh = tt; distinct = tt };
        tail = tt;
        counted = none_left;
        numbered = refl;
      };
      holds = sym nothing;
      one = omega arith;
      own = tt;
      kept = Preserves-refl;
    }

-- On a well-formed list shorter than 2^64, rebuild succeeds, leaves a well-formed list of the same
-- bytes in at most one node, which is the whole of a raw buffer that is new, and keeps the bytes
-- of every other raw buffer, if `posix_memalign` succeeds at the alignments of a word and of a
-- page and the constructor of raw_posix_aligned accepts the page's size.
pub rebuild-Rebuilt :
    (s : Store) (l : Blist)
    → IsList s l
    → l.len < 2 ^ 64
    → CanAlign s.allocator 8
    → CanAlign s.allocator s.platform.page_size
    → Rebuilt s l (rebuild l s)
rebuild-Rebuilt s l well small word page = elim (Bool-cases (ltb 0 l.len)) [
  | inl some_bytes ↦
      let more = ltb→lt 0 l.len some_bytes in
      subst (Rebuilt s l) (sym (rebuild-made s l more))
        (made_of-Rebuilt s l (chosen s l) well more small (chosen-Creates s l word page))
  | inr nothing ↦ rebuild_nothing s l well (ground arith)
]
