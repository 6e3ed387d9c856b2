-- ===== src/Buffer/Blist/Rebuild/Copying.antt =====
-- The loop of rebuild(nb) of buffer::list: the bytes of every node go to the new one.
use mathlib.Core.Path.{subst}
use replica_wbcache.Prelude.{
  ℕ, ◌+◌, ◌≤◌, ◌≡◌, ◌≢◌, refl, sym, ap, ◌∙◌, some, List, [], ◌∷◌, ◌++◌, append-nil, append_assoc,
  arith, ok, true, false, leb, length, take, drop, Result, length-append,
}
use replica_wbcache.Prelude.Slices.{take_all, take-take}
use replica_wbcache.Intarith.{u64}
use replica_wbcache.Buffer.Store.{Error, Store, overwrite}
use replica_wbcache.Buffer.Ptr
use replica_wbcache.Buffer.Ptr.{Ptr}
use replica_wbcache.Buffer.Ptr.Access.{
  IsWindow, IsBefore, Preserves, Preserves-refl, Preserves-trans, bytes, length-bytes, raw_id-ok,
}
use replica_wbcache.Buffer.Ptr.Cut.{read_from-ok}
use replica_wbcache.Buffer.Ptr.Write.{
  written, written-holds, written-Preserves, store_bytes-ok, length-overwrite, grown_bytes,
}
use replica_wbcache.Buffer.Blist.{Node}
use replica_wbcache.Buffer.Blist.Contents.{contents, All, All-mono, keep-windows, keep-contents}
use replica_wbcache.Buffer.Blist.Rebuild.{copy_nodes}

Preserves-mono :
    {i : ℕ} (k k' : ℕ) {s s' : Store} → k' ≤ k → Preserves i k s s' → Preserves i k' s s'
Preserves-mono k k' below p = record {
  keeps = λ j r h.
      let (r', h', l, c) = p.keeps j r h in (r', h', l, λ m f. c m (λ e. omega (arith, f e)));
}

-- One node's bytes, written into the new one from `pos` on.
module _ (s : Store) (nb : Ptr) (w : IsWindow s nb) (pos : ℕ) (xs : List ℕ)
    (room : pos + length xs ≤ nb.m_len) where
  abbrev at : ℕ
  at = nb.m_off + pos

  fits : at + length xs ≤ length w.r.m_data
  fits = omega (arith, w.fits)

  abbrev pub copied : Store
  copied = written s w.i w.r at xs

  pub copy_in-ok : Ptr.copy_in nb pos xs false s ≡ ok (tt, copied)
  unfolding Ptr.copy_in replica_wbcache.Buffer.Ptr.reset_crc
  copy_in-ok =
      let inside : leb pos nb.m_len ≡ true = ground arith in
      let within : leb (u64 (pos + length xs)) nb.m_len ≡ true = ground (arith, w.fits, w.small) in
      rw (raw_id-ok w, inside, within) (store_bytes-ok s w.i w.r at xs w.holds fits)

  pub copied-IsWindow : IsWindow copied nb
  copied-IsWindow = record {
    i = w.i;
    r = record w.r { m_data = overwrite at xs w.r.m_data };
    is_raw = w.is_raw;
    holds = written-holds s w.i w.r at xs w.holds fits;
    fits = omega (arith, length-overwrite at xs w.r.m_data fits, w.fits);
    small = omega (arith, length-overwrite at xs w.r.m_data fits, w.small);
  }

  pub copied-head : take (pos + length xs) (bytes copied nb) ≡ take pos (bytes s nb) ++ xs
  copied-head =
      rw (w.is_raw, w.holds, written-holds s w.i w.r at xs w.holds fits)
        (take-take (pos + length xs) nb.m_len (drop nb.m_off (overwrite at xs w.r.m_data)) room
          ∙ grown_bytes nb.m_off pos xs w.r.m_data fits
          ∙ ap (λ ys. ys ++ xs)
              (sym (take-take pos nb.m_len (drop nb.m_off w.r.m_data) (omega arith))))

  pub copied-Preserves : Preserves w.i 0 s copied
  copied-Preserves =
      Preserves-mono at 0 (omega arith) (written-Preserves s w.i w.r at xs w.holds fits)

some_inj : {a b : ℕ} → some a ≡ some b → a ≡ b
some_inj e = cc

-- A node whose window is in another raw buffer.
abbrev pub IsAway : ℕ → Node → Type 0
IsAway i n = n.bptr.m_raw ≢ some i

pub record Filled (s : Store) (nb : Ptr) (i pos : ℕ) (xs : List ℕ)
    (run : Result Error (Unit {0} × Store)) : Type 0 where
  pub s' : Store
  pub runs : run ≡ ok (tt, s')
  pub window : IsWindow s' nb
  pub head : take (pos + length xs) (bytes s' nb) ≡ take pos (bytes s nb) ++ xs
  pub kept : Preserves i 0 s s'
  pub nodes : s'.next_node ≡ s.next_node

away-IsBefore : (i : ℕ) (n : Node) → IsAway i n → IsBefore i 0 n.bptr
away-IsBefore i n away e = absurd (away e)

joined_head :
    (pos n : ℕ) (ys xs zs zs' after between start : List ℕ)
    → xs ≡ ys
    → length xs ≡ n
    → zs' ≡ zs
    → take (pos + length xs) between ≡ take pos start ++ xs
    → take (pos + n + length zs') after ≡ take (pos + n) between ++ zs'
    → take (pos + length (ys ++ zs)) after ≡ take pos start ++ (ys ++ zs)
joined_head pos n ys xs zs zs' after between start whole size same first rest =
    let count : pos + length (ys ++ zs) ≡ pos + n + length zs' =
      omega (arith, length-append ys zs, ap length whole, size, ap length same) in
    let here : pos + n ≡ pos + length xs = omega (arith, size) in
    ap (λ (k : ℕ). take k after) count
    ∙ rest
    ∙ ap (λ (k : ℕ). take k between ++ zs') here
    ∙ ap (λ us. us ++ zs') first
    ∙ append_assoc (take pos start) xs zs'
    ∙ ap (λ us. take pos start ++ us) (ap (λ us. us ++ zs') whole ∙ ap (λ us. ys ++ us) same)

-- One node, and what is filled after it.
Filled-cons :
    (s s₁ : Store) (nb : Ptr) (i pos : ℕ) (n : Node) (ns : List Node) (xs : List ℕ)
    → Ptr.read_from n.bptr 0 n.bptr.m_len s ≡ ok (xs, s)
    → Ptr.copy_in nb pos xs false s ≡ ok (tt, s₁)
    → xs ≡ bytes s n.bptr
    → length xs ≡ n.bptr.m_len
    → contents s₁ ns ≡ contents s ns
    → take (pos + length xs) (bytes s₁ nb) ≡ take pos (bytes s nb) ++ xs
    → Preserves i 0 s s₁
    → s₁.next_node ≡ s.next_node
    → Filled s₁ nb i
        (pos + n.bptr.m_len)
        (contents s₁ ns)
        (copy_nodes nb (pos + n.bptr.m_len) ns s₁)
    → Filled s nb i pos (contents s (n ∷ ns)) (copy_nodes nb pos (n ∷ ns) s)
unfolding copy_nodes
Filled-cons s s₁ nb i pos n ns xs read copies whole size same first kept nodes rest = record {
  s' = rest.s';
  runs = rw (read, copies) rest.runs;
  window = rest.window;
  head =
      joined_head pos n.bptr.m_len (bytes s n.bptr) xs (contents s ns) (contents s₁ ns)
        (bytes rest.s' nb) (bytes s₁ nb) (bytes s nb) whole size same first rest.head;
  kept = Preserves-trans kept rest.kept;
  nodes = rest.nodes ∙ nodes;
}

pub copy_nodes-Filled :
    (ns : List Node) (s : Store) (nb : Ptr) (i pos : ℕ)
    → nb.m_raw ≡ some i
    → IsWindow s nb
    → All (λ n. IsWindow s n.bptr) ns
    → All (IsAway i) ns
    → pos + length (contents s ns) ≤ nb.m_len
    → Filled s nb i pos (contents s ns) (copy_nodes nb pos ns s)
unfolding copy_nodes
copy_nodes-Filled [] s nb i pos is_raw w ws away room = record {
  s' = s;
  runs = refl;
  window = w;
  head =
      ap (λ (k : ℕ). take k (bytes s nb)) {y = pos} (omega arith)
      ∙ sym (append-nil (take pos (bytes s nb)));
  kept = Preserves-refl;
  nodes = refl;
}
copy_nodes-Filled (n ∷ ns) s nb i pos is_raw w ws away room =
    let p = n.bptr in
    let xs = take p.m_len (bytes s p) in
    let whole : xs ≡ bytes s p = take_all p.m_len (bytes s p) (omega (arith, length-bytes ws.0)) in
    let size : length xs ≡ p.m_len = ap length whole ∙ length-bytes ws.0 in
    let all = length-append (bytes s p) (contents s ns) in
    let fits : pos + length xs ≤ nb.m_len = omega (arith, ap length whole) in
    let same : w.i ≡ i = some_inj (sym w.is_raw ∙ is_raw) in
    let kept : Preserves i 0 s (copied s nb w pos xs fits) =
      subst (λ j. Preserves j 0 s (copied s nb w pos xs fits)) same
        (copied-Preserves s nb w pos xs fits) in
    let rest_same : contents (copied s nb w pos xs fits) ns ≡ contents s ns =
      keep-contents kept ns ws.1
        (All-mono (IsAway i) (λ m. IsBefore i 0 m.bptr) ns (away-IsBefore i) away.1) in
    Filled-cons s (copied s nb w pos xs fits) nb i pos n ns xs
      (read_from-ok s p ws.0 0 p.m_len (omega arith)) (copy_in-ok s nb w pos xs fits) whole size
      rest_same (copied-head s nb w pos xs fits) kept refl
      (copy_nodes-Filled ns (copied s nb w pos xs fits) nb i (pos + p.m_len) is_raw
        (copied-IsWindow s nb w pos xs fits) (keep-windows kept ns ws.1) away.1
        (omega (arith, ap length rest_same, ap length whole, size)))
