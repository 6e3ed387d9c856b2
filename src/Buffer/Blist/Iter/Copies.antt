-- ===== src/Buffer/Blist/Iter/Copies.antt =====
-- copy(uint64_t, char*) of the iterators of buffer::list against the contents.
use mathlib.Core.Path.{subst}
use Prim.Native.Nat.{min}
use replica_wbcache.Prelude.{
  ℕ, zero, suc, Result, ◌+◌, ◌-◌, ◌^◌, ◌≤◌, ◌<◌, ◌≡◌, refl, sym, ap, ◌∙◌, inl, inr, List, [], ◌∷◌,
  ◌++◌, arith, ok, err, leb, length, length-append, take, drop, Bool-cases, leb→le,
}
use replica_wbcache.Prelude.Slices.{slice-append_left, take-add}
use replica_wbcache.Buffer.Store.{Error, Store, M, ◌>>=◌, end_of_buffer}
use replica_wbcache.Buffer.Ptr.Access.{bytes, length-bytes}
use replica_wbcache.Buffer.Ptr.Cut.{copy_out-ok}
use replica_wbcache.Buffer.Blist.{Node, Blist}
use replica_wbcache.Buffer.Blist.Contents.{contents, IsList}
use replica_wbcache.Buffer.Blist.Iter.{Iter, at_end, seek, begin, settle, copy_loop, copy}
use replica_wbcache.Buffer.Blist.Iter.Moves.{
  IsOn, IsAt, Moves, drop_after, advance-Moves, advance_past, start-IsOn,
}

-- A copy that takes `len` bytes from where the iterator is, and moves it behind them.
pub record Copies (s : Store) (it : Iter) (len : ℕ) (run : Result Error ((List ℕ × Iter) × Store))
    : Type 0 where
  pub it' : Iter
  pub runs : run ≡ ok ((take len (drop it.m_a_off (contents s it.m_list)), it'), s)
  pub valid : IsAt s it'
  pub list_same : it'.m_list ≡ it.m_list
  pub moved : it'.m_a_off ≡ it.m_a_off + len

abbrev iter : List Node → List Node → ℕ → ℕ → Iter
iter all rest r a = record { m_list = all; m_list_it = rest; m_r_off = r; m_a_off = a }

-- The bytes of one turn of the loop.
turn-bytes :
    (s : Store) (all : List Node) (n : Node) (ns : List Node) (r a k : ℕ)
    → IsAt s (iter all (n ∷ ns) r a)
    → r + k ≤ n.bptr.m_len
    → take k (drop r (bytes s n.bptr)) ≡ take k (drop a (contents s all))
turn-bytes s all n ns r a k at fits =
    let size = length-bytes at.on.windows.0 in
    sym (slice-append_left r k (bytes s n.bptr) (contents s ns) (omega (arith, size)))
    ∙ ap (take k) at.on.rest_same

-- A slice is its first part and the rest.
slice_split :
    (a len k : ℕ) (xs : List ℕ)
    → k ≤ len
    → take k (drop a xs) ++ take (len - k) (drop (a + k) xs) ≡ take len (drop a xs)
slice_split a len k xs h =
    ap (λ ys. take k (drop a xs) ++ take (len - k) ys) (drop_after a k xs)
    ∙ sym (take-add k (len - k) (drop a xs))
    ∙ ap (λ (j : ℕ). take j (drop a xs)) (omega arith)

done-Copies : (s : Store) (fuel : ℕ) (it : Iter) → IsAt s it → Copies s it 0 (copy_loop fuel it 0 s)
unfolding copy_loop
done-Copies s fuel it at = record {
  it' = it;
  runs = refl;
  valid = at;
  list_same = refl;
  moved = omega arith;
}

copy_loop-Copies :
    (s : Store) (fuel : ℕ) (all rest : List Node) (r a len : ℕ)
    → IsAt s (iter all rest r a)
    → length rest < fuel
    → a + len ≤ length (contents s all)
    → Copies s (iter all rest r a) len (copy_loop fuel (iter all rest r a) len s)
unfolding copy_loop
copy_loop-Copies s fuel all rest r a zero at enough below =
    done-Copies s fuel (iter all rest r a) at
copy_loop-Copies s zero all rest r a (suc more) at enough below = absurd (omega arith)
copy_loop-Copies s (suc fuel) all [] r a (suc more) at enough below =
    absurd (omega (arith, at.on.total, at.inside))
copy_loop-Copies s (suc fuel) all (n ∷ ns) r a (suc more) at enough below =
    let len = suc more in
    let k = min len (n.bptr.m_len - r) in
    let it = iter all (n ∷ ns) r a in
    let go = advance-Moves s it at.on k (omega (arith, at.on.small)) (omega arith) in
    let it₁ = go.it' in
    let within : r + k ≤ n.bptr.m_len = omega (arith, at.inside) in
    let same : length (contents s it₁.m_list) ≡ length (contents s all) =
      ap (λ l. length (contents s l)) go.list_same in
    let next : Copies s it₁ (len - k) (copy_loop fuel it₁ (len - k) s) =
      elim (Bool-cases (leb len (n.bptr.m_len - r))) [
        | inl last ↦
            let none_left : 0 ≡ len - k = omega (arith, leb→le len (n.bptr.m_len - r) last) in
            subst (λ (j : ℕ). Copies s it₁ j (copy_loop fuel it₁ j s)) none_left
              (done-Copies s fuel it₁ go.valid)
        | inr more_left ↦
            let reached : n.bptr.m_len ≤ r + k = ground (arith, at.inside) in
            copy_loop-Copies s fuel it₁.m_list it₁.m_list_it it₁.m_r_off it₁.m_a_off (len - k)
              go.valid (omega (arith, go.left reached)) (omega (arith, same, go.moved))
      ] in
    let rest_bytes : take (len - k) (drop it₁.m_a_off (contents s it₁.m_list))
        ≡ take (len - k) (drop (a + k) (contents s all)) =
      ap (λ (j : ℕ). take (len - k) (drop j (contents s it₁.m_list))) go.moved
      ∙ ap (λ l. take (len - k) (drop (a + k) (contents s l))) go.list_same in
    record {
      it' = next.it';
      runs = rw (
        copy_out-ok s n.bptr at.on.windows.0 r k within,
        go.runs,
        next.runs,
        turn-bytes s all n ns r a k at within,
        rest_bytes,
        slice_split a len k (contents s all) (omega arith),
      );
      valid = next.valid;
      list_same = next.list_same ∙ go.list_same;
      moved = omega (arith, next.moved, go.moved);
    }

-- A copy of more bytes than are left ends in end_of_buffer.
copy_loop-past :
    (s : Store) (fuel : ℕ) (all rest : List Node) (r a len : ℕ)
    → IsAt s (iter all rest r a)
    → length rest < fuel
    → length (contents s all) < a + len
    → a + len < 2 ^ 64
    → copy_loop fuel (iter all rest r a) len s ≡ err end_of_buffer
unfolding copy_loop
copy_loop-past s fuel all rest r a zero at enough past word = absurd (omega (arith, at.on.before))
copy_loop-past s zero all rest r a (suc more) at enough past word = absurd (omega arith)
copy_loop-past s (suc fuel) all [] r a (suc more) at enough past word = refl
copy_loop-past s (suc fuel) all (n ∷ ns) r a (suc more) at enough past word =
    let len = suc more in
    let k = min len (n.bptr.m_len - r) in
    let it = iter all (n ∷ ns) r a in
    let size = length-bytes at.on.windows.0 in
    let sum = length-append (bytes s n.bptr) (contents s ns) in
    let go =
      advance-Moves s it at.on k (omega (arith, word))
        (omega (arith, at.on.total, at.inside, size, sum)) in
    let it₁ = go.it' in
    let within : r + k ≤ n.bptr.m_len = omega (arith, at.inside) in
    let same : length (contents s it₁.m_list) ≡ length (contents s all) =
      ap (λ l. length (contents s l)) go.list_same in
    let reached : n.bptr.m_len ≤ r + k = omega (arith, at.on.total, at.inside, size, sum) in
    let next =
      copy_loop-past s fuel it₁.m_list it₁.m_list_it it₁.m_r_off it₁.m_a_off (len - k) go.valid
        (omega (arith, go.left reached)) (omega (arith, same, go.moved))
        (omega (arith, word, go.moved)) in
    rw (copy_out-ok s n.bptr at.on.windows.0 r k within, go.runs, next)

-- Settling an iterator at the end finds the same place again.
record Settles (s : Store) (it : Iter) : Type 0 where
  it' : Iter
  runs : settle it s ≡ ok (it', s)
  valid : IsAt s it'
  list_same : it'.m_list ≡ it.m_list
  off_same : it'.m_a_off ≡ it.m_a_off

settle-Settles : (s : Store) (it : Iter) → IsAt s it → Settles s it
unfolding settle seek
settle-Settles s it at = elim (Bool-cases (at_end it)) [
  | inl ended ↦
      let start = record it { m_list_it = it.m_list; m_a_off = 0; m_r_off = 0 } in
      let go =
        advance-Moves s start (start-IsOn s it.m_list at.on.all_windows at.on.small) it.m_a_off
          (omega (arith, at.on.before, at.on.small)) (omega (arith, at.on.before)) in
      record {
        it' = go.it';
        runs = rw (ended, go.runs);
        valid = go.valid;
        list_same = go.list_same;
        off_same = omega (arith, go.moved);
      }
  | inr inside ↦ record {
    it' = it;
    runs = rw inside;
    valid = at;
    list_same = refl;
    off_same = refl;
  }
]

-- The bytes that are copied, and an iterator behind them.
pub record Copied (s : Store) (l : Blist) (off len : ℕ)
    (run : Result Error ((List ℕ × Iter) × Store)) : Type 0 where
  pub it' : Iter
  pub runs : run ≡ ok ((take len (drop off (contents s l.buffers)), it'), s)
  pub valid : IsAt s it'
  pub list_same : it'.m_list ≡ l.buffers
  pub moved : it'.m_a_off ≡ off + len

-- begin(off) and then copy.
abbrev pub copy_from : Blist → ℕ → ℕ → M (List ℕ × Iter)
copy_from l off len = begin l off >>= λ it. copy it len

module _ (s : Store) (l : Blist) (off len : ℕ) (valid : IsList s l) (small : l.len < 2 ^ 64)
    (word : off + len < 2 ^ 64) where
  from : Iter
  from = iter l.buffers l.buffers 0 0

  from-IsOn : IsOn s from
  unfolding from
  from-IsOn = start-IsOn s l.buffers valid.chain.windows (omega (arith, valid.counted))

  begin-Moves : off ≤ l.len → Moves s from off (begin l off s)
  unfolding begin from
  begin-Moves below =
      advance-Moves s from from-IsOn off (omega arith) (omega (arith, valid.counted))

  copies : off + len ≤ l.len → Copied s l off len (copy_from l off len s)
  unfolding copy from
  copies below =
      let go = begin-Moves (omega arith) in
      let set = settle-Settles s go.it' go.valid in
      let it = set.it' in
      let same = set.list_same ∙ go.list_same in
      let at : it.m_a_off ≡ off = omega (arith, set.off_same, go.moved) in
      let size : length (contents s it.m_list) ≡ l.len =
        ap (λ ns. length (contents s ns)) same ∙ sym valid.counted in
      let done =
        copy_loop-Copies s (suc (length it.m_list_it)) it.m_list it.m_list_it it.m_r_off it.m_a_off
          len set.valid (omega arith) (omega (arith, size, at)) in
      record {
        it' = done.it';
        runs =
            rw (go.runs, set.runs, done.runs)
              (ap (λ xs. ok ((xs, done.it'), s))
                (ap (λ (k : ℕ). take len (drop k (contents s it.m_list))) at
                  ∙ ap (λ ns. take len (drop off (contents s ns))) same));
        valid = done.valid;
        list_same = done.list_same ∙ same;
        moved = omega (arith, done.moved, at);
      }

  fails : l.len < off + len → copy_from l off len s ≡ err end_of_buffer
  unfolding copy begin from
  fails past = elim (Bool-cases (leb off l.len)) [
    | inl below ↦
        let go = begin-Moves (leb→le off l.len below) in
        let set = settle-Settles s go.it' go.valid in
        let it = set.it' in
        let at : it.m_a_off ≡ off = omega (arith, set.off_same, go.moved) in
        let size : length (contents s it.m_list) ≡ l.len =
          ap (λ ns. length (contents s ns)) (set.list_same ∙ go.list_same) ∙ sym valid.counted in
        rw (
          go.runs,
          set.runs,
          copy_loop-past s (suc (length it.m_list_it)) it.m_list it.m_list_it it.m_r_off it.m_a_off
              len set.valid (omega arith) (omega (arith, size, at)) (omega (arith, at)),
        )
    | inr above ↦
        rw (advance_past s from from-IsOn off (omega arith) (ground (arith, valid.counted, above)))
  ]

  -- On a well-formed list shorter than 2^64, where off + len does not wrap, copy from an iterator
  -- made at `off` gives the `len` bytes from there on and an iterator behind them, if there are so
  -- many, and throws end_of_buffer if not; its fuel is always enough.
  pub copy-contents :
      (off + len ≤ l.len → Copied s l off len (copy_from l off len s))
      × (l.len < off + len → copy_from l off len s ≡ err end_of_buffer)
  copy-contents = (copies, fails)
