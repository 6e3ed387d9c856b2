-- ===== src/Buffer/Ptr/Walk.antt =====
-- include/buffer/buffer_ptr.h: a ptr's iterator, whose positions are addresses, so that they wrap
-- as a pointer of 64 bits does. Copies (deep_copy) are not here.
use replica_wbcache.Prelude.{
  ℕ, ◌+◌, ◌-◌, ◌^◌, ◌≤◌, ◌<◌, ◌≡◌, refl, Bool, true, false, List, [], ◌∷◌, ok, err, ltb, leb, ◌==◌,
  if◌then◌else◌, inl, inr, Bool-cases, lt→ltb, ltb→lt, ltb_ge, le→ltb, arith, some, get_elem?,
}
use replica_wbcache.Intarith.{u64}
use replica_wbcache.Intarith.Rounding.{u64-own}
use replica_wbcache.Buffer.Ptr.Write.{found-raw_at}
use replica_wbcache.Buffer.Store.{end_of_buffer, Store, M, ◌>>=◌, pure, throw, Raw, reading, raw_at}
use replica_wbcache.Buffer.Ptr.{Ptr, ptr, sub_ptr, have_raw, raw_id}

-- c_str(), which asserts the raw buffer
unfoldable pub ptr_address : Ptr → M ℕ
unfolding raw_id
ptr_address p = do i ← raw_id p; r ← reading (λ s. raw_at s i); pure (u64 (r.address + p.m_off))

pub record PtrIter : Type 0 where
  pub this_ptr : Ptr
  pub start : ℕ
  pub cur_pos : ℕ
  pub end_ptr : ℕ

unfoldable pub ptr_begin : Ptr → (offset : ℕ) → M PtrIter
unfolding ptr_address
ptr_begin p offset = do
  at ← ptr_address p
  pure (record {
    this_ptr = p;
    start = u64 (at + offset);
    cur_pos = u64 (at + offset);
    end_ptr = u64 (at + p.m_len);
  })

-- operator+=
unfoldable pub ptr_advance : PtrIter → ℕ → M PtrIter
ptr_advance it len =
    let pos = u64 (it.cur_pos + len) in
    if ltb it.end_ptr pos then throw end_of_buffer else pure (record it { cur_pos = pos })

unfoldable pub get_pos_add : PtrIter → ℕ → M (ℕ × PtrIter)
unfolding ptr_advance
get_pos_add it len = do it' ← ptr_advance it len; pure (it.cur_pos, it')

unfoldable pub iter_get_ptr : PtrIter → ℕ → M (Ptr × PtrIter)
unfolding ptr_address ptr_advance sub_ptr
iter_get_ptr it len = do
  at ← ptr_address it.this_ptr
  it' ← ptr_advance it len
  p ← sub_ptr it.this_ptr (u64 (it.cur_pos + 2 ^ 64 - at)) len
  pure (p, it')

unfoldable pub get_offset : PtrIter → ℕ
get_offset it = u64 (it.cur_pos + 2 ^ 64 - it.start)

unfoldable pub at_end_ptr : PtrIter → Bool
at_end_ptr it = it.cur_pos == it.end_ptr

-- A decoder that takes fields of these lengths, one behind the other
abbrev pub get_fields : List ℕ → PtrIter → M (List Ptr × PtrIter)
get_fields [] it = pure ([], it)
get_fields (n ∷ ns) it = do
  (p, it') ← iter_get_ptr it n
  (ps, it'') ← get_fields ns it'
  pure (p ∷ ps, it'')

abbrev pub sum : List ℕ → ℕ
sum [] = 0
sum (n ∷ ns) = n + sum ns

abbrev pub fields : (raw off : ℕ) → List ℕ → List Ptr
fields raw off [] = []
fields raw off (n ∷ ns) = ptr raw off n ∷ fields raw (off + n) ns

-- The iterator at a position of a window, whose bytes begin at address `at`
abbrev pub walking : (at raw off len start pos : ℕ) → PtrIter
walking at raw off len start pos = record {
  this_ptr = ptr raw off len;
  start = at + start;
  cur_pos = at + pos;
  end_ptr = at + len;
}

module _ (raw off len start : ℕ) (r : Raw) (s : Store) (holds : get_elem? s.raws raw ≡ some r)
    (mapped : r.address + off + len < 2 ^ 64) where
  abbrev at : ℕ
  at = r.address + off

  address-ok : ptr_address (ptr raw off len) s ≡ ok (at, s)
  unfolding ptr_address
  address-ok = rw (found-raw_at s raw holds, u64-own at (omega arith)) refl

  ptr_begin-walking :
      start ≤ len → ptr_begin (ptr raw off len) start s ≡ ok (walking at raw off len start start, s)
  unfolding ptr_begin
  ptr_begin-walking h =
      rw (address-ok, u64-own (at + start) (omega arith), u64-own (at + len) (omega arith)) refl

  -- A window that fits, and one that does not
  field-ok :
      (pos n : ℕ)
      → pos + n ≤ len
      → iter_get_ptr (walking at raw off len start pos) n s
        ≡ ok ((ptr raw (off + pos) n, walking at raw off len start (pos + n)), s)
  unfolding iter_get_ptr ptr_advance sub_ptr have_raw
  field-ok pos n fits =
      let there : ltb (at + len) (at + (pos + n)) ≡ false =
        le→ltb (at + len) (at + (pos + n)) (omega arith) in
      let passes : leb (u64 (pos + n)) len ≡ true = ground (arith, fits) in
      let sum : at + pos + n ≡ at + (pos + n) = omega arith in
      let back : u64 (at + pos + 2 ^ 64 - at) ≡ pos = omega arith in
      rw (address-ok, sum, u64-own (at + (pos + n)) (omega arith), there, back, passes) refl

  field-over :
      (pos n : ℕ)
      → len < pos + n
      → at + (pos + n) < 2 ^ 64
      → iter_get_ptr (walking at raw off len start pos) n s ≡ err end_of_buffer
  unfolding iter_get_ptr ptr_advance
  field-over pos n past nowrap =
      let over : ltb (at + len) (at + (pos + n)) ≡ true =
        lt→ltb (at + len) (at + (pos + n)) (omega arith) in
      let sum : at + pos + n ≡ at + (pos + n) = omega arith in
      rw (address-ok, sum, u64-own (at + (pos + n)) nowrap, over) refl

  walk-fields :
      (ns : List ℕ) (pos : ℕ)
      → pos ≤ len
      → at + (pos + sum ns) < 2 ^ 64
      → get_fields ns (walking at raw off len start pos) s ≡ (
          if ltb len (pos + sum ns)
          then err end_of_buffer
          else ok ((fields raw (off + pos) ns, walking at raw off len start (pos + sum ns)), s))
  walk-fields [] pos within nowrap =
      let same : pos + 0 ≡ pos = omega arith in rw (same, le→ltb len pos within) refl
  walk-fields (n ∷ ns) pos within nowrap =
      let total : pos + (n + sum ns) ≡ pos + n + sum ns = omega arith in
      let further : off + pos + n ≡ off + (pos + n) = omega arith in
      elim (Bool-cases (ltb len (pos + n))) [
        | inl over ↦
            let all_over = lt→ltb len (pos + n + sum ns) (ground (arith, over)) in
            rw (total, all_over, field-over pos n (ltb→lt len (pos + n) over) (omega arith)) refl
        | inr there ↦
            let fits = ltb_ge len (pos + n) there in
            let next = walk-fields ns (pos + n) fits (omega arith) in
            elim (Bool-cases (ltb len (pos + n + sum ns))) [
              | inl over ↦ rw (total, further, field-ok pos n fits, next, over) refl
              | inr all_there ↦ rw (total, further, field-ok pos n fits, next, all_there) refl
            ]
      ]

-- For a ptr within a raw buffer that is mapped below 2^64, and an iterator made at an offset
-- within it, windows taken one behind the other, of lengths that do not carry an address beyond
-- 2^64, are adjacent from the offset on and leave the iterator behind the last, if they fit; if
-- they do not, end_of_buffer is thrown.
pub get_fields-fields :
    (ns : List ℕ) (raw off len pos : ℕ) (r : Raw) (s : Store)
    → get_elem? s.raws raw ≡ some r
    → r.address + off + len < 2 ^ 64
    → r.address + off + (pos + sum ns) < 2 ^ 64
    → pos ≤ len
    → (ptr_begin (ptr raw off len) pos >>= get_fields ns) s ≡ (
        if ltb len (pos + sum ns)
        then err end_of_buffer
        else ok (
          (fields raw (off + pos) ns, walking (r.address + off) raw off len pos (pos + sum ns)),
          s,
        ))
get_fields-fields ns raw off len pos r s holds mapped nowrap within =
    rw (ptr_begin-walking raw off len pos r s holds mapped within)
      (walk-fields raw off len pos r s holds mapped ns pos within nowrap)
