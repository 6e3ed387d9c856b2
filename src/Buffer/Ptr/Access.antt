-- ===== src/Buffer/Ptr/Access.antt =====
-- What a window holds, and what becomes of windows when the store changes.
use replica_wbcache.Prelude.{
  ℕ, ◌+◌, ◌-◌, ◌^◌, ◌≤◌, ◌<◌, ◌≡◌, refl, sym, ap, ◌∙◌, Option, none, some, List, [], arith, ok,
  length, get_elem?, take, drop, length-take, length-drop,
}
use replica_wbcache.Prelude.Slices.{slice-take}
use replica_wbcache.Buffer.Store.{Raw, Store, raw_at}
use replica_wbcache.Buffer.Ptr.{Ptr, end, raw_id, unused_tail_length, get_mempool_type}

abbrev pub raw_bytes : Option Raw → List ℕ
raw_bytes none = []
raw_bytes (some r) = r.m_data

abbrev pub data_of : Store → Option ℕ → List ℕ
data_of s none = []
data_of s (some i) = raw_bytes (get_elem? s.raws i)

-- The bytes from c_str() up to end_c_str().
abbrev pub bytes : Store → Ptr → List ℕ
bytes s p = take p.m_len (drop p.m_off (data_of s p.m_raw))

-- `p` lies within raw buffer `i`, which is `r`.
pub record IsWindow (s : Store) (p : Ptr) : Type 0 where
  pub i : ℕ
  pub r : Raw
  pub is_raw : p.m_raw ≡ some i
  pub holds : get_elem? s.raws i ≡ some r
  pub fits : p.m_off + p.m_len ≤ length r.m_data
  pub small : length r.m_data < 2 ^ 64

module _ {s : Store} {p : Ptr} (w : IsWindow s p) where
  pub bytes_lem : bytes s p ≡ take p.m_len (drop p.m_off w.r.m_data)
  bytes_lem = rw (w.is_raw, w.holds)

  pub length-bytes : length (bytes s p) ≡ p.m_len
  length-bytes =
      rw (w.is_raw, w.holds)
        (omega (
          arith,
          length-take p.m_len (drop p.m_off w.r.m_data),
          length-drop p.m_off w.r.m_data,
          w.fits,
        ))

  -- A window of a window.
  pub sub-IsWindow :
      (off len : ℕ)
      → off + len ≤ p.m_len
      → IsWindow s (record p { m_off = p.m_off + off; m_len = len })
  sub-IsWindow off len h = record {
    i = w.i;
    r = w.r;
    is_raw = w.is_raw;
    holds = w.holds;
    fits = omega (arith, w.fits);
    small = w.small;
  }

  pub raw_id-ok : raw_id p s ≡ ok (w.i, s)
  unfolding raw_id
  raw_id-ok = rw w.is_raw

  pub raw_at-ok : raw_at s w.i ≡ ok w.r
  unfolding raw_at
  raw_at-ok = rw (w.holds, raw_at)

  pub unused_tail_length-ok : unused_tail_length p s ≡ ok (length w.r.m_data - end p, s)
  unfolding unused_tail_length
  unused_tail_length-ok = rw (w.is_raw, raw_at-ok)

  pub get_mempool_type-ok : get_mempool_type p s ≡ ok (w.r.mempool_type_id, s)
  unfolding get_mempool_type
  get_mempool_type-ok = rw (w.is_raw, raw_at-ok)

-- Raw buffers keep their lengths, and every byte but those of buffer `i` from index `k` on.
pub record Preserves (i k : ℕ) (s s' : Store) : Type 0 where
  pub keeps :
      (j : ℕ) (r : Raw)
      → get_elem? s.raws j ≡ some r
      → (r' : Raw) × (get_elem? s'.raws j ≡ some r')
        × (length r'.m_data ≡ length r.m_data)
        × ((m : ℕ) → (j ≡ i → m ≤ k) → take m r'.m_data ≡ take m r.m_data)

-- A window that does not reach behind index `k` of buffer `i`.
abbrev pub IsBefore : ℕ → ℕ → Ptr → Type 0
IsBefore i k p = p.m_raw ≡ some i → end p ≤ k

some_inj : {a b : ℕ} → some a ≡ some b → a ≡ b
some_inj e = cc

pub slice_of_take :
    (o n : ℕ) (xs ys : List ℕ)
    → take (o + n) xs ≡ take (o + n) ys
    → take n (drop o xs) ≡ take n (drop o ys)
slice_of_take o n xs ys e =
    sym (slice-take o n (o + n) xs (omega arith))
    ∙ ap (λ zs. take n (drop o zs)) e
    ∙ slice-take o n (o + n) ys (omega arith)

module _ {i k : ℕ} {s s' : Store} (kept : Preserves i k s s') {p : Ptr} (w : IsWindow s p) where
  pub keep-IsWindow : IsWindow s' p
  keep-IsWindow =
      let (r', at, same, _) = kept.keeps w.i w.r w.holds in
      record {
        i = w.i;
        r = r';
        is_raw = w.is_raw;
        holds = at;
        fits = omega (arith, same, w.fits);
        small = omega (arith, same, w.small);
      }

  pub keep-bytes : IsBefore i k p → bytes s' p ≡ bytes s p
  keep-bytes before =
      let (r', at, same, copy) = kept.keeps w.i w.r w.holds in
      rw (w.is_raw, w.holds, at)
        (slice_of_take p.m_off p.m_len r'.m_data w.r.m_data
          (copy (end p) (λ e. before (w.is_raw ∙ ap some e))))

pub Preserves-refl : {i k : ℕ} {s : Store} → Preserves i k s s
Preserves-refl = record { keeps = λ j r h. (r, h, refl, λ m _. refl) }

pub Preserves-trans :
    {i k : ℕ} {s t u : Store} → Preserves i k s t → Preserves i k t u → Preserves i k s u
Preserves-trans a b = record {
  keeps = λ j r h.
      let (r', h', l', c') = a.keeps j r h in
      let (r'', h'', l'', c'') = b.keeps j r' h' in (r'', h'', l'' ∙ l', λ m f. c'' m f ∙ c' m f);
}

-- Two windows of one raw buffer see the same raw buffer.
pub same_raw_length :
    {s s' : Store} {p p' : Ptr} (w : IsWindow s p) (v : IsWindow s' p')
    → s'.raws ≡ s.raws
    → p'.m_raw ≡ p.m_raw
    → length v.r.m_data ≡ length w.r.m_data
same_raw_length {s} {s'} {p} {p'} w v raws raw =
    let e : v.i ≡ w.i = some_inj (sym v.is_raw ∙ raw ∙ w.is_raw) in
    let here : some v.r ≡ some w.r =
      sym v.holds ∙ ap (λ rs. get_elem? rs v.i) raws ∙ ap (get_elem? s.raws) e ∙ w.holds in
    ap (λ o. length (raw_bytes o)) here
