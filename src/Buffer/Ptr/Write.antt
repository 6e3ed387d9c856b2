-- ===== src/Buffer/Ptr/Write.antt =====
-- Writes through a window: what the store is then, and what the window holds.
use replica_wbcache.Prelude.{
  ℕ, zero, suc, ◌+◌, ◌-◌, ◌≤◌, ◌<◌, ◌≡◌, refl, sym, ap, ◌∙◌, inl, inr, some, List, [], ◌∷◌, ◌++◌,
  arith, ok, leb, length, get_elem?, set, take, drop, get_elem?-append_left, get_elem?-set_self,
  get_elem?-set_ne, length-take, length-drop, length-append, ◌==◌, Bool-cases, ==_iff, true,
}
use replica_wbcache.Prelude.Slices.{
  take-append_left, take-take, take-add, drop-append_right, take_all, drop-drop,
}
use replica_wbcache.Buffer.Store.{Raw, Store, raw_at, store_bytes, put_raw, overwrite, fill}
use replica_wbcache.Buffer.Ptr.{Ptr, end, append}
use replica_wbcache.Buffer.Ptr.Access.{
  IsWindow, bytes, Preserves, raw_id-ok, unused_tail_length-ok, slice_of_take,
}

module _ (at : ℕ) (src xs : List ℕ) (fits : at + length src ≤ length xs) where
  pub length-overwrite : length (overwrite at src xs) ≡ length xs
  length-overwrite = omega (
    arith,
    length-append (take at xs) (src ++ drop (at + length src) xs),
    length-append src (drop (at + length src) xs),
    length-take at xs,
    length-drop (at + length src) xs,
  )

  head_length : length (take at xs) ≡ at
  head_length = omega (arith, length-take at xs)

  pub take-overwrite : (m : ℕ) → m ≤ at → take m (overwrite at src xs) ≡ take m xs
  take-overwrite m h =
      take-append_left m (take at xs) (src ++ drop (at + length src) xs)
        (omega (arith, head_length))
      ∙ take-take m at xs h

  pub slice-overwrite : take (length src) (drop at (overwrite at src xs)) ≡ src
  slice-overwrite =
      ap (take (length src)) (
        drop-append_right at (take at xs) (src ++ drop (at + length src) xs)
          (omega (arith, head_length))
        ∙ ap (λ (k : ℕ). drop k (src ++ drop (at + length src) xs)) {y = 0} zero_left)
      ∙ take-append_left (length src) src (drop (at + length src) xs) (omega arith)
      ∙ take_all (length src) src (omega arith)
    where
      zero_left : at - length (take at xs) ≡ 0
      zero_left = omega (arith, head_length)

-- The store after a write.
abbrev pub written : Store → ℕ → Raw → ℕ → List ℕ → Store
written s i r at src = record s {
  raws = set s.raws i (record r { m_data = overwrite at src r.m_data });
}

pub get_elem?-lt :
    {A : Type 0} (xs : List A) (i : ℕ) {x : A} → get_elem? xs i ≡ some x → i < length xs
get_elem?-lt [] i h = cc
get_elem?-lt (y ∷ ys) zero h = omega arith
get_elem?-lt (y ∷ ys) (suc i) h = omega (arith, get_elem?-lt ys i h)

pub found-raw_at : (s : Store) (i : ℕ) {r : Raw} → get_elem? s.raws i ≡ some r → raw_at s i ≡ ok r
unfolding raw_at
found-raw_at s i h = rw (h, raw_at)

some_inj : {a b : Raw} → some a ≡ some b → a ≡ b
some_inj e = cc

pub le→leb : (a b : ℕ) → a ≤ b → leb a b ≡ true
le→leb a b h = ground arith

module _ (s : Store) (i : ℕ) (r : Raw) (at : ℕ) (src : List ℕ) (holds : get_elem? s.raws i ≡ some r)
    (fits : at + length src ≤ length r.m_data) where
  pub store_bytes-ok : store_bytes i at src s ≡ ok (tt, written s i r at src)
  unfolding store_bytes put_raw
  store_bytes-ok = rw (found-raw_at s i holds, le→leb (at + length src) (length r.m_data) fits)

  pub written-holds :
      get_elem? (written s i r at src).raws i
      ≡ some (record r { m_data = overwrite at src r.m_data })
  written-holds = get_elem?-set_self s.raws i _ (get_elem?-lt s.raws i holds)

  pub written-Preserves : Preserves i at s (written s i r at src)
  written-Preserves = record {
    keeps = λ j q h. elim (Bool-cases (i == j)) [
      | inl same ↦
          let e : i ≡ j = (==_iff i j).0 same in
          let was : q ≡ r = some_inj (sym h ∙ ap (get_elem? s.raws) (sym e) ∙ holds) in
          (
            record r { m_data = overwrite at src r.m_data },
            ap (get_elem? (set s.raws i _)) (sym e) ∙ written-holds,
            length-overwrite at src r.m_data fits ∙ ap (λ (x : Raw). length x.m_data) (sym was),
            λ m below.
                take-overwrite at src r.m_data fits m (below (sym e))
                ∙ ap (λ (x : Raw). take m x.m_data) (sym was),
          )
      | inr other ↦ (
        q,
        get_elem?-set_ne s.raws i j _ (λ e. ground (arith, ==_iff i j)) ∙ h,
        refl,
        λ m _. refl,
      )
    ];
  }

-- What follows a window in its raw buffer becomes part of the grown window.
pub grown_bytes :
    (off len : ℕ) (src xs : List ℕ)
    → off + len + length src ≤ length xs
    → take (len + length src) (drop off (overwrite (off + len) src xs))
      ≡ take len (drop off xs) ++ src
grown_bytes off len src xs fits =
    take-add len (length src) (drop off (overwrite (off + len) src xs))
    ∙ ap (λ ys. ys ++ take (length src) (drop len (drop off (overwrite (off + len) src xs))))
        (slice_of_take off len (overwrite (off + len) src xs) xs
          (take-overwrite (off + len) src xs fits (off + len) (omega arith)))
    ∙ ap (λ ys. take len (drop off xs) ++ ys)
        (ap (take (length src)) (
            drop-drop len off (overwrite (off + len) src xs)
            ∙ ap (λ (k : ℕ). drop k (overwrite (off + len) src xs)) {y = off + len} swapped)
          ∙ slice-overwrite (off + len) src xs fits)
  where
    swapped : len + off ≡ off + len
    swapped = omega arith

abbrev pub grown : Ptr → ℕ → Ptr
grown p n = record p { m_len = p.m_len + n }

-- `append` to a window that has room: the window grows by the bytes, and nothing before its end
-- in its raw buffer changes.
module _ {s : Store} {p : Ptr} (w : IsWindow s p) (src : List ℕ)
    (room : end p + length src ≤ length w.r.m_data) where
  abbrev pub after : Store
  after = written s w.i w.r (end p) src

  pub append-ok : append p src s ≡ ok (grown p (length src), after)
  unfolding append
  append-ok =
      rw
        (
          raw_id-ok w,
          unused_tail_length-ok w,
          le→leb (length src) (length w.r.m_data - end p) (omega arith),
          store_bytes-ok s w.i w.r (end p) src w.holds room,
        )
        refl

  pub after-Preserves : Preserves w.i (end p) s after
  after-Preserves = written-Preserves s w.i w.r (end p) src w.holds room

  pub grown-IsWindow : IsWindow after (grown p (length src))
  grown-IsWindow = record {
    i = w.i;
    r = record w.r { m_data = overwrite (end p) src w.r.m_data };
    is_raw = w.is_raw;
    holds = written-holds s w.i w.r (end p) src w.holds room;
    fits = omega (arith, length-overwrite (end p) src w.r.m_data room);
    small = omega (arith, length-overwrite (end p) src w.r.m_data room, w.small);
  }

  pub bytes-grown : bytes after (grown p (length src)) ≡ bytes s p ++ src
  bytes-grown =
      rw (w.is_raw, w.holds, written-holds s w.i w.r (end p) src w.holds room)
        (grown_bytes p.m_off p.m_len src w.r.m_data room)

-- A new raw buffer at the end of the store.
pub length-fill : (f : ℕ → ℕ) (n : ℕ) → length (fill f n) ≡ n
unfolding fill
length-fill f zero = refl
length-fill f (suc n) = omega (arith, length-append (fill f n) (f n ∷ []), length-fill f n)

pub grown_store-Preserves :
    (s : Store) (r : Raw) (k : ℕ)
    → Preserves (length s.raws) k s (record s { raws = s.raws ++ r ∷ [] })
grown_store-Preserves s r k = record {
  keeps = λ j q h.
      (q, get_elem?-append_left s.raws (r ∷ []) j (get_elem?-lt s.raws j h) ∙ h, refl, λ m _. refl);
}
