-- ===== src/Buffer/Blist/Query/Caches.antt =====
-- The checksums that raw buffers cache: which ones are right, and what a new one changes.
use mathlib.Core.Path.{subst}
use replica_wbcache.Prelude.{
  ℕ, zero, suc, ◌^◌, Result, ◌+◌, ◌≤◌, ◌<◌, ◌≡◌, refl, sym, ap, ◌∙◌, inl, inr, some, List, [], ◌∷◌,
  ◌++◌, arith, ok, ◌==◌, length, take, drop, get_elem?, set, get_elem?-set_self, get_elem?-set_ne,
  Bool-cases, ==_iff,
}
use replica_wbcache.Prelude.Slices.{take_all}
use replica_wbcache.Armor.Encode.{IsBytes}
use replica_wbcache.Crc.{u32}
use replica_wbcache.Crc.Restart.{crc_bytes}
use replica_wbcache.Buffer.Store.{Error, Raw, Store}
use replica_wbcache.Buffer.Ptr.{Ptr}
use replica_wbcache.Buffer.Ptr.Access.{IsWindow, bytes, length-bytes}
use replica_wbcache.Buffer.Ptr.Write.{get_elem?-lt}
use replica_wbcache.Buffer.Blist.{Node}
use replica_wbcache.Buffer.Blist.Contents.{contents, All, All-mono}

-- What a node gives to the checksum: its length becomes an `unsigned`.
abbrev pub hashed_bytes : Store → Ptr → List ℕ
hashed_bytes s p = take (u32 p.m_len) (bytes s p)

abbrev pub hashed : Store → List Node → List ℕ
hashed s [] = []
hashed s (n ∷ ns) = hashed_bytes s n.bptr ++ hashed s ns

-- A raw buffer holds bytes, and its cached checksum, from a 32-bit start, is the one of its range.
pub record IsFresh (r : Raw) : Type 0 where
  pub raw_bytes : IsBytes r.m_data
  pub start : r.last_crc_val.0 < 2 ^ 32
  pub sums :
      (from len : ℕ)
      → r.last_crc_offset ≡ (from, from + len)
      → from + len ≤ length r.m_data
      → r.last_crc_val.1 ≡ crc_bytes r.last_crc_val.0 (take (u32 len) (drop from r.m_data))

abbrev pub AllFresh : Store → Type 0
AllFresh s = (i : ℕ) (r : Raw) → get_elem? s.raws i ≡ some r → IsFresh r

-- Every window stays, with its bytes.
abbrev pub Keeps : Store → Store → Type 0
Keeps s s' = (p : Ptr) → IsWindow s p → IsWindow s' p × (bytes s' p ≡ bytes s p)

-- A run that gives `value`, and keeps the bytes and the caches right.
pub record Sums (s : Store) (value : ℕ) (run : Result Error (ℕ × Store)) : Type 0 where
  pub s' : Store
  pub runs : run ≡ ok (value, s')
  pub fresh : AllFresh s'
  pub kept : Keeps s s'

pub keep-hashed :
    (s s' : Store)
    → Keeps s s'
    → (ns : List Node) → All (λ n. IsWindow s n.bptr) ns
    → hashed s' ns ≡ hashed s ns
keep-hashed s s' kept [] w = refl
keep-hashed s s' kept (n ∷ ns) w = rw ((kept n.bptr w.0).1, keep-hashed s s' kept ns w.1)

-- Of nodes shorter than 2^32 all the bytes are taken.
pub hashed-contents :
    (s : Store) (ns : List Node)
    → All (λ n. IsWindow s n.bptr × (n.bptr.m_len < 2 ^ 32)) ns
    → hashed s ns ≡ contents s ns
hashed-contents s [] short = refl
hashed-contents s (n ∷ ns) short =
    rw
      (
        take_all (u32 n.bptr.m_len) (bytes s n.bptr)
            (omega (arith, length-bytes short.0.0, short.0.1)),
        hashed-contents s ns short.1,
      )
      refl

pub IsBytes-take : (k : ℕ) (xs : List ℕ) → IsBytes xs → IsBytes (take k xs)
IsBytes-take zero xs h = tt
IsBytes-take (suc k) [] h = tt
IsBytes-take (suc k) (x ∷ xs) h = (h.0, IsBytes-take k xs h.1)

pub IsBytes-drop : (k : ℕ) (xs : List ℕ) → IsBytes xs → IsBytes (drop k xs)
IsBytes-drop zero xs h = h
IsBytes-drop (suc k) [] h = tt
IsBytes-drop (suc k) (x ∷ xs) h = IsBytes-drop k xs h.1

pub keep-windows :
    (s s' : Store)
    → Keeps s s'
    → (ns : List Node) → All (λ n. IsWindow s n.bptr) ns
    → All (λ n. IsWindow s' n.bptr) ns
keep-windows s s' kept ns =
    All-mono (λ n. IsWindow s n.bptr) (λ n. IsWindow s' n.bptr) ns (λ n w. (kept n.bptr w).0)

raw_inj : {a b : Raw} → some a ≡ some b → a ≡ b
raw_inj e = cc

some_inj : {a b : ℕ} → some a ≡ some b → a ≡ b
some_inj e = cc

-- A new checksum in the cache of one raw buffer.
module _ (s : Store) (i : ℕ) (r r' : Raw) (holds : get_elem? s.raws i ≡ some r)
    (same : r'.m_data ≡ r.m_data) where
  abbrev pub cached : Store
  cached = record s { raws = set s.raws i r' }

  there : (j : ℕ) → i ≡ j → get_elem? (set s.raws i r') j ≡ some r'
  there j e =
      ap (get_elem? (set s.raws i r')) (sym e)
      ∙ get_elem?-set_self s.raws i r' (get_elem?-lt s.raws i holds)

  -- The raw buffer behind a window, afterwards.
  window_after :
      (p : Ptr) (w : IsWindow s p)
      → (q : Raw) × (get_elem? (set s.raws i r') w.i ≡ some q) × (q.m_data ≡ w.r.m_data)
  window_after p w = elim (Bool-cases (i == w.i)) [
    | inl here ↦
        let e = (==_iff i w.i).0 here in
        (
          r',
          there w.i e,
          same
              ∙ ap (λ (q : Raw). q.m_data)
                  (raw_inj (sym holds ∙ ap (get_elem? s.raws) e ∙ w.holds)),
        )
    | inr away ↦
        (w.r, get_elem?-set_ne s.raws i w.i r' (λ e. ground (arith, away, e)) ∙ w.holds, refl)
  ]

  pub cached-Keeps : Keeps s cached
  cached-Keeps p w =
      let (q, at, data_same) = window_after p w in
      let v : IsWindow cached p = record {
        i = w.i;
        r = q;
        is_raw = w.is_raw;
        holds = at;
        fits = omega (arith, w.fits, ap length data_same);
        small = omega (arith, w.small, ap length data_same);
      } in
      (v, rw (w.is_raw, at, w.holds) (ap (λ xs. take p.m_len (drop p.m_off xs)) data_same))

  pub cached-AllFresh : AllFresh s → IsFresh r' → AllFresh cached
  cached-AllFresh fresh here j q at = elim (Bool-cases (i == j)) [
    | inl it ↦ subst IsFresh (raw_inj (sym (there j ((==_iff i j).0 it)) ∙ at)) here
    | inr other ↦
        fresh j q (sym (get_elem?-set_ne s.raws i j r' (λ e. ground (arith, other, e))) ∙ at)
  ]
