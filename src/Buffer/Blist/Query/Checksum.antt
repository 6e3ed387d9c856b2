-- ===== src/Buffer/Blist/Query/Checksum.antt =====
-- The checksum of a buffer::list with its caches in the raw buffers.
use mathlib.Core.Path.{subst}
use Prim.Native.Nat.{bit_xor}
use replica_wbcache.Prelude.{
  Bool, if◌then◌else◌, ℕ, ◌^◌, length-take, true, false, ◌+◌, ◌≤◌, ◌<◌, ◌≡◌, refl, sym, ap, ◌∙◌,
  inl, inr, none, some, List, [], ◌∷◌, ◌++◌, arith, ok, ◌==◌, ◌&&◌, length, take, drop, Bool-cases,
  ==_iff,
}
use replica_wbcache.Prelude.Slices.{take-take}
use replica_wbcache.Prelude.Bits.{bit_xor-lt}
use replica_wbcache.Armor.Encode.{IsBytes}
use replica_wbcache.Crc.{u32, Crc32cFunc, spec_crc32c}
use replica_wbcache.Crc.Linear.{zero_bytes}
use replica_wbcache.Crc.Zeros.{TakesZeros}
use replica_wbcache.Crc.Restart.{
  crc_bytes, crc_bytes-append, crc_bytes-restarts, crc_bytes-lt, TakesBytes, spec_crc32c-zero_bytes,
}
use replica_wbcache.Buffer.Store.{Raw, Store, put_raw, get_crc, set_crc}
use replica_wbcache.Buffer.Ptr.{Ptr}
use replica_wbcache.Buffer.Ptr.Access.{IsWindow, bytes, bytes_lem, length-bytes, raw_at-ok}
use replica_wbcache.Buffer.Ptr.Cut.{read_from-ok}
use replica_wbcache.Buffer.Blist.{Node}
use replica_wbcache.Buffer.Blist.Contents.{All}
use replica_wbcache.Buffer.Blist.Query.{crc_node, crc_turn, crc32c}
use replica_wbcache.Buffer.Blist.Query.Caches.{
  hashed_bytes, hashed, IsFresh, AllFresh, Keeps, Sums, keep-hashed, keep-windows, IsBytes-take,
  IsBytes-drop, cached, cached-Keeps, cached-AllFresh,
}

-- The run of one node.
module _ (func : Crc32cFunc) (zeros : TakesZeros func) (takes : TakesBytes func) (s : Store)
    (p : Ptr) (w : IsWindow s p) (fresh : AllFresh s) (crc : ℕ) (small : crc < 2 ^ 32) where
  abbrev is_cached : Bool
  is_cached = w.r.last_crc_offset.0 == p.m_off && w.r.last_crc_offset.1 == p.m_off + p.m_len

  abbrev value : ℕ
  value = crc_bytes crc (hashed_bytes s p)

  short : u32 p.m_len ≤ p.m_len
  short = omega arith

  length-hashed_bytes : length (hashed_bytes s p) ≡ u32 p.m_len
  length-hashed_bytes = omega (arith, length-take (u32 p.m_len) (bytes s p), length-bytes w, short)

  from_raw : hashed_bytes s p ≡ take (u32 p.m_len) (drop p.m_off w.r.m_data)
  from_raw =
      ap (take (u32 p.m_len)) (bytes_lem w)
      ∙ take-take (u32 p.m_len) p.m_len (drop p.m_off w.r.m_data) short

  hashed_bytes-IsBytes : IsBytes (hashed_bytes s p)
  hashed_bytes-IsBytes = subst IsBytes (sym from_raw) (
      IsBytes-take (u32 p.m_len) (drop p.m_off w.r.m_data)
        (IsBytes-drop p.m_off w.r.m_data (fresh w.i w.r w.holds).raw_bytes))

  pub value-lt : value < 2 ^ 32
  value-lt = crc_bytes-lt crc (hashed_bytes s p) small hashed_bytes-IsBytes

  abbrev base : ℕ
  base = w.r.last_crc_val.0

  -- The cached value is the checksum of the node's bytes from the cached start on.
  cached_value : is_cached ≡ true → w.r.last_crc_val.1 ≡ crc_bytes base (hashed_bytes s p)
  cached_value found =
      let from : w.r.last_crc_offset.0 ≡ p.m_off = ground (arith, found) in
      let to : w.r.last_crc_offset.1 ≡ p.m_off + p.m_len = ground (arith, found) in
      (fresh w.i w.r w.holds).sums p.m_off p.m_len (λ k. (from k, to k)) w.fits
      ∙ ap (crc_bytes base) (sym from_raw)

  turn :
      crc_turn func crc p s
      ≡ crc_node func crc p w.i w.r (if is_cached then some w.r.last_crc_val else none) s
  unfolding crc_turn get_crc
  turn = rw (w.is_raw, raw_at-ok w)

  spec_zeros :
      spec_crc32c func (bit_xor base crc) none (u32 p.m_len)
      ≡ some (zero_bytes (u32 p.m_len) (bit_xor base crc))
  spec_zeros =
      spec_crc32c-zero_bytes func (bit_xor base crc) (u32 p.m_len) zeros
        (bit_xor-lt 32 base crc (fresh w.i w.r w.holds).start small) (omega arith)

  -- A cached value is taken as it is, or changed to the start that is asked for.
  reads : is_cached ≡ true → crc_node func crc p w.i w.r (some w.r.last_crc_val) s ≡ ok (value, s)
  unfolding crc_node
  reads found = elim (Bool-cases (base == crc)) [
    | inl same ↦ rw same (
        ap (λ v. ok (v, s))
          (cached_value found
            ∙ ap (λ b. crc_bytes b (hashed_bytes s p)) ((==_iff base crc).0 same)))
    | inr other ↦
        rw (other, spec_zeros)
          (ap (λ v. ok (v, s))
            (ap (λ v. bit_xor v (zero_bytes (u32 p.m_len) (bit_xor base crc))) (cached_value found)
              ∙ ap
                  (λ k.
                    bit_xor (crc_bytes base (hashed_bytes s p)) (zero_bytes k (bit_xor base crc)))
                  (sym length-hashed_bytes)
              ∙ sym (crc_bytes-restarts crc base (hashed_bytes s p))))
  ]

  hit : is_cached ≡ true → Sums s value (crc_turn func crc p s)
  hit found = record {
    s' = s;
    runs = turn ∙ rw found (reads found);
    fresh = fresh;
    kept = λ q v. (v, refl);
  }

  abbrev r' : Raw
  r' = record w.r { last_crc_offset = (p.m_off, p.m_off + p.m_len); last_crc_val = (crc, value) }

  func_bytes : func crc (some (hashed_bytes s p)) (u32 p.m_len) ≡ value
  func_bytes =
      ap (func crc (some (hashed_bytes s p))) (sym length-hashed_bytes)
      ∙ takes crc (hashed_bytes s p) small

  writes : crc_node func crc p w.i w.r none s ≡ ok (value, cached s w.i w.r r' w.holds refl)
  unfolding crc_node set_crc put_raw
  writes = rw (read_from-ok s p w 0 (u32 p.m_len) (omega (arith, short)), func_bytes) refl

  r'-IsFresh : IsFresh r'
  r'-IsFresh = record {
    raw_bytes = (fresh w.i w.r w.holds).raw_bytes;
    start = small;
    sums = λ from len e fits.
        let at : p.m_off ≡ from = ap (λ (q : ℕ × ℕ). q.0) e in
        let to : p.m_off + p.m_len ≡ from + len = ap (λ (q : ℕ × ℕ). q.1) e in
        let same : p.m_len ≡ len = omega (arith, at, to) in
        ap (crc_bytes crc) (
          from_raw
          ∙ ap (λ (k : ℕ). take (u32 p.m_len) (drop k w.r.m_data)) at
          ∙ ap (λ (k : ℕ). take (u32 k) (drop from w.r.m_data)) same);
  }

  miss : is_cached ≡ false → Sums s value (crc_turn func crc p s)
  miss lost = record {
    s' = cached s w.i w.r r' w.holds refl;
    runs = turn ∙ rw lost writes;
    fresh = cached-AllFresh s w.i w.r r' w.holds refl fresh r'-IsFresh;
    kept = cached-Keeps s w.i w.r r' w.holds refl;
  }

  pub crc_turn-Sums : Sums s value (crc_turn func crc p s)
  crc_turn-Sums = elim (Bool-cases is_cached) [ inl found ↦ hit found | inr lost ↦ miss lost ]

Keeps-trans : {s t u : Store} → Keeps s t → Keeps t u → Keeps s u
Keeps-trans a b p w = let (v, e) = a p w in let (x, f) = b p v in (x, f ∙ e)

-- If `crc32c_func` computes the CRC-32C, and takes a null pointer for zero bytes, crc32c from a
-- 32-bit start, of nodes within raw buffers of bytes whose caches are right, gives the CRC-32C of
-- the nodes' bytes, of each the first m_len % 2^32, whether it is cached, cached for another start
-- or not cached; the caches stay right and every window keeps its bytes.
pub crc32c-Sums :
    (func : Crc32cFunc)
    → TakesZeros func
    → TakesBytes func
    → (s : Store) (ns : List Node) (crc : ℕ) → All (λ n. IsWindow s n.bptr) ns
    → AllFresh s
    → crc < 2 ^ 32
    → Sums s (crc_bytes crc (hashed s ns)) (crc32c func ns crc s)
unfolding crc32c crc_bytes
crc32c-Sums func zeros takes s [] crc w fresh small = record {
  s' = s;
  runs = refl;
  fresh = fresh;
  kept = λ q v. (v, refl);
}
crc32c-Sums func zeros takes s (n ∷ ns) crc w fresh small = elim (Bool-cases (n.bptr.m_len == 0)) [
  | inl none_here ↦
      let nothing : n.bptr.m_len ≡ 0 = (==_iff n.bptr.m_len 0).0 none_here in
      let no_bytes : hashed_bytes s n.bptr ≡ [] =
        ap (λ (k : ℕ). take k (bytes s n.bptr)) (ap u32 nothing) in
      let rest = crc32c-Sums func zeros takes s ns crc w.1 fresh small in
      record {
        s' = rest.s';
        runs =
            rw none_here (
              rest.runs
              ∙ ap (λ xs. ok (crc_bytes crc (xs ++ hashed s ns), rest.s')) (sym no_bytes));
        fresh = rest.fresh;
        kept = rest.kept;
      }
  | inr some_here ↦
      let first = crc_turn-Sums func zeros takes s n.bptr w.0 fresh crc small in
      let after = crc_bytes crc (hashed_bytes s n.bptr) in
      let rest =
        crc32c-Sums func zeros takes first.s' ns after (keep-windows s first.s' first.kept ns w.1)
          first.fresh (value-lt func zeros takes s n.bptr w.0 fresh crc small) in
      record {
        s' = rest.s';
        runs = rw some_here (
            rw (first.runs, rest.runs)
              (ap (λ v. ok (v, rest.s'))
                (ap (crc_bytes after) (keep-hashed s first.s' first.kept ns w.1)
                  ∙ sym (crc_bytes-append crc (hashed_bytes s n.bptr) (hashed s ns)))));
        fresh = rest.fresh;
        kept = Keeps-trans first.kept rest.kept;
      }
]
