-- ===== src/Buffer/Ptr.antt =====
-- buffer::ptr (include/buffer/buffer_ptr.h, common/buffer/buffer_ptr.cc): a window into a raw
-- buffer. The reference counts are not here: a raw buffer lives as long as the store.
pub mod Access
pub mod Walk
pub mod Cut
pub mod Write
use Prim.Native.Nat.{bit_and, compare, Ordering}
use replica_wbcache.Prelude.{
  ℕ, zero, suc, ◌+◌, ◌-◌, ◌%◌, Bool, true, false, ◌&&◌, ◌||◌, Option, none, some, List, [], ◌∷◌, ok,
  leb, ltb, ◌==◌, if◌then◌else◌, length, get_elem?, replicate,
}
use replica_wbcache.Intarith.{u64}
use replica_wbcache.Buffer.Store.{
  Error, end_of_buffer, bad_access, assert_failed, Raw, Store, M, ◌>>=◌, ◌>>◌, pure, throw, reading,
  assert, raw_at, put_raw, store_bytes, load_bytes, invalidate_crc, create, mempool_buffer_anon,
}

pub record Ptr : Type 0 where
  pub m_raw : Option ℕ
  pub m_off : ℕ
  pub m_len : ℕ

abbrev pub ptr : ℕ → ℕ → ℕ → Ptr
ptr i off len = record { m_raw = some i; m_off = off; m_len = len }

-- ptr::ptr(), and `always_empty_bptr`
abbrev pub null_ptr : Ptr
null_ptr = record { m_raw = none; m_off = 0; m_len = 0 }

abbrev pub is_some : Option ℕ → Bool
is_some none = false
is_some (some _) = true

unfoldable pub have_raw : Ptr → Bool
have_raw p = is_some p.m_raw

abbrev pub end : Ptr → ℕ
end p = p.m_off + p.m_len

-- spec_assert(m_raw), and the raw buffer that it is then
abbrev raw_or : Option ℕ → M ℕ
raw_or none = throw assert_failed
raw_or (some i) = pure i

unfoldable pub raw_id : Ptr → M ℕ
raw_id p = raw_or p.m_raw

-- ptr(unique_leakable_ptr<raw>)
unfoldable pub ptr_of_raw : ℕ → M Ptr
ptr_of_raw i = do r ← reading (λ s. raw_at s i); pure (ptr i 0 (length r.m_data))

-- ptr(uint64_t len)
unfoldable pub ptr_of_length : ℕ → M Ptr
ptr_of_length len = do i ← create len; pure (ptr i 0 len)

-- ptr(const ptr&, uint64_t offset, uint64_t len)
unfoldable pub sub_ptr : Ptr → ℕ → ℕ → M Ptr
unfolding have_raw
sub_ptr p offset len = do
  assert (leb (u64 (offset + len)) p.m_len)
  assert (have_raw p)
  pure (record p { m_off = p.m_off + offset; m_len = len })

-- ptr::ptr(ptr&&) and operator=(ptr&&): the new value, and what is left behind
unfoldable pub move_ptr : Ptr → Ptr × Ptr
move_ptr p = (p, null_ptr)

-- `m_raw->` with no assertion before it
abbrev target : Option ℕ → M ℕ
target none = throw bad_access
target (some i) = pure i

unfoldable pub raw_length : Ptr → M ℕ
unfolding raw_id
raw_length p = do i ← raw_id p; r ← reading (λ s. raw_at s i); pure (length r.m_data)

unfoldable pub unused_tail_length : Ptr → M ℕ
unfolding raw_length raw_id have_raw
unused_tail_length p =
    if have_raw p then (do n ← raw_length p; pure (n - (p.m_off + p.m_len))) else pure 0

unfoldable pub is_partial : Ptr → M Bool
unfolding raw_length raw_id have_raw
is_partial p =
    if have_raw p then (do n ← raw_length p; pure (ltb 0 p.m_off || ltb (end p) n)) else pure false

-- The address of the first byte, for tests of alignment.
unfoldable pub is_aligned : Ptr → ℕ → M Bool
unfolding raw_id
is_aligned p align = do
  i ← raw_id p
  r ← reading (λ s. raw_at s i)
  pure (bit_and (r.address + p.m_off) (align - 1) == 0)

unfoldable pub is_n_align_sized : Ptr → ℕ → Bool
is_n_align_sized p align = p.m_len % align == 0

unfoldable pub get_mempool_type : Ptr → M ℕ
unfolding raw_id have_raw
get_mempool_type p =
    if have_raw p
    then (do i ← raw_id p; r ← reading (λ s. raw_at s i); pure r.mempool_type_id)
    else pure mempool_buffer_anon

unfoldable pub wasted : Ptr → M ℕ
wasted p = do i ← target p.m_raw; r ← reading (λ s. raw_at s i); pure (length r.m_data - p.m_len)

unfoldable pub set_offset : Ptr → ℕ → M Ptr
unfolding raw_length
set_offset p offset = do n ← raw_length p; assert (leb offset n); pure (record p { m_off = offset })

unfoldable pub set_length : Ptr → ℕ → M Ptr
unfolding raw_length
set_length p len = do n ← raw_length p; assert (leb len n); pure (record p { m_len = len })

abbrev byte_of : Option ℕ → M ℕ
byte_of none = throw bad_access
byte_of (some c) = pure c

-- operator[]
unfoldable pub byte_at : Ptr → ℕ → M ℕ
unfolding raw_id
byte_at p pos = do
  i ← raw_id p
  assert (ltb pos p.m_len)
  r ← reading (λ s. raw_at s i)
  byte_of (get_elem? r.m_data (p.m_off + pos))

-- A look at `len` bytes from c_str() + offset.
unfoldable pub read_from : Ptr → ℕ → ℕ → M (List ℕ)
unfolding raw_id load_bytes
read_from p offset len = do i ← raw_id p; reading (λ s. load_bytes s i (p.m_off + offset) len)

unfoldable pub copy_out : Ptr → ℕ → ℕ → M (List ℕ)
unfolding read_from raw_id
copy_out p offset len = do
  i ← raw_id p
  if ltb p.m_len (u64 (offset + len)) then throw end_of_buffer else read_from p offset len

-- What `crc_reset` asks for.
unfoldable pub reset_crc : Bool → ℕ → M (Unit {0})
reset_crc true i = do r ← reading (λ s. raw_at s i); put_raw i (invalidate_crc r)
reset_crc false i = pure tt

unfoldable pub copy_in : Ptr → ℕ → List ℕ → Bool → M (Unit {0})
unfolding raw_id reset_crc store_bytes
copy_in p offset src crc_reset = do
  i ← raw_id p
  assert (leb offset p.m_len)
  assert (leb (u64 (offset + length src)) p.m_len)
  reset_crc crc_reset i
  store_bytes i (p.m_off + offset) src

-- ptr::append(const char*, uint64_t) and, of one byte, append(char): the grown pointer
unfoldable pub append : Ptr → List ℕ → M Ptr
unfolding raw_id unused_tail_length store_bytes
append p src = do
  i ← raw_id p
  room ← unused_tail_length p
  assert (leb (length src) room)
  store_bytes i (p.m_off + p.m_len) src
  pure (record p { m_len = p.m_len + length src })

unfoldable pub append_zeros : Ptr → ℕ → M Ptr
unfolding raw_id unused_tail_length store_bytes
append_zeros p len = do
  i ← raw_id p
  room ← unused_tail_length p
  assert (leb len room)
  store_bytes i (p.m_off + p.m_len) (replicate len 0)
  pure (record p { m_len = p.m_len + len })

-- The raw buffer to be zeroed: c_str() asserts that there is one, `m_raw->invalidate_crc()` does not.
abbrev zeroed : Bool → Option ℕ → M ℕ
zeroed true i = target i
zeroed false i = raw_or i

-- ptr::zero(bool)
unfoldable pub zero_all : Ptr → Bool → M (Unit {0})
unfolding reset_crc store_bytes
zero_all p crc_reset = do
  i ← zeroed crc_reset p.m_raw
  reset_crc crc_reset i
  store_bytes i p.m_off (replicate p.m_len 0)

-- ptr::zero(uint64_t, uint64_t, bool)
unfoldable pub zero_range : Ptr → ℕ → ℕ → Bool → M (Unit {0})
unfolding reset_crc store_bytes
zero_range p offset len crc_reset = do
  assert (leb (u64 (offset + len)) p.m_len)
  i ← zeroed crc_reset p.m_raw
  reset_crc crc_reset i
  store_bytes i (p.m_off + offset) (replicate len 0)

-- memcmp by its sign
unfoldable pub memcmp : List ℕ → List ℕ → Ordering
memcmp [] ys = Ordering.eq
memcmp (x ∷ xs) [] = Ordering.eq
memcmp (x ∷ xs) (y ∷ ys) = elim (compare x y) [
  | Ordering.lt ↦ Ordering.lt
  | Ordering.gt ↦ Ordering.gt
  | Ordering.eq ↦ memcmp xs ys
]

abbrev by_length : ℕ → ℕ → Ordering → M Ordering
by_length m n Ordering.lt = pure Ordering.lt
by_length m n Ordering.gt = pure Ordering.gt
by_length m n Ordering.eq = pure (compare m n)

-- ptr::cmp, by its sign
unfoldable pub cmp : Ptr → Ptr → M Ordering
unfolding read_from memcmp
cmp p q =
    let len = if ltb p.m_len q.m_len then p.m_len else q.m_len in
    if len == 0
    then pure (compare p.m_len q.m_len)
    else do xs ← read_from p 0 len; ys ← read_from q 0 len; by_length p.m_len q.m_len (memcmp xs ys)
