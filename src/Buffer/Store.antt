-- ===== src/Buffer/Store.antt =====
-- Raw buffers (include/buffer/buffer_raw.h) and their creation (common/buffer/buffer_create.cc,
-- include/buffer/buffer_raw_combined.h, buffer_raw_posix_aligned.h). A raw buffer is known by its
-- place in the store; it is never given back, since a `ptr` keeps it alive.
use Prim.Native.Nat.{bit_and}
use replica_wbcache.Prelude.{
  ℕ, zero, suc, ◌+◌, ◌-◌, ◌*◌, ◌^◌, Bool, true, false, ◌&&◌, ◌||◌, Option, none, some, List, [],
  ◌∷◌, ◌++◌, Result, ok, err, leb, ◌==◌, if◌then◌else◌, length, get_elem?, set, take, drop,
}
use replica_wbcache.Intarith.{u64, round_up_to}

-- The exceptions of buffer_error.h, a failed `spec_assert`, an access outside the memory that the
-- program owns, and, for the model's loops, fuel.
pub data Error : Type 0 where
  end_of_buffer bad_alloc malformed_input assert_failed bad_access out_of_fuel : Error

-- What the compiler and the machine fix: the page size, and the layout of `raw_combined`.
pub record Platform : Type 0 where
  pub page_size : ℕ
  pub sizeof_raw_combined : ℕ
  pub alignof_raw_combined : ℕ

-- `posix_memalign` at its `k`-th call: an address, or a failure; and what the memory holds then.
pub record Allocator : Type 0 where
  pub memalign : (k alignment size : ℕ) → Option ℕ
  pub memory : (k index : ℕ) → ℕ

-- `last_crc_offset` and `last_crc_val` are pairs.
pub record Raw : Type 0 where
  pub m_data : List ℕ
  pub address : ℕ
  pub mempool_type_id : ℕ
  pub last_crc_offset : ℕ × ℕ
  pub last_crc_val : ℕ × ℕ

pub record Store : Type 0 where
  pub raws : List Raw
  pub next_node : ℕ
  pub platform : Platform
  pub allocator : Allocator

abbrev pub M : Type 0 → Type 0
M A = Store → Result Error (A × Store)

abbrev pub and_then :
    {A B : Type 0} → Result Error (A × Store) → (A → M B) → Result Error (B × Store)
and_then (ok (a, s)) k = k a s
and_then (err e) k = err e

infixl 5 ◌>>=◌ ◌>>◌
abbrev pub ◌>>=◌ : {A B : Type 0} → M A → (A → M B) → M B
m >>= k = λ s. and_then (m s) k

abbrev pub ◌>>◌ : {B : Type 0} → M (Unit {0}) → M B → M B
m >> k = m >>= λ _. k

abbrev pub pure : {A : Type 0} → A → M A
pure a s = ok (a, s)

abbrev pub throw : {A : Type 0} → Error → M A
throw e s = err e

abbrev pub lift : {A : Type 0} → Result Error A → M A
lift (ok a) s = ok (a, s)
lift (err e) s = err e

abbrev pub reading : {A : Type 0} → (Store → Result Error A) → M A
reading f s = lift (f s) s

-- `spec_assert`
abbrev pub assert : Bool → M (Unit {0})
assert true s = ok (tt, s)
assert false s = err assert_failed

abbrev pub max_u64 : ℕ
max_u64 = 2 ^ 64 - 1

abbrev pub mempool_buffer_anon : ℕ
mempool_buffer_anon = 0

-- The bytes that memory holds when it is handed out.
unfoldable pub fill : (ℕ → ℕ) → ℕ → List ℕ
fill f zero = []
fill f (suc n) = fill f n ++ f n ∷ []

-- The constructor of `raw`, given the address of its data.
unfoldable pub new_raw : ℕ → ℕ → ℕ → M ℕ
unfolding fill
new_raw address len pool s = ok (
  length s.raws,
  record s {
    raws =
        s.raws
        ++ record {
          m_data = fill (s.allocator.memory (length s.raws)) len;
          address = address;
          mempool_type_id = pool;
          last_crc_offset = (max_u64, max_u64);
          last_crc_val = (0, 0);
        }
          ∷ [];
  },
)

abbrev granted : Option ℕ → M ℕ
granted none = throw bad_alloc
granted (some a) = pure a

-- A call of `posix_memalign`; a failure is `bad_alloc`.
unfoldable pub posix_memalign : ℕ → ℕ → M ℕ
posix_memalign alignment size s = granted (s.allocator.memalign (length s.raws) alignment size) s

-- raw_combined::create
unfoldable pub create_combined : ℕ → ℕ → ℕ → M ℕ
unfolding new_raw posix_memalign
create_combined len alignment pool s =
    let alignment' = if alignment == 0 then 8 else alignment in
    let rawlen = round_up_to s.platform.sizeof_raw_combined s.platform.alignof_raw_combined in
    let datalen = round_up_to len s.platform.alignof_raw_combined in
    (posix_memalign alignment' (u64 (rawlen + datalen)) >>= λ a. new_raw a len pool) s

-- The constructor of raw_posix_aligned, whose pool is the anonymous one.
unfoldable pub create_posix_aligned : ℕ → ℕ → M ℕ
unfolding new_raw posix_memalign
create_posix_aligned len alignment = do
  assert (leb 8 alignment && bit_and alignment (alignment - 1) == 0)
  a ← posix_memalign alignment len
  new_raw a len mempool_buffer_anon

unfoldable pub create_aligned_in_mempool : ℕ → ℕ → ℕ → M ℕ
unfolding create_combined create_posix_aligned
create_aligned_in_mempool len alignment pool s =
    if bit_and alignment (s.platform.page_size - 1) == 0 || leb (u64 (s.platform.page_size * 2)) len
    then create_posix_aligned len alignment s
    else create_combined len alignment pool s

unfoldable pub create_aligned : ℕ → ℕ → M ℕ
unfolding create_aligned_in_mempool
create_aligned len alignment = create_aligned_in_mempool len alignment mempool_buffer_anon

unfoldable pub create : ℕ → M ℕ
unfolding create_aligned
create len = create_aligned len 8

unfoldable pub create_page_aligned : ℕ → M ℕ
unfolding create_aligned
create_page_aligned len s = create_aligned len s.platform.page_size s

-- A look at a raw buffer, and a change of one.
unfoldable pub raw_at : Store → ℕ → Result Error Raw
raw_at s i = elim (get_elem? s.raws i) [ none ↦ err bad_access | some r ↦ ok r ]

unfoldable pub put_raw : ℕ → Raw → M (Unit {0})
put_raw i r s = ok (tt, record s { raws = set s.raws i r })

-- raw::get_crc, raw::set_crc and raw::invalidate_crc
unfoldable pub get_crc : Raw → ℕ × ℕ → Option (ℕ × ℕ)
get_crc r (from, to) =
    if r.last_crc_offset.0 == from && r.last_crc_offset.1 == to then some r.last_crc_val else none

unfoldable pub set_crc : Raw → ℕ × ℕ → ℕ × ℕ → Raw
set_crc r fromto crc = record r { last_crc_offset = fromto; last_crc_val = crc }

unfoldable pub invalidate_crc : Raw → Raw
invalidate_crc r = record r { last_crc_offset = (max_u64, max_u64) }

-- raw::reassign_to_mempool and raw::try_assign_to_mempool, but for the pools' counters
unfoldable pub reassign_to_mempool : Raw → ℕ → Raw
reassign_to_mempool r pool = record r { mempool_type_id = pool }

unfoldable pub try_assign_to_mempool : Raw → ℕ → Raw
unfolding reassign_to_mempool
try_assign_to_mempool r pool =
    if r.mempool_type_id == mempool_buffer_anon then reassign_to_mempool r pool else r

-- memcpy and memset into a raw buffer, and a read of one. Bytes outside are not the program's.
abbrev pub overwrite : ℕ → List ℕ → List ℕ → List ℕ
overwrite at src bytes = take at bytes ++ (src ++ drop (at + length src) bytes)

unfoldable pub store_bytes : ℕ → ℕ → List ℕ → M (Unit {0})
unfolding raw_at put_raw
store_bytes i at src = do
  r ← reading (λ s. raw_at s i)
  if leb (at + length src) (length r.m_data)
      then put_raw i (record r { m_data = overwrite at src r.m_data })
      else throw bad_access

unfoldable pub load_bytes : Store → ℕ → ℕ → ℕ → Result Error (List ℕ)
unfolding raw_at
load_bytes s i at len = elim (raw_at s i) [
  | err e ↦ err e
  | ok r ↦
      if leb (at + len) (length r.m_data) then ok (take len (drop at r.m_data)) else err bad_access
]
