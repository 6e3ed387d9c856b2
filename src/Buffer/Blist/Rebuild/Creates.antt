-- ===== src/Buffer/Blist/Rebuild/Creates.antt =====
-- The creation of a raw buffer (common/buffer/buffer_create.cc), where memory can be had.
use Prim.Native.Nat.{bit_and}
use replica_wbcache.Prelude.{
  ℕ, ◌+◌, ◌-◌, ◌*◌, ◌≡◌, refl, inl, inr, some, [], ◌∷◌, ◌++◌, ◌&&◌, ◌||◌, ◌==◌, arith, ok, true,
  false, leb, length, Result, Bool-cases,
}
use replica_wbcache.Intarith.{u64, round_up_to}
use replica_wbcache.Buffer.Store.{
  Error, Store, Raw, Allocator, fill, new_raw, posix_memalign, create_combined,
  create_posix_aligned, create_aligned_in_mempool, create_aligned, max_u64, mempool_buffer_anon,
}
use replica_wbcache.Buffer.Ptr.Write.{length-fill}

-- A new raw buffer of `len` bytes at the end of the store.
pub record Creates (s : Store) (len : ℕ) (run : Result Error (ℕ × Store)) : Type 0 where
  pub r : Raw
  pub size : length r.m_data ≡ len
  pub runs : run ≡ ok (length s.raws, record s { raws = s.raws ++ r ∷ [] })

-- The constructor of raw_posix_aligned takes the alignment, and posix_memalign succeeds with it.
pub record CanAlign (a : Allocator) (alignment : ℕ) : Type 0 where
  pub accepted : (leb 8 alignment && bit_and alignment (alignment - 1) == 0) ≡ true
  pub memory : (k n : ℕ) → (address : ℕ) × (a.memalign k alignment n ≡ some address)

new_raw-Creates : (s : Store) (address len pool : ℕ) → Creates s len (new_raw address len pool s)
unfolding new_raw
new_raw-Creates s address len pool = record {
  r = record {
    m_data = fill (s.allocator.memory (length s.raws)) len;
    address = address;
    mempool_type_id = pool;
    last_crc_offset = (max_u64, max_u64);
    last_crc_val = (0, 0);
  };
  size = length-fill (s.allocator.memory (length s.raws)) len;
  runs = refl;
}

posix-Creates :
    (s : Store) (len alignment : ℕ)
    → CanAlign s.allocator alignment
    → Creates s len (create_posix_aligned len alignment s)
unfolding create_posix_aligned posix_memalign
posix-Creates s len alignment can =
    let (address, granted) = can.memory (length s.raws) len in
    let born = new_raw-Creates s address len 0 in
    record { r = born.r; size = born.size; runs = rw (can.accepted, granted) born.runs }

combined-Creates :
    (s : Store) (len alignment pool : ℕ)
    → CanAlign s.allocator alignment
    → Creates s len (create_combined len alignment pool s)
unfolding create_combined posix_memalign
combined-Creates s len alignment pool can =
    let rawlen = round_up_to s.platform.sizeof_raw_combined s.platform.alignof_raw_combined in
    let datalen = round_up_to len s.platform.alignof_raw_combined in
    let (address, granted) = can.memory (length s.raws) (u64 (rawlen + datalen)) in
    let born = new_raw-Creates s address len pool in
    let aligned : (alignment == 0) ≡ false = ground (arith, can.accepted) in
    record { r = born.r; size = born.size; runs = rw (aligned, granted) born.runs }

pub create_aligned-Creates :
    (s : Store) (len alignment : ℕ)
    → CanAlign s.allocator alignment
    → Creates s len (create_aligned len alignment s)
unfolding create_aligned create_aligned_in_mempool
create_aligned-Creates s len alignment can =
    elim (Bool-cases (
      bit_and alignment (s.platform.page_size - 1) == 0
      || leb (u64 (s.platform.page_size * 2)) len)) [
        | inl paged ↦ rw paged (posix-Creates s len alignment can)
        | inr small ↦ rw small (combined-Creates s len alignment mempool_buffer_anon can)
      ]
