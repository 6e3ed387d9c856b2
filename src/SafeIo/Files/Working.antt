-- ===== src/SafeIo/Files/Working.antt =====
-- common/safe_io.c: safe_write_file where no call fails.
use Prim.Native.Nat.{min}
use replica_wbcache.Prelude.{
  ℕ, ◌+◌, ◌%◌, ◌^◌, ◌≤◌, ◌<◌, ◌≡◌, refl, inl, inr, Option, none, some, Bool, true, false, List,
  ◌++◌, ◌==◌, Bool-cases, ==_iff, le→ltb, length, take, arith,
}
use mathlib.Core.Path.{subst}
use replica_wbcache.SafeIo.{Answer, amount}
use replica_wbcache.SafeIo.Transfers.{IsServing, calls, safe_read-all, safe_write-all}
use replica_wbcache.SafeIo.Files.{
  Dir, Kernel, read_opened, safe_read_file, same_bytes, has_content, replace_file, sync_file,
  after_write, after_check, safe_write_file,
}
use replica_wbcache.SafeIo.Files.Atomic.{Left, safe_write_file-Left}

-- No call fails but by interrupts, each read and write moves a byte at least, and there are so many
-- of them.
pub record IsWorking (n : ℕ) (k : Kernel) : Type 0 where
  pub opens_fn : k.open_fn ≡ none
  pub opens_tmp : k.open_tmp ≡ none
  pub syncs_tmp : k.fsync_tmp ≡ none
  pub renames : k.rename ≡ none
  pub opens_base : k.open_base ≡ none
  pub syncs_base : k.fsync_base ≡ none
  pub serves_reads : IsServing k.reads
  pub enough_reads : 80 < calls k.reads
  pub serves_writes : IsServing k.writes
  pub enough_writes : n ≤ calls k.writes

has_content-decides :
    (val : List ℕ) (reads : List Answer) (file : Option (List ℕ))
    → length val < 2 ^ 31
    → IsServing reads
    → 80 < calls reads
    → (b : Bool) × (has_content val (read_opened 80 reads none file) ≡ some b)
unfolding has_content read_opened
has_content-decides val reads none small serves enough =
    let differs : ((length val + 2) % 2 ^ 32 == 0) ≡ false = ground arith in
    (false, rw differs refl)
has_content-decides val reads (some bytes) small serves enough =
    let all = safe_read-all 80 bytes reads serves enough in
    elim (Bool-cases (min 80 (length bytes) == length val % 2 ^ 32)) [
      | inr h ↦ (false, rw (all, h) refl)
      | inl h ↦
          let same_size = (==_iff (min 80 (length bytes)) (length val % 2 ^ 32)).0 h in
          let short = le→ltb 80 (length val) (omega arith) in
          (same_bytes (take 80 bytes) val, rw (all, h, short) refl)
    ]

replace_file-works :
    (val : List ℕ) (dir : Dir) (k : Kernel)
    → IsWorking (length val) k
    → after_check val dir k (some false) ≡ some (amount 0, record { fn = some val; tmp = none })
unfolding after_check after_write sync_file replace_file
replace_file-works val dir k w =
    rw
      (
        w.opens_tmp,
        safe_write-all val k.writes w.serves_writes w.enough_writes,
        w.syncs_tmp,
        w.renames,
        w.opens_base,
        w.syncs_base,
      )
      refl

after_check-works :
    (val : List ℕ) (dir : Dir) (k : Kernel) (b : Bool)
    → IsWorking (length val) k
    → (dir' : Dir) × (after_check val dir k (some b) ≡ some (amount 0, dir'))
unfolding after_check
after_check-works val dir k true w = (dir, refl)
after_check-works val dir k false w =
    (record { fn = some val; tmp = none }, replace_file-works val dir k w)

-- Where no call fails but by interrupts, reads and writes move a byte at least and are answered
-- often enough, and the content is shorter than 2^31, safe_write_file returns 0 and the file
-- begins with the content.
pub safe_write_file-works :
    (val : List ℕ) (dir : Dir) (k : Kernel)
    → IsWorking (length val) k
    → length val < 2 ^ 31
    → (dir' : Dir) × (safe_write_file val dir k ≡ some (amount 0, dir'))
      × (rest : List ℕ) × (dir'.fn ≡ some (val ++ rest))
unfolding safe_write_file safe_read_file
safe_write_file-works val dir k w small =
    let (b, decided) = has_content-decides val k.reads dir.fn small w.serves_reads w.enough_reads in
    let (dir', run) = after_check-works val dir k b w in
    let whole : safe_write_file val dir k ≡ some (amount 0, dir') = rw (w.opens_fn, decided) run in
    let left = subst (Left val dir) whole (safe_write_file-Left val dir k) in
    (dir', whole, left.2, left.3)
