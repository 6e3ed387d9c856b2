-- ===== src/Examples/Files.antt =====
-- Whole files (common/safe_io.c) at concrete inputs.
use replica_wbcache.Prelude.{
  ℕ, zero, suc, ◌≡◌, refl, none, some, List, [], ◌∷◌, ◌++◌, replicate, arith,
}
use replica_wbcache.SafeIo.{moves, fails, amount, minus_errno, eintr}
use replica_wbcache.SafeIo.Transfers.{IsServing}
use replica_wbcache.SafeIo.Files.{Dir, Kernel, safe_write_file, safe_pwrite}
use replica_wbcache.SafeIo.Files.Atomic.{Left, safe_write_file-Left}
use replica_wbcache.SafeIo.Files.Working.{IsWorking, safe_write_file-works}

abbrev working : Kernel
working = record {
  open_fn = none;
  reads = replicate 81 (moves 100);
  open_tmp = none;
  writes = moves 2 ∷ fails eintr ∷ moves 1 ∷ moves 8 ∷ [];
  fsync_tmp = none;
  unlink_tmp = none;
  rename = none;
  open_base = none;
  fsync_base = none;
}

-- The disk is full.
abbrev full : Kernel
full = record working { writes = moves 2 ∷ fails 28 ∷ [] }

abbrev old : Dir
old = record { fn = some (1 ∷ 2 ∷ []); tmp = none }

safe_write_file-Left_example : Left (7 ∷ 8 ∷ 9 ∷ []) old (safe_write_file (7 ∷ 8 ∷ 9 ∷ []) old full)
safe_write_file-Left_example = safe_write_file-Left (7 ∷ 8 ∷ 9 ∷ []) old full

full_run :
    safe_write_file (7 ∷ 8 ∷ 9 ∷ []) old full
    ≡ some (minus_errno 28, record { fn = some (1 ∷ 2 ∷ []); tmp = some (7 ∷ 8 ∷ []) })
unfolding safe_write_file
full_run = refl

replicate-IsServing : (n : ℕ) → IsServing (replicate n (moves 100))
replicate-IsServing zero = tt
replicate-IsServing (suc n) = (omega arith, replicate-IsServing n)

working-IsWorking : IsWorking 3 working
working-IsWorking = record {
  opens_fn = refl;
  opens_tmp = refl;
  syncs_tmp = refl;
  renames = refl;
  opens_base = refl;
  syncs_base = refl;
  serves_reads = replicate-IsServing 81;
  enough_reads = omega arith;
  serves_writes = (omega arith, (refl, (omega arith, (omega arith, tt))));
  enough_writes = omega arith;
}

safe_write_file-works_example :
    (dir' : Dir) × (safe_write_file (7 ∷ 8 ∷ 9 ∷ []) old working ≡ some (amount 0, dir'))
    × (rest : List ℕ) × (dir'.fn ≡ some ((7 ∷ 8 ∷ 9 ∷ []) ++ rest))
safe_write_file-works_example =
    safe_write_file-works (7 ∷ 8 ∷ 9 ∷ []) old working working-IsWorking (omega arith)

-- A file that goes on behind 80 bytes of the content is left as it is.
goes_on_run :
    safe_write_file (replicate 80 1) (record { fn = some (replicate 90 1); tmp = none }) working
    ≡ some (amount 0, record { fn = some (replicate 90 1); tmp = none })
unfolding safe_write_file
goes_on_run = refl

safe_pwrite_run :
    safe_pwrite (7 ∷ 8 ∷ 9 ∷ []) 2 (1 ∷ []) (moves 2 ∷ fails eintr ∷ moves 5 ∷ [])
    ≡ some (amount 0, 1 ∷ 0 ∷ 7 ∷ 8 ∷ 9 ∷ [])
unfolding safe_pwrite
safe_pwrite_run = refl
