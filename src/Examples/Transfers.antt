-- ===== src/Examples/Transfers.antt =====
-- Reads and writes (common/safe_io.c) at concrete inputs.
use Prim.Native.Nat.{min}
use replica_wbcache.Prelude.{
  ℕ, ◌≡◌, ◌≢◌, refl, some, none, List, [], ◌∷◌, length, take, replicate, arith,
}
use replica_wbcache.SafeIo.{Answer, moves, fails, amount, eintr, safe_read, safe_write}
use replica_wbcache.SafeIo.Transfers.{IsServing, safe_read-all, safe_write-all, safe_write_stalls}

-- A short transfer, an interrupt, and the rest.
abbrev script : List Answer
script = moves 2 ∷ fails 4 ∷ moves 9 ∷ moves 9 ∷ moves 1 ∷ moves 1 ∷ []

script-IsServing : IsServing script
script-IsServing =
    (omega arith, (refl, (omega arith, (omega arith, (omega arith, (omega arith, tt))))))

abbrev hello : List ℕ
hello = 104 ∷ 101 ∷ 108 ∷ 108 ∷ 111 ∷ []

safe_read-all_example :
    safe_read 4 hello script ≡ some (amount (min 4 (length hello)), take 4 hello)
safe_read-all_example = safe_read-all 4 hello script script-IsServing (omega arith)

safe_write-all_example : safe_write hello script ≡ some (amount 0, hello)
safe_write-all_example = safe_write-all hello script script-IsServing (omega arith)

io-ne-interrupt : ◌≢◌ {A = ℕ} 5 eintr
io-ne-interrupt e = absurd (omega arith)

safe_write_stalls_example : safe_write hello (replicate 9 (moves 0)) ≡ none
safe_write_stalls_example = safe_write_stalls 9 104 (101 ∷ 108 ∷ 108 ∷ 111 ∷ [])
