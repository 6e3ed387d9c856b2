-- ===== src/SafeIo.antt =====
-- common/safe_io.c: reads and writes that go on after short transfers and interrupts. The kernel
-- is a script of its answers, one for each call; a run that uses up the script still waits for
-- the kernel, and is `none`. A descriptor that is read is the sequence of the bytes to come.
pub mod Transfers
pub mod Files
use Prim.Native.Nat.{min}
use replica_wbcache.Prelude.{
  ℕ, ◌+◌, ◌-◌, Option, none, some, List, [], ◌∷◌, ◌++◌, ltb, ◌==◌, if◌then◌else◌, length, take,
  drop,
}

-- What a call answers: it moves at most so many bytes, or fails with this errno.
pub data Answer : Type 0 where
  moves fails : ℕ → Answer

-- A `ssize_t`: a number of bytes, or a negative errno.
pub data Ret : Type 0 where
  amount minus_errno : ℕ → Ret

abbrev pub eintr : ℕ
eintr = 4

abbrev pub edom : ℕ
edom = 33

-- The loop of safe_read: `src` are the bytes to come, `buf` those that were read.
unfoldable pub read_loop : (count : ℕ) (src buf : List ℕ) → List Answer → Option (Ret × List ℕ)
read_loop count src buf [] =
    if ltb (length buf) count then none else some (amount (length buf), buf)
read_loop count src buf (moves k ∷ script) =
    let xs = take (min k (count - length buf)) src in
    let next = read_loop count (drop (length xs) src) (buf ++ xs) script in
    if ltb (length buf) count
    then if length xs == 0 then some (amount (length buf), buf) else next
    else some (amount (length buf), buf)
read_loop count src buf (fails e ∷ script) =
    let next = read_loop count src buf script in
    if ltb (length buf) count
    then if e == eintr then next else some (minus_errno e, buf)
    else some (amount (length buf), buf)

unfoldable pub safe_read : ℕ → List ℕ → List Answer → Option (Ret × List ℕ)
unfolding read_loop
safe_read count src script = read_loop count src [] script

-- What safe_read_exact and safe_pread_exact make of the result.
unfoldable pub exact : ℕ → Ret → Ret
exact count (minus_errno e) = minus_errno e
exact count (amount n) = if n == count then amount 0 else minus_errno edom

abbrev exactly : ℕ → Option (Ret × List ℕ) → Option (Ret × List ℕ)
exactly count none = none
exactly count (some (ret, buf)) = some (exact count ret, buf)

unfoldable pub safe_read_exact : ℕ → List ℕ → List Answer → Option (Ret × List ℕ)
unfolding safe_read exact
safe_read_exact count src script = exactly count (safe_read count src script)

-- The loop of safe_pread, which reads a file at `offset + cnt`
unfoldable pub pread_loop :
    (count offset : ℕ) (file buf : List ℕ) → List Answer → Option (Ret × List ℕ)
pread_loop count offset file buf [] =
    if ltb (length buf) count then none else some (amount (length buf), buf)
pread_loop count offset file buf (moves k ∷ script) =
    let xs = take (min k (count - length buf)) (drop (offset + length buf) file) in
    let next = pread_loop count offset file (buf ++ xs) script in
    if ltb (length buf) count
    then if length xs == 0 then some (amount (length buf), buf) else next
    else some (amount (length buf), buf)
pread_loop count offset file buf (fails e ∷ script) =
    let next = pread_loop count offset file buf script in
    if ltb (length buf) count
    then if e == eintr then next else some (minus_errno e, buf)
    else some (amount (length buf), buf)

unfoldable pub safe_pread : (count offset : ℕ) → List ℕ → List Answer → Option (Ret × List ℕ)
unfolding pread_loop
safe_pread count offset file script = pread_loop count offset file [] script

unfoldable pub safe_pread_exact : (count offset : ℕ) → List ℕ → List Answer → Option (Ret × List ℕ)
unfolding safe_pread exact
safe_pread_exact count offset file script = exactly count (safe_pread count offset file script)

-- safe_write: the bytes that are left, and those that the descriptor has taken
unfoldable pub write_loop : (buf out : List ℕ) → List Answer → Option (Ret × List ℕ)
write_loop [] out script = some (amount 0, out)
write_loop (b ∷ bs) out [] = none
write_loop (b ∷ bs) out (moves k ∷ script) =
    write_loop (drop (min k (length (b ∷ bs))) (b ∷ bs))
      (out ++ take (min k (length (b ∷ bs))) (b ∷ bs)) script
write_loop (b ∷ bs) out (fails e ∷ script) =
    let next = write_loop (b ∷ bs) out script in
    if e == eintr then next else some (minus_errno e, out)

unfoldable pub safe_write : List ℕ → List Answer → Option (Ret × List ℕ)
unfolding write_loop
safe_write buf script = write_loop buf [] script
