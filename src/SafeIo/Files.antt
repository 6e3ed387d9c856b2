-- ===== src/SafeIo/Files.antt =====
-- common/safe_io.c: safe_read_file, safe_write_file and safe_pwrite. A directory holds the file and
-- its temporary file; the kernel's answer to a call is an errno, or none where it succeeds. `none`
-- is a run that waits for the kernel, or a memcmp behind the 80 bytes of `oldval`.
pub mod Atomic
pub mod Working
use replica_wbcache.Prelude.{
  ℕ, suc, ◌+◌, ◌-◌, ◌*◌, ◌%◌, ◌^◌, Option, none, some, Bool, true, false, List, [], ◌∷◌, ◌++◌, ltb,
  ◌==◌, if◌then◌else◌, length, take, drop, replicate,
}
use Prim.Native.Nat.{min}
use replica_wbcache.SafeIo.{
  Answer, moves, fails, Ret, amount, minus_errno, eintr, safe_read, safe_write,
}

pub record Dir : Type 0 where
  pub fn : Option (List ℕ)
  pub tmp : Option (List ℕ)

pub record Kernel : Type 0 where
  pub open_fn : Option ℕ
  pub reads : List Answer
  pub open_tmp : Option ℕ
  pub writes : List Answer
  pub fsync_tmp : Option ℕ
  pub unlink_tmp : Option ℕ
  pub rename : Option ℕ
  pub open_base : Option ℕ
  pub fsync_base : Option ℕ

abbrev enoent : ℕ
enoent = 2

-- By the answer of open and the file
unfoldable pub read_opened :
    (vallen : ℕ) → List Answer → Option ℕ → Option (List ℕ) → Option (Ret × List ℕ)
unfolding safe_read
read_opened vallen reads (some e) file = some (minus_errno e, [])
read_opened vallen reads none none = some (minus_errno enoent, [])
read_opened vallen reads none (some bytes) = safe_read vallen bytes reads

-- The result and what stands in `val`
unfoldable pub safe_read_file : (vallen : ℕ) → Dir → Kernel → Option (Ret × List ℕ)
unfolding read_opened
safe_read_file vallen dir k = read_opened vallen k.reads k.open_fn dir.fn

abbrev pub same_bytes : List ℕ → List ℕ → Bool
same_bytes [] [] = true
same_bytes (x ∷ xs) (y ∷ ys) = if x == y then same_bytes xs ys else false
same_bytes _ _ = false

-- Whether the file has the content already: `ret == (int)vallen` and memcmp
unfoldable pub has_content : (val : List ℕ) → Option (Ret × List ℕ) → Option Bool
has_content val none = none
has_content val (some (minus_errno e, oldval)) =
    if (length val + e) % 2 ^ 32 == 0 then none else some false
has_content val (some (amount ret, oldval)) =
    if ret == length val % 2 ^ 32
    then if ltb 80 (length val) then none else some (same_bytes oldval val)
    else some false

abbrev unlinked : Kernel → Dir → Dir
unlinked k dir = elim k.unlink_tmp [ none ↦ record dir { tmp = none } | some e ↦ dir ]

abbrev ret_of : Option ℕ → Ret
ret_of none = amount 0
ret_of (some e) = minus_errno e

-- From rename on
unfoldable pub replace_file : Dir → Kernel → Ret × Dir
replace_file dir k = elim k.rename [
  | some e ↦ (minus_errno e, unlinked k dir)
  | none ↦
      let dir' : Dir = record { fn = dir.tmp; tmp = none } in
      elim k.open_base [ some e ↦ (minus_errno e, dir') | none ↦ (ret_of k.fsync_base, dir') ]
]

-- From fsync on
unfoldable pub sync_file : Dir → Kernel → Ret × Dir
unfolding replace_file
sync_file dir k = elim k.fsync_tmp [
  | some e ↦ (minus_errno e, unlinked k dir)
  | none ↦ replace_file dir k
]

-- What follows safe_write, by its result and the bytes that it wrote
unfoldable pub after_write : Dir → Kernel → Option (Ret × List ℕ) → Option (Ret × Dir)
unfolding sync_file
after_write dir k none = none
after_write dir k (some (minus_errno e, out)) = some (minus_errno e, record dir { tmp = some out })
after_write dir k (some (amount n, out)) =
    let dir' : Dir = record dir { tmp = some out } in
    if n == 0 then some (sync_file dir' k) else some (amount n, dir')

-- What follows the comparison
unfoldable pub after_check : (val : List ℕ) → Dir → Kernel → Option Bool → Option (Ret × Dir)
unfolding after_write safe_write
after_check val dir k none = none
after_check val dir k (some true) = some (amount 0, dir)
after_check val dir k (some false) = elim k.open_tmp [
  | some e ↦ some (minus_errno e, dir)
  | none ↦ after_write dir k (safe_write val k.writes)
]

unfoldable pub safe_write_file : (val : List ℕ) → Dir → Kernel → Option (Ret × Dir)
unfolding safe_read_file has_content after_check
safe_write_file val dir k = after_check val dir k (has_content val (safe_read_file 80 dir k))

-- pwrite of `xs`: a gap behind the file's end is zeros.
unfoldable pub pwritten : (offset : ℕ) (xs file : List ℕ) → List ℕ
pwritten offset xs file =
    take offset (file ++ replicate (offset - length file) 0) ++ xs ++ drop (offset + length xs) file

-- safe_pwrite: the bytes that are left, the offset, and the file
unfoldable pub safe_pwrite :
    (buf : List ℕ) (offset : ℕ) (file : List ℕ) → List Answer → Option (Ret × List ℕ)
unfolding pwritten
safe_pwrite [] offset file script = some (amount 0, file)
safe_pwrite (b ∷ bs) offset file [] = none
safe_pwrite (b ∷ bs) offset file (moves k ∷ script) =
    let n = min k (length (b ∷ bs)) in
    safe_pwrite (drop n (b ∷ bs)) (offset + n) (pwritten offset (take n (b ∷ bs)) file) script
safe_pwrite (b ∷ bs) offset file (fails e ∷ script) =
    let next = safe_pwrite (b ∷ bs) offset file script in
    if e == eintr then next else some (minus_errno e, file)
