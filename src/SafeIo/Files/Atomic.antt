-- ===== src/SafeIo/Files/Atomic.antt =====
-- common/safe_io.c: what safe_write_file leaves of the file, whatever the kernel answers.
use Prim.Native.Nat.{min}
use replica_wbcache.Prelude.{
  ℕ, suc, ◌+◌, ◌-◌, ◌%◌, ◌^◌, ◌≡◌, refl, sym, ap, ◌∙◌, inl, inr, ◌⊎◌, Option, none, some, Bool,
  true, false, List, [], ◌∷◌, ◌++◌, append-nil, append_assoc, ltb, ◌==◌, ==_iff, Bool-cases,
  Option-cases, length, take, drop, arith,
}
use mathlib.Core.Path.{subst}
use replica_wbcache.Prelude.Slices.{take-append-drop}
use replica_wbcache.SafeIo.{
  Answer, moves, fails, Ret, amount, minus_errno, eintr, read_loop, safe_read, write_loop,
  safe_write,
}
use replica_wbcache.SafeIo.Transfers.{take_own}
use replica_wbcache.SafeIo.Files.{
  Dir, Kernel, read_opened, safe_read_file, same_bytes, has_content, replace_file, sync_file,
  after_write, after_check, safe_write_file,
}

-- What was read, if there was no error, is what `whole` begins with.
abbrev Begins : (whole : List ℕ) → Option (Ret × List ℕ) → Type 0
Begins whole none = Unit {0}
Begins whole (some (minus_errno e, out)) = Unit {0}
Begins whole (some (amount n, out)) = (rest : List ℕ) × (whole ≡ out ++ rest)

read_loop-Begins :
    (count : ℕ) (src buf : List ℕ) (script : List Answer)
    → Begins (buf ++ src) (read_loop count src buf script)
unfolding read_loop
read_loop-Begins count src buf [] = elim (Bool-cases (ltb (length buf) count)) [
  | inl more ↦ rw more tt
  | inr full ↦ rw full (src, refl)
]
read_loop-Begins count src buf (moves k ∷ script) =
    let n = min k (count - length buf) in
    let xs = take n src in
    let joined : buf ++ xs ++ drop (length xs) src ≡ buf ++ src =
      append_assoc buf xs (drop (length xs) src)
      ∙ ap (λ ys. buf ++ ys)
          (ap (λ ys. ys ++ drop (length xs) src) (take_own n src)
            ∙ take-append-drop (length xs) src) in
    let next : Begins (buf ++ src) (read_loop count (drop (length xs) src) (buf ++ xs) script) =
      subst (λ ys. Begins ys (read_loop count (drop (length xs) src) (buf ++ xs) script)) joined
        (read_loop-Begins count (drop (length xs) src) (buf ++ xs) script) in
    elim (Bool-cases (ltb (length buf) count)) [
      | inr full ↦ rw full (src, refl)
      | inl more ↦ elim (Bool-cases (length xs == 0)) [
        | inl ended ↦ rw (more, ended) (src, refl)
        | inr some_read ↦ rw (more, some_read) next
      ]
    ]
read_loop-Begins count src buf (fails e ∷ script) = elim (Bool-cases (ltb (length buf) count)) [
  | inr full ↦ rw full (src, refl)
  | inl more ↦ elim (Bool-cases (e == eintr)) [
    | inl again ↦ rw (more, again) (read_loop-Begins count src buf script)
    | inr hard ↦ rw (more, hard) tt
  ]
]

abbrev Wrote : (whole : List ℕ) → Option (Ret × List ℕ) → Type 0
Wrote whole none = Unit {0}
Wrote whole (some (minus_errno e, out)) = Unit {0}
Wrote whole (some (amount n, out)) = (n ≡ 0) × (out ≡ whole)

write_loop-Wrote :
    (buf out : List ℕ) (script : List Answer) → Wrote (out ++ buf) (write_loop buf out script)
unfolding write_loop
write_loop-Wrote [] out script = (refl, sym (append-nil out))
write_loop-Wrote (b ∷ bs) out [] = tt
write_loop-Wrote (b ∷ bs) out (moves k ∷ script) =
    let n = min k (suc (length bs)) in
    let joined : out ++ take n (b ∷ bs) ++ drop n (b ∷ bs) ≡ out ++ (b ∷ bs) =
      append_assoc out (take n (b ∷ bs)) (drop n (b ∷ bs))
      ∙ ap (λ ys. out ++ ys) (take-append-drop n (b ∷ bs)) in
    subst (λ ys. Wrote ys (write_loop (drop n (b ∷ bs)) (out ++ take n (b ∷ bs)) script)) joined
      (write_loop-Wrote (drop n (b ∷ bs)) (out ++ take n (b ∷ bs)) script)
write_loop-Wrote (b ∷ bs) out (fails e ∷ script) = elim (Bool-cases (e == eintr)) [
  | inl again ↦ rw again (write_loop-Wrote (b ∷ bs) out script)
  | inr hard ↦ rw hard tt
]

same_bytes-eq : (xs ys : List ℕ) → same_bytes xs ys ≡ true → xs ≡ ys
same_bytes-eq [] [] h = refl
same_bytes-eq [] (y ∷ ys) h = ground arith
same_bytes-eq (x ∷ xs) [] h = ground arith
same_bytes-eq (x ∷ xs) (y ∷ ys) h = elim (Bool-cases (x == y)) [
  | inl same ↦
      let rest : same_bytes xs ys ≡ true = sym (rw same refl) ∙ h in
      rw ((==_iff x y).0 same, same_bytes-eq xs ys rest) refl
  | inr differs ↦ absurd (ground arith)
]

-- What the file may be: what it was, or `val`; and where the result is 0, it begins with `val`.
abbrev pub Left : (val : List ℕ) → Dir → Option (Ret × Dir) → Type 0
Left val dir none = Unit {0}
Left val dir (some (minus_errno e, dir')) = (dir'.fn ≡ dir.fn) ⊎ (dir'.fn ≡ some val)
Left val dir (some (amount n, dir')) =
    (n ≡ 0)
    × ((dir'.fn ≡ dir.fn) ⊎ (dir'.fn ≡ some val))
    × (rest : List ℕ) × (dir'.fn ≡ some (val ++ rest))

replace_file-Left :
    (val : List ℕ) (dir : Dir) (k : Kernel)
    → Left val dir (some (replace_file (record dir { tmp = some val }) k))
unfolding replace_file
replace_file-Left val dir k = elim (Option-cases k.rename) [
  | inr (e, r) ↦ elim (Option-cases k.unlink_tmp) [
    | inl u ↦ rw (r, u) (inl refl)
    | inr (e', u) ↦ rw (r, u) (inl refl)
  ]
  | inl r ↦ elim (Option-cases k.open_base) [
    | inr (e, o) ↦ rw (r, o) (inr refl)
    | inl o ↦ elim (Option-cases k.fsync_base) [
      | inr (e, f) ↦ rw (r, o, f) (inr refl)
      | inl f ↦ rw (r, o, f) (refl, inr refl, [], ap some (sym (append-nil val)))
    ]
  ]
]

after_write-Left :
    (val : List ℕ) (dir : Dir) (k : Kernel) (r : Option (Ret × List ℕ))
    → Wrote val r
    → Left val dir (after_write dir k r)
unfolding after_write sync_file
after_write-Left val dir k none w = tt
after_write-Left val dir k (some (minus_errno e, out)) w = inl refl
after_write-Left val dir k (some (amount n, out)) w = elim (Option-cases k.fsync_tmp) [
  | inl f ↦ rw (w.0, w.1, f) (replace_file-Left val dir k)
  | inr (e, f) ↦ elim (Option-cases k.unlink_tmp) [
    | inl u ↦ rw (w.0, f, u) (inl refl)
    | inr (e', u) ↦ rw (w.0, f, u) (inl refl)
  ]
]

-- What the comparison found
abbrev Checked : (val : List ℕ) → Dir → Option Bool → Type 0
Checked val dir (some true) = (rest : List ℕ) × (dir.fn ≡ some (val ++ rest))
Checked val dir _ = Unit {0}

errno-Checked :
    (val : List ℕ) (dir : Dir) (e : ℕ) (out : List ℕ)
    → Checked val dir (has_content val (some (minus_errno e, out)))
unfolding has_content
errno-Checked val dir e out = elim (Bool-cases ((length val + e) % 2 ^ 32 == 0)) [
  | inl h ↦ rw h tt
  | inr h ↦ rw h tt
]

has_content-Checked :
    (val : List ℕ) (dir : Dir) (bytes : List ℕ) (r : Option (Ret × List ℕ))
    → dir.fn ≡ some bytes
    → Begins bytes r
    → Checked val dir (has_content val r)
unfolding has_content
has_content-Checked val dir bytes none found b = tt
has_content-Checked val dir bytes (some (minus_errno e, out)) found b = errno-Checked val dir e out
has_content-Checked val dir bytes (some (amount n, out)) found (rest, b) =
    elim (Bool-cases (n == length val % 2 ^ 32)) [
      | inr h ↦ rw h tt
      | inl h ↦ elim (Bool-cases (ltb 80 (length val))) [
        | inl long ↦ rw (h, long) tt
        | inr short ↦ elim (Bool-cases (same_bytes out val)) [
          | inr differs ↦ rw (h, short, differs) tt
          | inl same ↦
              rw (h, short, same)
                (rest, found ∙ ap some (b ∙ ap (λ xs. xs ++ rest) (same_bytes-eq out val same)))
        ]
      ]
    ]

after_check-Left :
    (val : List ℕ) (dir : Dir) (k : Kernel) (found : Option Bool)
    → Checked val dir found
    → Left val dir (after_check val dir k found)
unfolding after_check safe_write
after_check-Left val dir k none c = tt
after_check-Left val dir k (some true) (rest, c) = (refl, inl refl, rest, c)
after_check-Left val dir k (some false) c = elim (Option-cases k.open_tmp) [
  | inr (e, o) ↦ rw o (inl refl)
  | inl o ↦
      rw o
        (after_write-Left val dir k (write_loop val [] k.writes) (write_loop-Wrote val [] k.writes))
]

read_opened-Checked :
    (val : List ℕ) (dir : Dir) (reads : List Answer) (o : Option ℕ) (file : Option (List ℕ))
    → dir.fn ≡ file
    → Checked val dir (has_content val (read_opened 80 reads o file))
unfolding read_opened safe_read
read_opened-Checked val dir reads (some e) file found = errno-Checked val dir e []
read_opened-Checked val dir reads none none found = errno-Checked val dir 2 []
read_opened-Checked val dir reads none (some bytes) found =
    has_content-Checked val dir bytes (read_loop 80 bytes [] reads) found
      (read_loop-Begins 80 bytes [] reads)

-- Whatever the kernel answers, at each call and in each read and write, where safe_write_file
-- returns, the file holds what it held or exactly the new content, and if the result is not an
-- errno it is 0 and the file begins with the new content.
pub safe_write_file-Left :
    (val : List ℕ) (dir : Dir) (k : Kernel) → Left val dir (safe_write_file val dir k)
unfolding safe_write_file safe_read_file
safe_write_file-Left val dir k =
    after_check-Left val dir k (has_content val (read_opened 80 k.reads k.open_fn dir.fn))
      (read_opened-Checked val dir k.reads k.open_fn dir.fn refl)
