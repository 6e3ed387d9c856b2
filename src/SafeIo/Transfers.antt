-- ===== src/SafeIo/Transfers.antt =====
-- What the loops of safe_io.c transfer.
use Prim.Native.Nat.{min}
use replica_wbcache.Prelude.{
  ℕ, zero, suc, ◌+◌, ◌-◌, ◌≤◌, ◌<◌, ◌≡◌, ◌≢◌, refl, sym, ap, ◌∙◌, inl, inr, Option, none, some,
  List, [], ◌∷◌, ◌++◌, append-nil, append_assoc, arith, ltb, ◌==◌, length, length-append,
  length-take, length-drop, take, drop, replicate, Bool-cases, ==_iff, lt→ltb,
}
use replica_wbcache.Prelude.Slices.{take-append-drop, take-add, take_all, drop-drop}
use replica_wbcache.SafeIo.{
  Answer, moves, fails, Ret, amount, minus_errno, eintr, read_loop, safe_read, pread_loop,
  safe_pread, write_loop, safe_write,
}

-- A kernel that fails by interrupts only, and moves a byte at least where it does not.
abbrev pub IsServing : List Answer → Type 0
IsServing [] = Unit {0}
IsServing (moves k ∷ script) = (0 < k) × IsServing script
IsServing (fails e ∷ script) = (e ≡ eintr) × IsServing script

-- The number of calls that are not interrupted.
abbrev pub calls : List Answer → ℕ
calls [] = 0
calls (moves k ∷ script) = suc (calls script)
calls (fails e ∷ script) = calls script

-- pread reads at an offset what read reads of the bytes from there on.
pread_loop-read_loop :
    (count offset : ℕ) (file buf : List ℕ) (script : List Answer)
    → pread_loop count offset file buf script
      ≡ read_loop count (drop (offset + length buf) file) buf script
unfolding pread_loop read_loop
pread_loop-read_loop count offset file buf [] = refl
pread_loop-read_loop count offset file buf (moves k ∷ script) =
    let left = drop (offset + length buf) file in
    let xs = take (min k (count - length buf)) left in
    let further : offset + length (buf ++ xs) ≡ length xs + (offset + length buf) =
      omega (arith, length-append buf xs) in
    let next =
      pread_loop-read_loop count offset file (buf ++ xs) script
      ∙ ap (λ ys. read_loop count ys (buf ++ xs) script)
          (ap (λ (k : ℕ). drop k file) further
            ∙ sym (drop-drop (length xs) (offset + length buf) file)) in
    rw next
pread_loop-read_loop count offset file buf (fails e ∷ script) =
    rw (pread_loop-read_loop count offset file buf script)

length_zero : (xs : List ℕ) → length xs ≡ 0 → xs ≡ []
length_zero [] h = refl
length_zero (x ∷ xs) h = absurd (omega arith)

pub take_own : (n : ℕ) (xs : List ℕ) → take n xs ≡ take (length (take n xs)) xs
take_own zero xs = refl
take_own (suc n) [] = refl
take_own (suc n) (x ∷ xs) = ap (λ ys. x ∷ ys) (take_own n xs)

abbrev got : ℕ → List ℕ → Option (Ret × List ℕ)
got n xs = some (amount n, xs)

same_got : {m n : ℕ} {xs ys : List ℕ} → m ≡ n → xs ≡ ys → got m xs ≡ got n ys
same_got e f = λ i. got (e i) (f i)

is_full :
    (count : ℕ) (src buf : List ℕ)
    → length buf ≤ count
    → count ≤ length buf
    → got (length buf) buf
      ≡ got
          (length buf + min (count - length buf) (length src))
          (buf ++ take (count - length buf) src)
is_full count src buf h k =
    let none_left : 0 ≡ count - length buf = omega arith in
    same_got (omega arith) (sym (append-nil buf) ∙ ap (λ (n : ℕ). buf ++ take n src) none_left)

-- Reading a part and then the rest is reading the whole.
part_and_rest :
    (n c m : ℕ) (buf src : List ℕ)
    → length (take n src) + m ≡ c
    → buf ++ take n src ++ take m (drop (length (take n src)) src) ≡ buf ++ take c src
part_and_rest n c m buf src e =
    append_assoc buf (take n src) (take m (drop (length (take n src)) src))
    ∙ ap (λ xs. buf ++ xs)
        (ap (λ ys. ys ++ take m (drop (length (take n src)) src)) (take_own n src)
          ∙ sym (take-add (length (take n src)) m src)
          ∙ ap (λ (j : ℕ). take j src) e)

read_loop-all :
    (count : ℕ) (src buf : List ℕ) (script : List Answer)
    → IsServing script
    → length buf ≤ count
    → count - length buf < calls script
    → read_loop count src buf script
      ≡ some (
        amount (length buf + min (count - length buf) (length src)),
        buf ++ take (count - length buf) src,
      )
unfolding read_loop
read_loop-all count src buf [] serves within enough = absurd (omega arith)
read_loop-all count src buf (fails e ∷ script) serves within enough =
    elim (Bool-cases (ltb (length buf) count)) [
      | inl more ↦
          rw (more, (==_iff e eintr).1 serves.0)
            (read_loop-all count src buf script serves.1 within enough)
      | inr full ↦ rw full (is_full count src buf within (ground arith))
    ]
read_loop-all count src buf (moves k ∷ script) serves within enough =
    elim (Bool-cases (ltb (length buf) count)) [
      | inl more ↦
          let xs = take (min k (count - length buf)) src in
          let size = length-take (min k (count - length buf)) src in
          elim (Bool-cases (length xs == 0)) [
            | inl ended ↦
                let none_left : length src ≡ 0 = ground (arith, size, serves.0, more) in
                rw (more, ended, length_zero src none_left)
                  (same_got (omega arith) (
                    sym (append-nil buf)
                    ∙ ap (λ xs. buf ++ xs)
                        (sym (take_all {A = ℕ} (count - length buf) [] (omega arith)))))
            | inr some_read ↦
                let next =
                  read_loop-all count (drop (length xs) src) (buf ++ xs) script serves.1
                    (omega (arith, length-append buf xs, size))
                    (ground (arith, length-append buf xs, some_read)) in
                rw (more, some_read, next)
                  (same_got (omega (arith, length-append buf xs, size, length-drop (length xs) src))
                    (part_and_rest (min k (count - length buf)) (count - length buf)
                      (count - length (buf ++ xs)) buf src
                      (omega (arith, length-append buf xs, size))))
          ]
      | inr full ↦ rw full (is_full count src buf within (ground arith))
    ]

write_loop-all :
    (buf out : List ℕ) (script : List Answer)
    → IsServing script
    → length buf ≤ calls script
    → write_loop buf out script ≡ some (amount 0, out ++ buf)
unfolding write_loop
write_loop-all [] out script serves enough = rw (append-nil out)
write_loop-all (b ∷ bs) out [] serves enough = absurd (omega arith)
write_loop-all (b ∷ bs) out (moves k ∷ script) serves enough =
    let n = min k (suc (length bs)) in
    write_loop-all (drop n (b ∷ bs)) (out ++ take n (b ∷ bs)) script serves.1
      (omega (arith, length-drop n (b ∷ bs), serves.0))
    ∙ ap (λ xs. some (amount 0, xs))
        (append_assoc out (take n (b ∷ bs)) (drop n (b ∷ bs))
          ∙ ap (λ xs. out ++ xs) (take-append-drop n (b ∷ bs)))
write_loop-all (b ∷ bs) out (fails e ∷ script) serves enough =
    rw ((==_iff e eintr).1 serves.0) (write_loop-all (b ∷ bs) out script serves.1 enough)

-- If the kernel fails by interrupts only, moves a byte at least where there is one, and is called
-- more than `count` times without an interrupt, safe_read returns min(count, the bytes to come)
-- and has read as many bytes.
pub safe_read-all :
    (count : ℕ) (src : List ℕ) (script : List Answer)
    → IsServing script
    → count < calls script
    → safe_read count src script ≡ some (amount (min count (length src)), take count src)
unfolding safe_read
safe_read-all count src script serves enough =
    read_loop-all count src [] script serves (omega arith) (omega arith)
    ∙ same_got (omega arith) (ap (λ (k : ℕ). take k src) (omega arith))

-- Whatever the kernel answers, safe_pread at an offset returns what safe_read returns of the bytes
-- from there on.
pub safe_pread-safe_read :
    (count offset : ℕ) (file : List ℕ) (script : List Answer)
    → safe_pread count offset file script ≡ safe_read count (drop offset file) script
unfolding safe_pread safe_read
safe_pread-safe_read count offset file script =
    pread_loop-read_loop count offset file [] script
    ∙ ap (λ (k : ℕ). read_loop count (drop k file) [] script) (omega arith)

-- If the kernel fails by interrupts only, takes a byte at least at each call, and is called as
-- often as there are bytes without an interrupt, safe_write returns 0 and has written every byte,
-- in order.
pub safe_write-all :
    (buf : List ℕ) (script : List Answer)
    → IsServing script
    → length buf ≤ calls script
    → safe_write buf script ≡ some (amount 0, buf)
unfolding safe_write
safe_write-all buf script serves enough = write_loop-all buf [] script serves enough

-- Where bytes are wanted, an error other than EINTR behind any number of interrupts ends safe_read
-- with that error.
pub safe_read_error :
    (n e count : ℕ) (src : List ℕ) (script : List Answer)
    → 0 < count
    → e ≢ eintr
    → safe_read count src (replicate n (fails eintr) ++ fails e ∷ script) ≡ some (minus_errno e, [])
unfolding safe_read read_loop
safe_read_error zero e count src script some_bytes hard = ground arith
safe_read_error (suc n) e count src script some_bytes hard =
    rw (lt→ltb 0 count some_bytes) (safe_read_error n e count src script some_bytes hard)

write_loop_stalls :
    (n b : ℕ) (bs out : List ℕ) → write_loop (b ∷ bs) out (replicate n (moves 0)) ≡ none
unfolding write_loop
write_loop_stalls zero b bs out = refl
write_loop_stalls (suc n) b bs out =
    let nothing : min 0 (suc (length bs)) ≡ 0 = omega arith in
    rw (write_loop, nothing) (write_loop_stalls n b bs (out ++ []))

-- While every write of a buffer that is not empty returns 0, safe_write does not return, however
-- often it is tried.
pub safe_write_stalls : (n b : ℕ) (bs : List ℕ) → safe_write (b ∷ bs) (replicate n (moves 0)) ≡ none
unfolding safe_write
safe_write_stalls n b bs = write_loop_stalls n b bs []
