-- ===== src/Armor/Encode.antt =====
-- The encoder of armor.c against its text in groups of characters.
use replica_wbcache.Prelude.{
  ℕ, suc, ◌+◌, ◌-◌, ◌*◌, ◌/◌, ◌≤◌, ◌<◌, ◌≡◌, refl, sym, ap, ◌∙◌, inl, inr, Bool, ◌&&◌, not, List,
  [], ◌∷◌, ◌++◌, append-nil, append_assoc, arith, Result, ok, err, ◌>>=◌, ltb, ◌==◌, if◌then◌else◌,
  length, length-append, >>=_assoc, ◌%◌, lt→ltb, Bool-cases,
}
use Prim.Native.Nat.{bit_and, bit_or}
use mathlib.Core.Path.{fun_ext}
use replica_wbcache.Armor.Tables.{or_of_16, or_of_4, and_3, and_15, and_63}
use replica_wbcache.Armor.{
  ArmorError, erange, Dst, Encoded, encode_bits, set_str_val, set_three, set_two, set_one, line_end,
  armor_loop, armor_line_break,
}

unfoldable pub put_all : Dst → List ℕ → Result ArmorError Dst
put_all d [] = ok d
put_all d (c ∷ cs) = set_str_val d c >>= λ d'. put_all d' cs

-- A text that fits is appended, and takes its length off the room.
pub put_all-fits :
    (d : Dst) (cs : List ℕ)
    → length cs ≤ d.room
    → put_all d cs ≡ ok (record { written = d.written ++ cs; room = d.room - length cs })
unfolding put_all set_str_val
put_all-fits d [] h = ap ok (λ i. record { written = sym (append-nil d.written) i; room = same i })
  where
    same : d.room ≡ d.room - 0
    same = omega arith
put_all-fits d (c ∷ cs) h = rw (lt→ltb 0 d.room (omega arith)) (
    put_all-fits (record { written = d.written ++ c ∷ []; room = d.room - 1 }) cs (omega arith)
    ∙ ap ok (λ i. record { written = append_assoc d.written (c ∷ []) cs i; room = same i }))
  where
    same : d.room - 1 - length cs ≡ d.room - suc (length cs)
    same = omega arith

pub put_all-erange : (d : Dst) (cs : List ℕ) → d.room < length cs → put_all d cs ≡ err erange
unfolding put_all set_str_val
put_all-erange d [] h = absurd (omega arith)
put_all-erange d (c ∷ cs) h = elim (Bool-cases (ltb 0 d.room)) [
  | inl some_room ↦ rw some_room (
      put_all-erange (record { written = d.written ++ c ∷ []; room = d.room - 1 }) cs
        (ground arith))
  | inr no_room ↦ rw no_room
]

pub put_all-append :
    (d : Dst) (xs ys : List ℕ) → put_all d (xs ++ ys) ≡ (put_all d xs >>= λ d'. put_all d' ys)
unfolding put_all
put_all-append d [] ys = refl
put_all-append d (x ∷ xs) ys =
    ap (λ f. set_str_val d x >>= f) (fun_ext λ d'. put_all-append d' xs ys)
    ∙ sym (>>=_assoc (set_str_val d x) (λ d'. put_all d' xs) (λ d'. put_all d' ys))

abbrev pub IsBytes : List ℕ → Type 0
IsBytes [] = Unit {0}
IsBytes (x ∷ xs) = (x < 256) × IsBytes xs

-- The text of a group, in arithmetic.
abbrev pub group3 : ℕ → ℕ → ℕ → List ℕ
group3 a b c =
    encode_bits (a / 4)
    ∷ encode_bits (a % 4 * 16 + b / 16)
    ∷ encode_bits (b % 16 * 4 + c / 64)
    ∷ encode_bits (c % 64)
    ∷ []

abbrev pub group2 : ℕ → ℕ → List ℕ
group2 a b =
    encode_bits (a / 4) ∷ encode_bits (a % 4 * 16 + b / 16) ∷ encode_bits (b % 16 * 4) ∷ b'=' ∷ []

abbrev pub group1 : ℕ → List ℕ
group1 a = encode_bits (a / 4) ∷ encode_bits (a % 4 * 16) ∷ b'=' ∷ b'=' ∷ []

-- A line is broken behind the group that fills it.
abbrev pub full : ℕ → ℕ → Bool
full width track = not (width == 0) && track + 4 == width

abbrev pub line_break : ℕ → ℕ → List ℕ
line_break width track = if full width track then 10 ∷ [] else []

abbrev pub column : ℕ → ℕ → ℕ
column width track = if full width track then 0 else track + 4

unfoldable pub text : ℕ → ℕ → List ℕ → List ℕ
text width track [] = []
text width track (a ∷ []) = group1 a ++ (line_break width track ++ [])
text width track (a ∷ b ∷ []) = group2 a b ++ (line_break width track ++ [])
text width track (a ∷ b ∷ c ∷ rest) =
    group3 a b c ++ (line_break width track ++ text width (column width track) rest)

abbrev pub counted : ℕ → Dst → Result ArmorError Encoded
counted n d = ok (d, n)

>>=_ok : {A : Type 0} (m : Result ArmorError A) → (m >>= ok) ≡ m
>>=_ok (ok a) = refl
>>=_ok (err e) = refl

module _ (a b : ℕ) (byte_a : a < 256) (byte_b : b < 256) where
  second : bit_or (bit_and a 3 * 16) (b / 16) ≡ a % 4 * 16 + b / 16
  second = ground (arith, and_3 a byte_a, or_of_16 (a % 4 * 16 + b / 16) (omega arith))

  third : bit_or (bit_and a 15 * 4) (b / 64) ≡ a % 16 * 4 + b / 64
  third = ground (arith, and_15 a byte_a, or_of_4 (a % 16 * 4 + b / 64) (omega arith))

  set_two-put_all : (d : Dst) → set_two d a b ≡ put_all d (group2 a b)
  unfolding set_two put_all
  set_two-put_all d = rw (second, and_15 b byte_b) (simp >>=_ok)

set_three-put_all :
    (a b c : ℕ) (d : Dst)
    → a < 256
    → b < 256
    → c < 256
    → set_three d a b c ≡ put_all d (group3 a b c)
unfolding set_three put_all
set_three-put_all a b c d ha hb hc =
    rw (second a b ha hb, third b c hb hc, and_63 c hc) (simp >>=_ok)

set_one-put_all : (a : ℕ) (d : Dst) → a < 256 → set_one d a ≡ put_all d (group1 a)
unfolding set_one put_all
set_one-put_all a d ha = rw (and_3 a ha) (simp >>=_ok)

-- The break and what is written behind it.
line_end-put_all :
    (width track n : ℕ) (d : Dst) (rest : List ℕ) (next : Dst × ℕ × ℕ → Result ArmorError Encoded)
    → ((m : ℕ) (e : Dst)
        → next (e, column width track, m) ≡ (put_all e rest >>= counted (m + length rest)))
    → (line_end width track n d >>= next) ≡ (
        put_all d (line_break width track ++ rest)
        >>= counted (n + (4 + length (line_break width track ++ rest))))
unfolding line_end put_all
line_end-put_all width track n d rest next ih = elim (Bool-cases (full width track)) [
  | inl breaks ↦
      let ih' : (e : Dst)
          → next (e, 0, n + 4 + 1) ≡ (put_all e rest >>= counted (n + (4 + suc (length rest)))) =
        λ e.
          (rw breaks at (ih (n + 4 + 1) e))
          ∙ ap (λ (k : ℕ). put_all e rest >>= counted k) (omega arith) in
      rw (breaks, ◌>>=◌)
        (>>=_assoc (set_str_val d 10) (λ d'. ok (d', 0, n + 4 + 1)) next
          ∙ ap (λ f. set_str_val d 10 >>= f) (fun_ext ih')
          ∙ sym (
              >>=_assoc (set_str_val d 10) (λ d'. put_all d' rest)
                (counted (n + (4 + suc (length rest))))))
  | inr stays ↦
      rw stays
        ((rw stays at (ih (n + 4) d)) ∙ ap (λ (k : ℕ). put_all d rest >>= counted k) (omega arith))
]

-- A group, and all that the loop does behind it.
group-put_all :
    (width track n : ℕ) (d : Dst) (group rest : List ℕ)
    (next : Dst × ℕ × ℕ → Result ArmorError Encoded)
    → length group ≡ 4
    → ((m : ℕ) (e : Dst)
        → next (e, column width track, m) ≡ (put_all e rest >>= counted (m + length rest)))
    → (put_all d group >>= λ e. line_end width track n e >>= next) ≡ (
        put_all d (group ++ (line_break width track ++ rest))
        >>= counted (n + length (group ++ (line_break width track ++ rest))))
group-put_all width track n d group rest next four ih =
    let behind = line_break width track ++ rest in
    let size : n + (4 + length behind) ≡ n + length (group ++ behind) =
      omega (arith, length-append group behind) in
    ap (λ f. put_all d group >>= f)
      (fun_ext λ e.
        line_end-put_all width track n e rest next ih
        ∙ ap (λ (k : ℕ). put_all e behind >>= counted k) size)
    ∙ sym (
        >>=_assoc (put_all d group) (λ e. put_all e behind)
          (counted (n + length (group ++ behind))))
    ∙ ap (λ m. m >>= counted (n + length (group ++ behind))) (sym (put_all-append d group behind))

stop :
    (width track : ℕ) (m : ℕ) (e : Dst)
    → ok (e, m) ≡ (put_all e [] >>= counted (m + length {A = ℕ} []))
unfolding put_all
stop width track m e = ap (λ (k : ℕ). ok (e, k)) (omega arith)

-- The loop writes the text behind what is there, and counts it.
pub armor_loop-text :
    (width track n : ℕ) (d : Dst) (src : List ℕ)
    → IsBytes src
    → armor_loop width track n d src
      ≡ (put_all d (text width track src) >>= counted (n + length (text width track src)))
unfolding armor_loop text
armor_loop-text width track n d [] h = stop width track n d
armor_loop-text width track n d (a ∷ []) h = rw (set_one-put_all a d h.0) (
    group-put_all width track n d (group1 a) [] (λ (e, t, m). ok (e, m)) refl
      (stop width (column width track)))
armor_loop-text width track n d (a ∷ b ∷ []) h = rw (set_two-put_all a b h.0 h.1.0 d) (
    group-put_all width track n d (group2 a b) [] (λ (e, t, m). ok (e, m)) refl
      (stop width (column width track)))
armor_loop-text width track n d (a ∷ b ∷ c ∷ rest) h =
    rw (set_three-put_all a b c d h.0 h.1.0 h.1.1.0) (
      group-put_all width track n d (group3 a b c) (text width (column width track) rest)
        (λ (e, t, m). armor_loop width t m e rest) refl
        (λ m e. armor_loop-text width (column width track) m e rest h.1.1.1))

-- Encoding bytes writes the text in groups, a line break behind each that fills a line of `width`
-- characters, and returns its length, if there is room for it.
pub armor_line_break-text :
    (room width : ℕ) (src : List ℕ)
    → IsBytes src
    → length (text width 0 src) ≤ room
    → armor_line_break room src width
      ≡ ok (
        record { written = text width 0 src; room = room - length (text width 0 src) },
        length (text width 0 src),
      )
unfolding armor_line_break
armor_line_break-text room width src bytes fits =
    armor_loop-text width 0 0 (record { written = []; room = room }) src bytes
    ∙ ap (λ m. m >>= counted (0 + length (text width 0 src)))
        (put_all-fits (record { written = []; room = room }) (text width 0 src) fits)
    ∙ ap
        (λ (k : ℕ).
          ok (record { written = text width 0 src; room = room - length (text width 0 src) }, k))
        (omega arith)

-- Encoding bytes fails with -ERANGE if there is no room for the whole text.
pub armor_line_break-erange :
    (room width : ℕ) (src : List ℕ)
    → IsBytes src
    → room < length (text width 0 src)
    → armor_line_break room src width ≡ err erange
unfolding armor_line_break
armor_line_break-erange room width src bytes small =
    armor_loop-text width 0 0 (record { written = []; room = room }) src bytes
    ∙ ap (λ m. m >>= counted (0 + length (text width 0 src)))
        (put_all-erange (record { written = []; room = room }) (text width 0 src) small)

-- Without line breaks the text has four characters for each three bytes that are begun.
pub length-text : (track : ℕ) (src : List ℕ) → length (text 0 track src) ≡ (length src + 2) / 3 * 4
unfolding text
length-text track [] = refl
length-text track (a ∷ []) = refl
length-text track (a ∷ b ∷ []) = refl
length-text track (a ∷ b ∷ c ∷ rest) = omega (arith, length-text (track + 4) rest)
