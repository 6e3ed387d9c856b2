-- ===== src/Armor.antt =====
-- common/encode/armor.c: base64 with an optional line width. A destination is what has been
-- written to it and the room that is left before `dst_end`; the source is the bytes from `src`
-- to `src_end`.
pub mod Tables
pub mod Encode
pub mod Rfc
pub mod RoundTrip
use Prim.Native.Nat.{bit_and, bit_or}
use Prim.Native.Char.{code}
use Prim.Native.String.{String}
use replica_wbcache.Prelude.{
  ℕ, zero, suc, ◌+◌, ◌-◌, ◌*◌, ◌/◌, ◌%◌, ◌&&◌, ◌||◌, not, Option, none, some, List, [], ◌∷◌, ◌++◌,
  Result, ok, err, ◌>>=◌, leb, ltb, ◌==◌, if◌then◌else◌, get_elem?,
}

-- -ERANGE and -EINVAL
pub data ArmorError : Type 0 where
  erange einval : ArmorError

pub record Dst : Type 0 where
  pub written : List ℕ
  pub room : ℕ

abbrev codes : String → List ℕ
codes String.[] = []
codes (String.◌∷◌ c s) = code c ∷ codes s

-- A read behind the key's end never happens for the six-bit arguments of the code.
abbrev entry : Option ℕ → ℕ
entry none = 0
entry (some c) = c

unfoldable pub encode_bits : ℕ → ℕ
encode_bits c =
    entry (get_elem? (codes "ABCDEFGHIJKLMNOPQRSTUVWXYZabcdefghijklmnopqrstuvwxyz0123456789+/") c)

-- `none` is -EINVAL.
pub decode_bits : ℕ → Option ℕ
decode_bits c =
    if leb b'A' c && leb c b'Z'
    then some (c - b'A')
    else if leb b'a' c && leb c b'z'
    then some (c - b'a' + 26)
    else if leb b'0' c && leb c b'9'
    then some (c - b'0' + 52)
    else if c == b'+' || c == b'-'
    then some 62
    else if c == b'/' || c == b'_'
    then some 63
    else if c == b'='
    then some 0
    else none

pub set_str_val : Dst → ℕ → Result ArmorError Dst
set_str_val d c =
    if ltb 0 d.room
    then ok (record { written = d.written ++ c ∷ []; room = d.room - 1 })
    else err erange

abbrev pub Encoded : Type 0
Encoded = Dst × ℕ

-- The three shapes of the body of the loop: three bytes, two bytes and one byte.
pub set_three : Dst → ℕ → ℕ → ℕ → Result ArmorError Dst
set_three d a b c = do
  d ← set_str_val d (encode_bits (a / 4))
  d ← set_str_val d (encode_bits (bit_or (bit_and a 3 * 16) (b / 16)))
  d ← set_str_val d (encode_bits (bit_or (bit_and b 15 * 4) (c / 64)))
  set_str_val d (encode_bits (bit_and c 63))

pub set_two : Dst → ℕ → ℕ → Result ArmorError Dst
set_two d a b = do
  d ← set_str_val d (encode_bits (a / 4))
  d ← set_str_val d (encode_bits (bit_or (bit_and a 3 * 16) (b / 16)))
  d ← set_str_val d (encode_bits (bit_and b 15 * 4))
  set_str_val d b'='

pub set_one : Dst → ℕ → Result ArmorError Dst
set_one d a = do
  d ← set_str_val d (encode_bits (a / 4))
  d ← set_str_val d (encode_bits (bit_and a 3 * 16))
  d ← set_str_val d b'='
  set_str_val d b'='

-- What follows a group: the counters, and the line break. `track` is counted before the group.
pub line_end : ℕ → ℕ → ℕ → Dst → Result ArmorError (Dst × ℕ × ℕ)
line_end width track out_len d =
    if not (width == 0) && track + 4 == width
    then set_str_val d 10 >>= (λ d'. ok (d', 0, out_len + 4 + 1))
    else ok (d, track + 4, out_len + 4)

pub armor_loop : ℕ → ℕ → ℕ → Dst → List ℕ → Result ArmorError Encoded
armor_loop width track out_len d [] = ok (d, out_len)
armor_loop width track out_len d (a ∷ []) = do
  d ← set_one d a
  (d, track, out_len) ← line_end width track out_len d
  ok (d, out_len)
armor_loop width track out_len d (a ∷ b ∷ []) = do
  d ← set_two d a b
  (d, track, out_len) ← line_end width track out_len d
  ok (d, out_len)
armor_loop width track out_len d (a ∷ b ∷ c ∷ rest) = do
  d ← set_three d a b c
  (d, track, out_len) ← line_end width track out_len d
  armor_loop width track out_len d rest

unfoldable pub armor_line_break : ℕ → List ℕ → ℕ → Result ArmorError Encoded
unfolding armor_loop
armor_line_break room src width = armor_loop width 0 0 (record { written = []; room = room }) src

unfoldable pub armor : ℕ → List ℕ → Result ArmorError Encoded
unfolding armor_line_break
armor room src = armor_line_break room src 0

-- Four characters that are no line break, whose values are known.
pub unarmor_group :
    (ℕ → Dst → Result ArmorError Encoded)
    → ℕ
    → Dst
    → (c d : ℕ) → (w x y z : ℕ) → Result ArmorError Encoded
unarmor_group next out_len dst c d w x y z = do
  dst ← set_str_val dst (bit_or (w * 4) (x / 16) % 256)
  if c == b'=' then ok (dst, out_len + 1) else do
    dst ← set_str_val dst (bit_or (bit_and x 15 * 16) (y / 4) % 256)
    if d == b'='
        then ok (dst, out_len + 2)
        else do dst ← set_str_val dst (bit_or (bit_and y 3 * 64) z % 256); next (out_len + 3) dst

abbrev known : Option ℕ → Result ArmorError ℕ
known none = err einval
known (some v) = ok v

-- A group that has fewer than four characters is -EINVAL.
pub unarmor_loop : ℕ → Dst → List ℕ → Result ArmorError Encoded
unarmor_loop out_len dst [] = ok (dst, out_len)
unarmor_loop out_len dst (a ∷ b ∷ c ∷ d ∷ rest) =
    let skip = unarmor_loop out_len dst (b ∷ c ∷ d ∷ rest) in
    if a == 10 then skip else do
      w ← known (decode_bits a)
      x ← known (decode_bits b)
      y ← known (decode_bits c)
      z ← known (decode_bits d)
      unarmor_group (λ n e. unarmor_loop n e rest) out_len dst c d w x y z
unarmor_loop out_len dst (a ∷ rest) =
    let skip = unarmor_loop out_len dst rest in if a == 10 then skip else err einval

unfoldable pub unarmor : ℕ → List ℕ → Result ArmorError Encoded
unfolding unarmor_loop
unarmor room src = unarmor_loop 0 (record { written = []; room = room }) src
