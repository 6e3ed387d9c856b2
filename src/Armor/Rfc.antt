-- ===== src/Armor/Rfc.antt =====
-- The encoder of armor.c against base64 as RFC 4648 describes it, with an alphabet of its own.
use replica_wbcache.Prelude.{
  ℕ, ◌+◌, ◌-◌, ◌*◌, ◌/◌, ◌%◌, ◌≤◌, ◌<◌, ◌≡◌, refl, List, [], ◌∷◌, ◌++◌, arith, ok, ltb, ◌==◌,
  if◌then◌else◌, length,
}
use mathlib.Core.Path.{subst}
use replica_wbcache.Prelude.Table.{holds_below, agree_below}
use replica_wbcache.Armor.{encode_bits, armor_line_break}
use replica_wbcache.Armor.Encode.{IsBytes, line_break, column, text, armor_line_break-text}

-- Table 1 of RFC 4648: A to Z, a to z, 0 to 9, `+` and `/`.
abbrev pub rfc_char : ℕ → ℕ
rfc_char v =
    if ltb v 26
    then 65 + v
    else if ltb v 52
    then 97 + (v - 26)
    else if ltb v 62
    then 48 + (v - 52)
    else if v == 62
    then 43
    else 47

-- Three bytes are four values of six bits; two bytes and one byte are filled up with zeros, and
-- with `=` for each byte that is missing.
unfoldable pub rfc_text : (width track : ℕ) → List ℕ → List ℕ
rfc_text width track [] = []
rfc_text width track (a ∷ []) =
    (rfc_char (a / 4) ∷ rfc_char (a % 4 * 16) ∷ 61 ∷ 61 ∷ []) ++ (line_break width track ++ [])
rfc_text width track (a ∷ b ∷ []) =
    (rfc_char (a / 4) ∷ rfc_char (a % 4 * 16 + b / 16) ∷ rfc_char (b % 16 * 4) ∷ 61 ∷ [])
    ++ (line_break width track ++ [])
rfc_text width track (a ∷ b ∷ c ∷ rest) =
    (rfc_char (a / 4)
      ∷ rfc_char (a % 4 * 16 + b / 16)
      ∷ rfc_char (b % 16 * 4 + c / 64)
      ∷ rfc_char (c % 64)
      ∷ [])
    ++ (line_break width track ++ rfc_text width (column width track) rest)

encode_bits-rfc_char : (v : ℕ) → v < 64 → encode_bits v ≡ rfc_char v
unfolding holds_below encode_bits
encode_bits-rfc_char v h = agree_below 64 encode_bits rfc_char v refl h

pub text-rfc_text :
    (width track : ℕ) (src : List ℕ) → IsBytes src → text width track src ≡ rfc_text width track src
unfolding text rfc_text
text-rfc_text width track [] bytes = refl
text-rfc_text width track (a ∷ []) bytes =
    rw
      (
        encode_bits-rfc_char (a / 4) (omega (arith, bytes.0)),
        encode_bits-rfc_char (a % 4 * 16) (omega arith),
      )
      refl
text-rfc_text width track (a ∷ b ∷ []) bytes =
    rw
      (
        encode_bits-rfc_char (a / 4) (omega (arith, bytes.0)),
        encode_bits-rfc_char (a % 4 * 16 + b / 16) (omega (arith, bytes.1.0)),
        encode_bits-rfc_char (b % 16 * 4) (omega arith),
      )
      refl
text-rfc_text width track (a ∷ b ∷ c ∷ rest) bytes =
    rw
      (
        encode_bits-rfc_char (a / 4) (omega (arith, bytes.0)),
        encode_bits-rfc_char (a % 4 * 16 + b / 16) (omega (arith, bytes.1.0)),
        encode_bits-rfc_char (b % 16 * 4 + c / 64) (omega (arith, bytes.1.1.0)),
        encode_bits-rfc_char (c % 64) (omega arith),
        text-rfc_text width (column width track) rest bytes.1.1.1,
      )
      refl

-- Encoding bytes writes the text of RFC 4648 with its alphabet, a line break behind each group
-- that fills a line of `width` characters, and returns its length, if there is room for it.
pub armor_line_break-rfc_text :
    (room width : ℕ) (src : List ℕ)
    → IsBytes src
    → length (rfc_text width 0 src) ≤ room
    → armor_line_break room src width
      ≡ ok (
        record { written = rfc_text width 0 src; room = room - length (rfc_text width 0 src) },
        length (rfc_text width 0 src),
      )
armor_line_break-rfc_text room width src bytes fits =
    let same = text-rfc_text width 0 src bytes in
    subst
      (λ t.
        length t ≤ room
        → armor_line_break room src width
          ≡ ok (record { written = t; room = room - length t }, length t))
      same (armor_line_break-text room width src bytes) fits
