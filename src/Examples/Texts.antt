-- ===== src/Examples/Texts.antt =====
-- The base64 code (common/encode/armor.c) at concrete inputs.
use replica_wbcache.Prelude.{ℕ, ◌-◌, ◌≡◌, refl, List, [], ◌∷◌, ok, err, ◌>>=◌, length, arith}
use replica_wbcache.Armor.{erange, armor_line_break, unarmor}
use replica_wbcache.Armor.Encode.{text, IsBytes, armor_line_break-erange}
use replica_wbcache.Armor.Rfc.{rfc_text, armor_line_break-rfc_text}
use replica_wbcache.Armor.RoundTrip.{unarmor-armor_line_break}

-- "foob"
abbrev foob : List ℕ
foob = 102 ∷ 111 ∷ 111 ∷ 98 ∷ []

foob-IsBytes : IsBytes foob
foob-IsBytes = (omega arith, (omega arith, (omega arith, (omega arith, tt))))

-- "Zm9v", a line break, "Yg==" and a line break.
foob-text : rfc_text 4 0 foob ≡ 90 ∷ 109 ∷ 57 ∷ 118 ∷ 10 ∷ 89 ∷ 103 ∷ 61 ∷ 61 ∷ 10 ∷ []
unfolding rfc_text
foob-text = refl

armor_line_break-rfc_text_example :
    armor_line_break 20 foob 4
    ≡ ok (
      record { written = rfc_text 4 0 foob; room = 20 - length (rfc_text 4 0 foob) },
      length (rfc_text 4 0 foob),
    )
unfolding rfc_text
armor_line_break-rfc_text_example = armor_line_break-rfc_text 20 4 foob foob-IsBytes (omega arith)

armor_line_break-erange_example : armor_line_break 9 foob 4 ≡ err erange
unfolding text
armor_line_break-erange_example = armor_line_break-erange 9 4 foob foob-IsBytes (omega arith)

unarmor-armor_line_break_example :
    (armor_line_break 20 foob 4 >>= λ (d, n). unarmor 7 d.written)
    ≡ ok (record { written = foob; room = 7 - length foob }, length foob)
unfolding text
unarmor-armor_line_break_example =
    unarmor-armor_line_break 20 7 4 foob foob-IsBytes (omega arith) (omega arith)
