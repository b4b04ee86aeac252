-- ===== src/Text/Case.antt =====
-- src/blogin/text.cpp: `to_lower_ascii` and `to_upper_ascii`.
use blogin.Common.{ℕ, [], ◌∷◌, ◌≡◌, refl, ap₂, arith, Bytes}
use blogin.Text.{lower_byte, upper_byte, to_lower_ascii, to_upper_ascii}

lower_byte_idem : (c : ℕ) → lower_byte (lower_byte c) ≡ lower_byte c
unfolding lower_byte
lower_byte_idem c = ground arith

lower_byte-upper_byte : (c : ℕ) → lower_byte (upper_byte c) ≡ lower_byte c
unfolding lower_byte upper_byte
lower_byte-upper_byte c = ground arith

-- A second conversion to lower case changes nothing.
pub to_lower_ascii_idem :
    (text : Bytes) → to_lower_ascii (to_lower_ascii text) ≡ to_lower_ascii text
unfolding to_lower_ascii
to_lower_ascii_idem [] = refl
to_lower_ascii_idem (c ∷ cs) = ap₂ ◌∷◌ (lower_byte_idem c) (to_lower_ascii_idem cs)

-- Conversion to lower case forgets a conversion to upper case.
pub to_lower_ascii-to_upper_ascii :
    (text : Bytes) → to_lower_ascii (to_upper_ascii text) ≡ to_lower_ascii text
unfolding to_lower_ascii to_upper_ascii
to_lower_ascii-to_upper_ascii [] = refl
to_lower_ascii-to_upper_ascii (c ∷ cs) =
    ap₂ ◌∷◌ (lower_byte-upper_byte c) (to_lower_ascii-to_upper_ascii cs)
