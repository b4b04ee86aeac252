-- ===== src/Json/Writer/Numbers.antt =====
-- src/blogin/json.cpp: an integer as the writer prints it and the parser reads it.
use blogin.Common.{
  ℕ, zero, suc, ◌+◌, ◌-◌, ◌*◌, ◌/◌, ◌%◌, ◌^◌, ◌≤◌, ◌<◌, true, false, some, [], ◌∷◌, ltb, Bytes, ◌≡◌,
  ap, ◌∙◌, arith, Bool-cases, inl, inr,
}
use blogin.Value.{ℤ, pos, negsuc}
use blogin.Json.Writer.{decimal_onto, decimal, format_int}
use blogin.Json.Parser.Values.{digits_value, signed, int64_of, from_chars}

-- The digits are read back from the left.
digits_value-decimal_onto :
    (fuel n : ℕ) (later : Bytes)
    → n < fuel
    → digits_value 0 (decimal_onto fuel n later) ≡ digits_value n later
unfolding decimal_onto digits_value
digits_value-decimal_onto zero n later h = absurd (omega arith)
digits_value-decimal_onto (suc fuel) n later h = elim (Bool-cases (ltb n 10)) [
  | inl e ↦
      rw e (ap (λ x. digits_value x later) {x = 0 * 10 + (n % 10 + 48 - 48)} {y = n} (ground arith))
  | inr e ↦ rw e (
      digits_value-decimal_onto fuel (n / 10) ((n % 10 + 48) ∷ later) (ground arith)
      ∙ ap (λ x. digits_value x later) {x = n / 10 * 10 + (n % 10 + 48 - 48)} {y = n} (omega arith))
]

-- The first byte is no sign.
abbrev pub Unsigned : Bytes → Type 0
Unsigned text = (c : ℕ) × ((cs : Bytes) × ((text ≡ c ∷ cs) × (b'0' ≤ c)))

decimal_onto-Unsigned :
    (fuel n : ℕ) (later : Bytes) → n < fuel → Unsigned (decimal_onto fuel n later)
unfolding decimal_onto
decimal_onto-Unsigned zero n later h = absurd (omega arith)
decimal_onto-Unsigned (suc fuel) n later h = elim (Bool-cases (ltb n 10)) [
  | inl e ↦ (n % 10 + 48, (later, (rw e, omega arith)))
  | inr e ↦ rw e (decimal_onto-Unsigned fuel (n / 10) ((n % 10 + 48) ∷ later) (ground arith))
]

digits_value-decimal : (n : ℕ) → digits_value 0 (decimal n) ≡ n
unfolding decimal digits_value
digits_value-decimal n = digits_value-decimal_onto (n + 1) n [] (omega arith)

pub decimal-Unsigned : (n : ℕ) → Unsigned (decimal n)
unfolding decimal
decimal-Unsigned n = decimal_onto-Unsigned (n + 1) n [] (omega arith)

from_chars-Unsigned :
    (text : Bytes) → Unsigned text → from_chars text ≡ int64_of false (digits_value 0 text)
unfolding from_chars
from_chars-Unsigned text (c, (cs, (e, h))) = rw e (ground arith)

int64_of-pos : (n : ℕ) → n < 2 ^ 63 → int64_of false n ≡ some (pos n)
unfolding int64_of signed
int64_of-pos zero h = ground arith
int64_of-pos (suc n) h = ground arith

int64_of-negsuc : (n : ℕ) → n < 2 ^ 63 → int64_of true (suc n) ≡ some (negsuc n)
unfolding int64_of signed
int64_of-negsuc n h = ground arith

-- The numbers of an `std::int64_t`.
pub data FitsInt64 : ℤ → Type 0 where
  fits_pos : {n : ℕ} → n < 2 ^ 63 → FitsInt64 (pos n)
  fits_negsuc : {n : ℕ} → n < 2 ^ 63 → FitsInt64 (negsuc n)

-- An `std::int64_t` is read back by `from_chars` from the text that `format_int` prints for it.
pub from_chars-format_int : (n : ℤ) → FitsInt64 n → from_chars (format_int n) ≡ some n
unfolding from_chars format_int
from_chars-format_int (pos n) (fits_pos h) =
    from_chars-Unsigned (decimal n) (decimal-Unsigned n)
    ∙ (ap (int64_of false) (digits_value-decimal n) ∙ int64_of-pos n h)
from_chars-format_int (negsuc n) (fits_negsuc h) =
    ap (int64_of true) (digits_value-decimal (n + 1) ∙ (omega arith)) ∙ int64_of-negsuc n h
