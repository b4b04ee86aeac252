-- ===== src/Date/RoundTrip.antt =====
-- src/blogin/date.cpp: dates as text, and back.
use blogin.Common.{
  ℕ, ◌+◌, ◌/◌, ◌%◌, ◌<◌, true, Option, none, some, [], ◌∷◌, Bytes, codes, ◌≡◌, refl, arith,
  Bool-cases, inl, inr, append-nil,
}
use blogin.Json.Parser.Values.{digits_value}
use blogin.Yaml.Scalars.{all_digits}
use blogin.Date.{
  Calendar, Date, to_int, padded_decimal, iso, new_date, date_of, parse_ymd, parse_date,
  format_date, format_pattern, expand_specifier,
}

digit : ℕ → ℕ
digit n = n % 10 + b'0'

-- The texts that are read: four digits, two and two.
abbrev four : ℕ → Bytes
four n =
    (n / 10 / 10 / 10 % 10 + b'0')
    ∷ (n / 10 / 10 % 10 + b'0')
    ∷ (n / 10 % 10 + b'0')
    ∷ (n % 10 + b'0')
    ∷ []

abbrev two : ℕ → Bytes
two n = (n / 10 % 10 + b'0') ∷ (n % 10 + b'0') ∷ []

padded_four : (n : ℕ) → n < 10000 → padded_decimal 4 n ≡ four n
unfolding padded_decimal
padded_four n h = ground arith

padded_two : (n : ℕ) → n < 100 → padded_decimal 2 n ≡ two n
unfolding padded_decimal
padded_two n h = ground arith

to_int-four : (n : ℕ) → n < 10000 → to_int (four n) ≡ some n
unfolding to_int all_digits digits_value
to_int-four n h = ground arith

to_int-two : (n : ℕ) → n < 100 → to_int (two n) ≡ some n
unfolding to_int all_digits digits_value
to_int-two n h = ground arith

four-to_int :
    (a b c d n : ℕ) → to_int (a ∷ b ∷ c ∷ d ∷ []) ≡ some n → padded_decimal 4 n ≡ a ∷ b ∷ c ∷ d ∷ []
unfolding to_int all_digits digits_value padded_decimal
four-to_int a b c d n h = ground arith

two-to_int : (a b n : ℕ) → to_int (a ∷ b ∷ []) ≡ some n → padded_decimal 2 n ≡ a ∷ b ∷ []
unfolding to_int all_digits digits_value padded_decimal
two-to_int a b n h = ground arith

-- The parts of a date that was made.
abbrev MadeOf : Option ℕ → Option ℕ → Option ℕ → Date → Type 0
MadeOf year month day date =
    (year ≡ some date.year)
    × (month ≡ some date.month)
    × (day ≡ some date.day)
    × (date.valid ≡ true)

module _ (calendar : Calendar) where
  -- A date that exists, of a year below 10000, is read back from the text that `iso` gives for it.
  -- Its month and its day have two digits at most, as those of every date of the calendar.
  pub parse_date-iso :
      (year month day : ℕ)
      → year < 10000
      → month < 100
      → day < 100
      → calendar.exists_date year month day ≡ true
      → parse_date calendar (iso (new_date calendar year month day))
        ≡ some (new_date calendar year month day)
  unfolding parse_date iso new_date parse_ymd date_of
  parse_date-iso year month day y m d e =
      rw (e, padded_four year y, padded_two month m, padded_two day d)
        (rw (to_int-four year y, to_int-two month m, to_int-two day d, new_date, e) refl)

  date_of-MadeOf :
      (year month day : Option ℕ) (date : Date)
      → date_of calendar year month day ≡ some date
      → MadeOf year month day date
  unfolding date_of new_date
  date_of-MadeOf (some y) (some m) (some d) date h = ground arith
  date_of-MadeOf (some y) (some m) none date h = ground arith
  date_of-MadeOf (some y) none day date h = ground arith
  date_of-MadeOf none month day date h = ground arith

  parse_ymd-MadeOf :
      (a b c d e f g h i j : ℕ) (date : Date)
      → parse_ymd calendar (a ∷ b ∷ c ∷ d ∷ e ∷ f ∷ g ∷ h ∷ i ∷ j ∷ []) ≡ some date
      → (e ≡ b'-')
        × (h ≡ b'-')
        × MadeOf (to_int (a ∷ b ∷ c ∷ d ∷ [])) (to_int (f ∷ g ∷ [])) (to_int (i ∷ j ∷ [])) date
  unfolding parse_ymd
  parse_ymd-MadeOf a b c d e f g h i j date r = ground (
    arith,
    date_of-MadeOf (to_int (a ∷ b ∷ c ∷ d ∷ [])) (to_int (f ∷ g ∷ [])) (to_int (i ∷ j ∷ [])) date,
  )

  -- A text that is read is what `iso` gives for the date: nothing is rolled over or guessed.
  pub iso-parse_date :
      (text : Bytes) (date : Date) → parse_date calendar text ≡ some date → iso date ≡ text
  unfolding parse_date iso
  iso-parse_date (a ∷ b ∷ c ∷ d ∷ e ∷ f ∷ g ∷ h ∷ i ∷ j ∷ []) date r =
      let (dash, dash', (y, m, n, v)) = parse_ymd-MadeOf a b c d e f g h i j date r in
      rw
        (
          v,
          four-to_int a b c d date.year y,
          two-to_int f g date.month m,
          two-to_int i j date.day n,
          dash,
          dash',
        )
        refl
  iso-parse_date text date r = ground arith

  -- The pattern "%Y-%m-%d" gives the text of `iso`.
  pub format_date-iso : (date : Date) → format_date calendar date (codes "%Y-%m-%d") ≡ iso date
  unfolding format_date iso format_pattern expand_specifier
  format_date-iso date = elim (Bool-cases date.valid) [
    | inl v ↦ rw (v, append-nil (padded_decimal 2 date.day))
    | inr v ↦ rw v
  ]
