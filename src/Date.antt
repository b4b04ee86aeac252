-- ===== src/Date.antt =====
-- src/blogin/date.cpp and include/date.h: `Date`. The calendar is that of `std::chrono`: which dates
-- exist, and their weekdays, are a parameter. A year is a number, since the parsers read digits.
pub mod RoundTrip
use blogin.Common.{
  ℕ, zero, suc, ◌+◌, ◌-◌, ◌/◌, ◌%◌, ◌^◌, ◌≤◌, Bool, true, false, not, ◌||◌, ◌&&◌, Option, none,
  some, List, [], ◌∷◌, ◌++◌, ◌==◌, ltb, leb, if◌then◌else◌, length, get_or, Bytes, codes, byte_at,
  slice, ◌≡◌,
}
use blogin.Json.Writer.{decimal}
use blogin.Json.Parser.Values.{digits_value}
use blogin.Yaml.Scalars.{all_digits}

-- What `std::chrono` says of a date: `year_month_day::ok` and `weekday::iso_encoding`.
pub record Calendar : Type 0 where
  pub exists_date : ℕ → ℕ → ℕ → Bool
  pub iso_weekday : ℕ → ℕ → ℕ → ℕ

pub record Date : Type 0 where
  pub year : ℕ
  pub month : ℕ
  pub day : ℕ
  pub valid : Bool

abbrev pub month_names : List Bytes
month_names =
    codes "January"
    ∷ codes "February"
    ∷ codes "March"
    ∷ codes "April"
    ∷ codes "May"
    ∷ codes "June"
    ∷ codes "July"
    ∷ codes "August"
    ∷ codes "September"
    ∷ codes "October"
    ∷ codes "November"
    ∷ codes "December"
    ∷ []

abbrev pub weekday_names : List Bytes
weekday_names =
    codes "Monday"
    ∷ codes "Tuesday"
    ∷ codes "Wednesday"
    ∷ codes "Thursday"
    ∷ codes "Friday"
    ∷ codes "Saturday"
    ∷ codes "Sunday"
    ∷ []

-- `std::from_chars` for an `int`, on digits.
unfoldable pub to_int : Bytes → Option ℕ
to_int text =
    if not (all_digits text)
    then none
    else if ltb (digits_value 0 text) (2 ^ 31)
    then some (digits_value 0 text)
    else none

-- `{:0w}`: the digits with zeros in front, at least `width` of them.
unfoldable pub fixed_onto : ℕ → ℕ → Bytes → Bytes
fixed_onto zero n later = later
fixed_onto (suc width) n later = fixed_onto width (n / 10) ((n % 10 + b'0') ∷ later)

unfoldable pub padded_decimal : ℕ → ℕ → Bytes
unfolding fixed_onto
padded_decimal width n = if ltb n (10 ^ width) then fixed_onto width n [] else decimal n

unfoldable pub iso : Date → Bytes
iso date =
    if not date.valid
    then []
    else padded_decimal 4 date.year
      ++ (b'-' ∷ (padded_decimal 2 date.month ++ (b'-' ∷ padded_decimal 2 date.day)))

module _ (calendar : Calendar) where
  -- `Date::Date(int, unsigned, unsigned)`
  unfoldable pub new_date : ℕ → ℕ → ℕ → Date
  new_date year month day = record {
    year = year;
    month = month;
    day = day;
    valid = calendar.exists_date year month day;
  }

  unfoldable pub date_of : Option ℕ → Option ℕ → Option ℕ → Option Date
  date_of (some year) (some month) (some day) =
      let date = new_date year month day in if not date.valid then none else some date
  date_of _ _ _ = none

  unfoldable pub parse_ymd : Bytes → Option Date
  parse_ymd text =
      if ltb (length text) 10 || (not (byte_at text 4 == b'-') || not (byte_at text 7 == b'-'))
      then none
      else date_of (to_int (slice text 0 4)) (to_int (slice text 5 2)) (to_int (slice text 8 2))

  unfoldable pub parse_date : Bytes → Option Date
  parse_date text = if not (length text == 10) then none else parse_ymd text

  unfoldable pub parse_prefix : Bytes → Option Date
  parse_prefix text = parse_ymd text

  unfoldable pub weekday : Date → ℕ
  weekday date = calendar.iso_weekday date.year date.month date.day

  -- What a specifier stands for.
  unfoldable pub expand_specifier : Date → ℕ → Bytes
  expand_specifier date specifier =
      if specifier == b'Y'
      then padded_decimal 4 date.year
      else if specifier == b'm'
      then padded_decimal 2 date.month
      else if specifier == b'd'
      then padded_decimal 2 date.day
      else if specifier == b'e'
      then decimal date.day
      else if specifier == b'B'
      then get_or month_names (date.month - 1) []
      else if specifier == b'b'
      then slice (get_or month_names (date.month - 1) []) 0 3
      else if specifier == b'A'
      then get_or weekday_names (weekday date - 1) []
      else if specifier == b'a'
      then slice (get_or weekday_names (weekday date - 1) []) 0 3
      else if specifier == b'%'
      then b'%' ∷ []
      else b'%' ∷ specifier ∷ []

  -- The loop of `Date::format`.
  unfoldable pub format_pattern : Date → Bytes → Bytes
  format_pattern date [] = []
  format_pattern date (c ∷ []) = c ∷ []
  format_pattern date (c ∷ specifier ∷ cs) =
      let copied = c ∷ format_pattern date (specifier ∷ cs) in
      let expanded = expand_specifier date specifier ++ format_pattern date cs in
      if not (c == b'%') then copied else expanded

  unfoldable pub format_date : Date → Bytes → Bytes
  format_date date pattern_text = if not date.valid then [] else format_pattern date pattern_text
