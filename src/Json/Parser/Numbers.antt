-- ===== src/Json/Parser/Numbers.antt =====
-- src/blogin/json.cpp: `parse_number` on an integer that the writer prints.
use blogin.Common.{
  ℕ, zero, suc, ◌+◌, ◌-◌, ◌%◌, ◌/◌, Bool, true, false, not, ◌&&◌, ◌||◌, Option, some, none, [], ◌∷◌,
  ◌++◌, ◌==◌, ltb, if◌then◌else◌, is_empty, byte_at, length, take, Bytes, All, ◌≡◌, refl, ap, sym,
  ◌∙◌, subst, arith, Bool-cases, inl, inr, length-append, take-append_left,
}
use blogin.Value.{ℤ, pos, negsuc, Value, integer, number}
use blogin.Json.Writer.{decimal_onto, decimal, format_int}
use blogin.Json.Writer.Numbers.{FitsInt64, from_chars-format_int, decimal-Unsigned}
use blogin.Json.Parser.{
  Parser, Outcome, M, ok, bind, ◌>>=◌, ◌>>◌, finished, peek, past, advance, return, fail,
}
use blogin.Json.Parser.Ends.{past-rest}
use blogin.Json.Parser.Depths.{past-depth}
use blogin.Json.Parser.Values.{
  is_digit, digits_over, skip_digits, parse_fraction, parse_exponent, number_value, from_chars,
  parse_number,
}

-- The text does not go on with a byte that belongs to a number.
abbrev pub NumberEnds : Bytes → Type 0
NumberEnds [] = Unit {0}
NumberEnds (c ∷ cs) = (is_digit c || (c == b'.' || (c == b'e' || c == b'E'))) ≡ false

-- The outcome is the result, with `rest` left unread, at the depth given.
abbrev pub Gives : {A : Type 0} → A → Bytes → ℕ → Outcome A → Type 0
Gives a rest depth outcome =
    (q : Parser) × ((outcome ≡ ok a q) × ((q.rest ≡ rest) × (q.depth ≡ depth)))

abbrev pub AllDigits : Bytes → Type 0
AllDigits text = All (λ c. is_digit c ≡ true) text

decimal_onto-AllDigits :
    (fuel n : ℕ) (later : Bytes) → AllDigits later → AllDigits (decimal_onto fuel n later)
unfolding decimal_onto
decimal_onto-AllDigits zero n later a = a
decimal_onto-AllDigits (suc fuel) n later a =
    let digit : is_digit (n % 10 + b'0') ≡ true = ground arith in
    elim (Bool-cases (ltb n 10)) [
      | inl e ↦ rw e (digit, a)
      | inr e ↦ rw e (decimal_onto-AllDigits fuel (n / 10) ((n % 10 + b'0') ∷ later) (digit, a))
    ]

digits_over-AllDigits :
    (digits rest : Bytes) (p : Parser) (seen : Bool)
    → AllDigits digits
    → NumberEnds rest
    → p.rest ≡ digits ++ rest
    → (q : Parser) × ((digits_over (digits ++ rest) p seen ≡ ok (seen || not (is_empty digits)) q)
        × ((q.rest ≡ rest) × (q.depth ≡ p.depth)))
unfolding digits_over
digits_over-AllDigits [] [] p false a s e = (p, (refl, (e, refl)))
digits_over-AllDigits [] [] p true a s e = (p, (refl, (e, refl)))
digits_over-AllDigits [] (c ∷ cs) p false a s e = (p, (ground arith, (e, refl)))
digits_over-AllDigits [] (c ∷ cs) p true a s e = (p, (ground arith, (e, refl)))
digits_over-AllDigits (d ∷ ds) rest p seen (h, a) s e =
    let (q, (r, (f, g))) =
      digits_over-AllDigits ds rest (past d (ds ++ rest) p) true a s (past-rest d (ds ++ rest) p) in
    (q, (rw h r ∙ ap (λ b. ok b q) (seen_one seen), (f, g ∙ past-depth d (ds ++ rest) p)))
  where
    seen_one : (b : Bool) → true ≡ b || true
    seen_one true = refl
    seen_one false = refl

skip_digits-AllDigits :
    (digits rest : Bytes) (p : Parser)
    → AllDigits digits
    → is_empty digits ≡ false
    → NumberEnds rest
    → p.rest ≡ digits ++ rest
    → Gives true rest p.depth (skip_digits p)
unfolding skip_digits
skip_digits-AllDigits digits rest p a n s e =
    let (q, (r, g)) = digits_over-AllDigits digits rest p false a s e in
    (q, (ap (λ t. digits_over t p false) e ∙ (r ∙ ap (λ (b : Bool). ok (not b) q) n), g))

-- `.`, `e` or `E` is not what follows.
not_next :
    (rest : Bytes)
    → NumberEnds rest
    → ((not (is_empty rest) && byte_at rest 0 == b'.') ≡ false)
      × ((not (is_empty rest) && (byte_at rest 0 == b'e' || byte_at rest 0 == b'E')) ≡ false)
not_next [] s = (refl, refl)
not_next (c ∷ cs) s = (ground arith, ground arith)

parse_fraction-absent : (q : Parser) → NumberEnds q.rest → parse_fraction q ≡ ok false q
unfolding parse_fraction
parse_fraction-absent q s = rw ((not_next q.rest s).0) refl

parse_exponent-absent : (q : Parser) → NumberEnds q.rest → parse_exponent q ≡ ok false q
unfolding parse_exponent
parse_exponent-absent q s = rw ((not_next q.rest s).1) refl

-- The optional minus in front of the digits.
abbrev over_minus : M (Unit {0})
over_minus p = if not (finished p) && peek p == b'-' then (do advance; return tt) p else ok tt p

pub decimal-AllDigits : (n : ℕ) → AllDigits (decimal n)
unfolding decimal
decimal-AllDigits n = decimal_onto-AllDigits (n + 1) n [] tt

skip_digits-decimal :
    (n : ℕ) (rest : Bytes) (p : Parser)
    → NumberEnds rest
    → p.rest ≡ decimal n ++ rest
    → Gives true rest p.depth (skip_digits p)
skip_digits-decimal n rest p s e =
    let (c, (cs, (d, h))) = decimal-Unsigned n in
    skip_digits-AllDigits (decimal n) rest p (decimal-AllDigits n) (ap (λ t. is_empty t) d) s e

no_minus : (n : ℕ) (rest : Bytes) (p : Parser) → p.rest ≡ decimal n ++ rest → over_minus p ≡ ok tt p
no_minus n rest p e =
    let (c, (cs, (d, h))) = decimal-Unsigned n in
    let first : (not (finished p) && peek p == b'-') ≡ false =
      ap (λ t. not (is_empty t) && byte_at t 0 == b'-') (e ∙ ap (λ t. t ++ rest) d)
      ∙ ground arith in
    rw first refl

minus_over :
    (text : Bytes) (p : Parser)
    → p.rest ≡ b'-' ∷ text
    → over_minus p ≡ ok tt (record p { rest = text; column = p.column + 1 })
unfolding advance past
minus_over text p e = ap (λ t. over_minus (record p { rest = t })) e

take-token :
    (text token rest unread : Bytes)
    → text ≡ token ++ rest
    → unread ≡ rest
    → take (length text - length unread) text ≡ token
take-token text token rest unread e f =
    ap (λ t. take (length t - length unread) t) e
    ∙ (ap (λ k. take k (token ++ rest)) {x = length (token ++ rest) - length unread}
          {y = length token} (omega (arith, length-append token rest, ap (λ t. length t) f))
        ∙ take-append_left token rest)

module _ {D : Type 0} (to_double : Bytes → Option D) where
  -- The steps of `parse_number` from the digits and from the fraction on.
  abbrev from_exponent : Parser → Bool → Bool → M (Value D)
  from_exponent start fraction exponent p =
      number_value to_double (fraction || exponent)
        (take (length start.rest - length p.rest) start.rest) p

  abbrev from_fraction : Parser → Bool → M (Value D)
  from_fraction start any_digits =
      if not any_digits
      then fail "expected a value"
      else (parse_fraction >>= λ fraction.
          parse_exponent >>= λ exponent. from_exponent start fraction exponent)

  parse_number-token :
      (start p q : Parser) (token rest : Bytes) (n : ℤ)
      → over_minus start ≡ ok tt p
      → skip_digits p ≡ ok true q
      → start.rest ≡ token ++ rest
      → q.rest ≡ rest
      → NumberEnds rest
      → from_chars token ≡ some n
      → parse_number to_double start ≡ ok (integer n) q
  unfolding parse_number number_value
  parse_number-token start p q token rest n minus digits e f s read =
      let ends : NumberEnds q.rest = subst NumberEnds (sym f) s in
      ap (λ o. bind o (λ u. skip_digits >>= from_fraction start)) minus
      ∙ (ap (λ o. bind o (from_fraction start)) digits
          ∙ (ap
                (λ o. bind o (λ fraction.
                  parse_exponent >>= λ exponent. from_exponent start fraction exponent))
                (parse_fraction-absent q ends)
              ∙ (ap (λ o. bind o (from_exponent start false)) (parse_exponent-absent q ends)
                  ∙ (ap (λ t. number_value to_double false t q)
                        (take-token start.rest token rest q.rest e f)
                      ∙ read_as (from_chars token) read))))
    where
      read_as :
          (o : Option ℤ)
          → o ≡ some n
          → elim o as (λ x. Outcome (Value D)) [
            | some m ↦ ok (integer m) q
            | none ↦ elim (to_double token) [
              | none ↦ fail "number out of range" q
              | some x ↦ ok (number x) q
            ]
          ]
            ≡ ok (integer n) q
      read_as none h = absurd (ground arith)
      read_as (some m) h = ap (λ k. ok (integer k) q) (ground arith)

  -- An `std::int64_t` that the writer prints is read back by `parse_number` as that integer, whatever
  -- follows it that is no digit, point or exponent; nothing more is read and the depth stays.
  pub parse_number-format_int :
      (n : ℤ) (rest : Bytes) (p : Parser)
      → FitsInt64 n
      → NumberEnds rest
      → p.rest ≡ format_int n ++ rest
      → Gives (integer n) rest p.depth (parse_number to_double p)
  unfolding format_int
  parse_number-format_int (pos k) rest p fits s e =
      let (q, (r, (f, g))) = skip_digits-decimal k rest p s e in
      (
        q,
        (
          parse_number-token p p q (decimal k) rest (pos k) (no_minus k rest p e) r e f s
              (from_chars-format_int (pos k) fits),
          (f, g),
        ),
      )
  parse_number-format_int (negsuc k) rest p fits s e =
      let behind = record p { rest = decimal (k + 1) ++ rest; column = p.column + 1 } in
      let (q, (r, (f, g))) = skip_digits-decimal (k + 1) rest behind s refl in
      (
        q,
        (
          parse_number-token p behind q (b'-' ∷ decimal (k + 1)) rest (negsuc k)
              (minus_over (decimal (k + 1) ++ rest) p e) r e f s
              (from_chars-format_int (negsuc k) fits),
          (f, g),
        ),
      )
