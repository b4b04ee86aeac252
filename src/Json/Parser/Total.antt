-- ===== src/Json/Parser/Total.antt =====
-- src/blogin/json.cpp: the fuel of `parse_json`, and the methods of `Parser` that it runs.
use Prim.Native.String.{String}
use blogin.Common.{
  ℕ, zero, suc, ◌+◌, ◌-◌, ◌*◌, ◌≤◌, ◌<◌, Bool, true, false, not, ◌&&◌, ◌||◌, Option, [], ◌∷◌, ◌==◌,
  ltb, if◌then◌else◌, is_empty, length, Bytes, codes, ◌≡◌, ◌⊎◌, refl, arith, Bool-cases, inl, inr,
  take,
}
use blogin.Value.{Value, object, array, end, nil, set, push}
use blogin.Json.Parser.{
  Parser, Outcome, ok, M, bind, ◌>>=◌, ◌>>◌, return, fail, finished, peek, past, advance,
  skip_whitespace, consume, consume_word, parse_string,
}
use blogin.Json.Parser.Values.{
  is_digit, digits_over, skip_digits, parse_fraction, skip_sign, parse_exponent, number_value,
  parse_number, parse_string_value, parse_word, separator, parse_key, key_at, opens, leave,
  max_depth, parse_value, members_loop, items_loop, parse_json, parser_of,
}
use blogin.Json.Parser.Ends.{
  Ends, Left, Ends-bind, Ends-if, Ends-mono, Left-mono, Consumed, past-rest, advance-Ends,
  skip_whitespace-Ends, consume-Ends, consume_word-Ends, parse_string-Ends, finished-false,
}

digits_over-Ends :
    (cs : Bytes) (p : Parser) (seen : Bool)
    → p.rest ≡ cs
    → Ends
        (λ found q.
          (length q.rest ≤ length p.rest)
          × (found ≡ true → (seen ≡ true) ⊎ (length q.rest < length p.rest)))
        (digits_over cs p seen)
unfolding digits_over
digits_over-Ends [] p seen e = (omega arith, λ t. inl t)
digits_over-Ends (c ∷ cs) p seen e = elim (Bool-cases (is_digit c)) [
  | inr other ↦ rw other (omega arith, λ t. inl t)
  | inl digit ↦
      let shorter : length (past c cs p).rest < length p.rest = rw (past-rest, e) (omega arith) in
      rw digit (
        Ends-mono _ _ (digits_over cs (past c cs p) true)
          (digits_over-Ends cs (past c cs p) true (past-rest c cs p))
          (λ found q h. (omega arith, λ t. inr (omega arith))))
]

skip_digits-Ends : (p : Parser) → Ends (Consumed p) (skip_digits p)
unfolding skip_digits
skip_digits-Ends p =
    Ends-mono _ (Consumed p) (digits_over p.rest p false) (digits_over-Ends p.rest p false refl)
      (λ found q h. (h.0, λ t. elim (h.1 t) [ inl f ↦ cc | inr lt ↦ omega arith ]))

-- `advance`, then digits, of which there must be one.
fraction_rest :
    (message : String) (n : ℕ) (q : Parser)
    → length q.rest ≤ n
    → Ends (Left n) (bind (skip_digits q) (λ seen. if not seen then fail message else return true))
fraction_rest message n q h =
    Ends-bind (Consumed q) (Left n) (skip_digits q) _ (skip_digits-Ends q)
      (λ seen r k. elim (Bool-cases seen) [ inl e ↦ rw e (omega arith) | inr e ↦ rw e tt ])

parse_fraction-Ends : (p : Parser) → Ends (Left (length p.rest)) (parse_fraction p)
unfolding parse_fraction
parse_fraction-Ends p =
    let n = length p.rest in
    Ends-if (Left n) (not (finished p) && peek p == b'.') _ _
      (λ e.
        Ends-bind (Left (n - 1)) (Left n) (advance p) _ (advance-Ends p)
          (λ a q h. fraction_rest "expected a digit after '.'" n q (omega arith)))
      (λ e. omega arith)

skip_sign-Ends : (p : Parser) → Ends (Left (length p.rest)) (skip_sign p)
unfolding skip_sign
skip_sign-Ends p =
    let n = length p.rest in
    Ends-if (Left n) (not (finished p) && (peek p == b'+' || peek p == b'-')) _ _
      (λ e. Ends-bind (Left (n - 1)) (Left n) (advance p) _ (advance-Ends p) (λ a q h. omega arith))
      (λ e. omega arith)

parse_exponent-Ends : (p : Parser) → Ends (Left (length p.rest)) (parse_exponent p)
unfolding parse_exponent
parse_exponent-Ends p =
    let n = length p.rest in
    Ends-if (Left n) (not (finished p) && (peek p == b'e' || peek p == b'E')) _ _
      (λ e. Ends-bind (Left (n - 1)) (Left n) (advance p) _ (advance-Ends p) (λ a q h.
        Ends-bind (Left (length q.rest)) (Left n) (skip_sign q) _ (skip_sign-Ends q)
          (λ b r k. fraction_rest "expected a digit in the exponent" n r (omega arith))))
      (λ e. omega arith)

after_comma-Ends :
    (close : ℕ) (trailing : String) (n : ℕ) (q : Parser)
    → length q.rest ≤ n
    → Ends (Left n) (
        (do
          skip_whitespace
          λ p. if not (finished p) && peek p == close then fail trailing p else ok true p)
          q)
after_comma-Ends close trailing n q h =
    Ends-bind (Left (length q.rest)) (Left n) (skip_whitespace q) _ (skip_whitespace-Ends q)
      (λ a r k.
        Ends-if (Left n) (not (finished r) && peek r == close) _ _ (λ f. tt) (λ f. omega arith))

at_close-Ends :
    (close : ℕ) (expected : String) (n : ℕ) (q : Parser)
    → length q.rest ≤ n
    → Ends
        (Left n)
        ((do closed ← consume close; (if closed then return false else fail expected)) q)
at_close-Ends close expected n q h =
    Ends-bind (Left (length q.rest)) (Left n) (consume close q) _ (consume-Ends close q)
      (λ closed r k. elim (Bool-cases closed) [ inl f ↦ rw f (omega arith) | inr f ↦ rw f tt ])

separator-Ends :
    (close : ℕ) (trailing expected : String) (p : Parser)
    → Ends (Left (length p.rest)) (separator close trailing expected p)
unfolding separator
separator-Ends close trailing expected p =
    let n = length p.rest in
    Ends-bind (Left n) (Left n) (consume b',' p) _ (consume-Ends b',' p) (λ comma q h.
      elim (Bool-cases comma) [
        | inl e ↦ rw e (after_comma-Ends close trailing n q h)
        | inr e ↦ rw e (at_close-Ends close expected n q h)
      ])

key_colon-Ends :
    (key : Bytes) (n : ℕ) (t : Parser)
    → length t.rest ≤ n
    → Ends (Left n) (
        (do
          colon ← consume b':'
          (if not colon then fail "expected ':' after a key" else (do skip_whitespace; return key)))
          t)
key_colon-Ends key n t h =
    Ends-bind (Left (length t.rest)) (Left n) (consume b':' t) _ (consume-Ends b':' t) (λ colon u m.
      elim (Bool-cases colon) [
        | inr g ↦ rw g tt
        | inl g ↦ rw g (
            Left-mono (length u.rest) n (omega arith) (bind (skip_whitespace u) (λ a. return key)) (
              Ends-bind (Left (length u.rest)) (Left (length u.rest)) (skip_whitespace u)
                (λ a. return key) (skip_whitespace-Ends u) (λ a v w. w)))
      ])

key_at-Ends : (q : Parser) → Ends (Left (length q.rest)) (key_at q)
unfolding key_at
key_at-Ends q =
    let n = length q.rest in
    Ends-if (Left n) (finished q) _ _ (λ e. tt)
      (λ e.
        Ends-if (Left n) (not (peek q == b'"')) _ _ (λ f. tt)
          (λ f.
            Ends-bind (Left (n - 1)) (Left n) (parse_string q) _ (parse_string-Ends q) (λ key r k.
              Ends-bind (Left (length r.rest)) (Left n) (skip_whitespace r) _
                (skip_whitespace-Ends r) (λ b t l. key_colon-Ends key n t (omega arith)))))

parse_key-Ends : (p : Parser) → Ends (Left (length p.rest)) (parse_key p)
unfolding parse_key
parse_key-Ends p =
    Ends-bind (Left (length p.rest)) (Left (length p.rest)) (skip_whitespace p) (λ a. key_at)
      (skip_whitespace-Ends p)
      (λ a q h. Left-mono (length q.rest) (length p.rest) h (key_at q) (key_at-Ends q))

-- `parse_number` takes a byte at least, since there is a digit.
module _ {D : Type 0} (to_double : Bytes → Option D) where
  number_value-Ends :
      (floating : Bool) (token : Bytes) (p : Parser)
      → Ends (Left (length p.rest)) (number_value to_double floating token p)
  unfolding number_value
  number_value-Ends floating token p = ground arith

  number_rest-Ends :
      (start : Bytes) (n : ℕ) (p : Parser)
      → length p.rest ≤ n
      → Ends (Left n) (
          (do
            fraction ← parse_fraction
            exponent ← parse_exponent
            λ q.
                number_value to_double
                  (fraction || exponent)
                  (take (length start - length q.rest) start)
                  q)
            p)
  number_rest-Ends start n p h =
      Ends-bind (Left (length p.rest)) (Left n) (parse_fraction p) _ (parse_fraction-Ends p)
        (λ fraction q k.
          Ends-bind (Left (length q.rest)) (Left n) (parse_exponent q) _ (parse_exponent-Ends q)
            (λ exponent r l.
              Left-mono (length r.rest) n (omega arith)
                (number_value to_double (fraction || exponent)
                  (take (length start - length r.rest) start) r)
                (number_value-Ends (fraction || exponent)
                  (take (length start - length r.rest) start) r)))

  parse_number-Ends : (p : Parser) → Ends (Left (length p.rest - 1)) (parse_number to_double p)
  unfolding parse_number
  parse_number-Ends p =
      let n = length p.rest in
      Ends-bind (Left n) (Left (n - 1))
        (if not (finished p) && peek p == b'-' then (do advance; return tt) p else ok tt p) _
        (Ends-if (Left n) (not (finished p) && peek p == b'-') _ _
          (λ e.
            Ends-bind (Left (n - 1)) (Left n) (advance p) _ (advance-Ends p) (λ a q h. omega arith))
          (λ e. omega arith))
        (λ a q h.
          Ends-bind (Consumed q) (Left (n - 1)) (skip_digits q) _ (skip_digits-Ends q) (λ seen r k.
            elim (Bool-cases seen) [
              | inr e ↦ rw e tt
              | inl e ↦ rw e (number_rest-Ends p.rest (n - 1) r (omega (arith, k.1 e)))
            ]))

  parse_word-Ends :
      (word : Bytes) (value : Value D) (message : String) (p : Parser)
      → 0 < length word
      → Ends (Left (length p.rest - 1)) (parse_word word value message p)
  unfolding parse_word
  parse_word-Ends word value message p h =
      Ends-bind (Consumed p) (Left (length p.rest - 1)) (consume_word word p) _
        (consume_word-Ends word p h)
        (λ found q k. elim (Bool-cases found) [ inl e ↦ rw e (k.1 e) | inr e ↦ rw e tt ])

abbrev Shorter : {A : Type 0} → ℕ → A → Parser → Type 0
Shorter n a q = length q.rest < n

-- What is common to the loops: from the end of an element on.
module _ {D : Type 0} (n close : ℕ) (trailing expected : String) (found : Value D)
    (again : M (Value D)) where
  abbrev next_round : M (Value D)
  next_round = do
    skip_whitespace
    more ← separator close trailing expected
    (if more then again else return found)

  next_round-Ends :
      (q : Parser)
      → length q.rest ≤ n
      → ((r : Parser) → length r.rest ≤ n → Ends (Left n) (again r))
      → Ends (Left n) (next_round q)
  next_round-Ends q h k =
      Ends-bind (Left (length q.rest)) (Left n) (skip_whitespace q) _ (skip_whitespace-Ends q)
        (λ a r l.
          Ends-bind (Left (length r.rest)) (Left n) (separator close trailing expected r) _
            (separator-Ends close trailing expected r)
            (λ more t m. elim (Bool-cases more) [
              | inl e ↦ rw e (k t (omega arith))
              | inr e ↦ rw e (omega arith)
            ]))

-- An opening bracket, and the loop unless the closing one follows.
module _ {D : Type 0} (close : ℕ) (empty : Value D) (loop : M (Value D)) where
  abbrev bracketed : M (Value D)
  bracketed = do
    advance
    skip_whitespace
    closed ← consume close
    (if closed then return empty else loop)

  bracketed-Ends :
      (p : Parser)
      → 0 < length p.rest
      → ((r : Parser)
          → length r.rest ≤ length p.rest - 1
          → Ends (Left (length p.rest - 1)) (loop r))
      → Ends (Left (length p.rest - 1)) (bracketed p)
  bracketed-Ends p h k =
      let n = length p.rest - 1 in
      Ends-bind (Left n) (Left n) (advance p) _ (advance-Ends p) (λ a q i.
        Ends-bind (Left (length q.rest)) (Left n) (skip_whitespace q) _ (skip_whitespace-Ends q)
          (λ b r j.
            Ends-bind (Left (length r.rest)) (Left n) (consume close r) _ (consume-Ends close r)
              (λ closed t l. elim (Bool-cases closed) [
                | inl e ↦ rw e (omega arith)
                | inr e ↦ rw e (k t (omega arith))
              ])))

Left-Shorter :
    {A : Type 0} (n : ℕ) (o : Outcome A) → 0 < n → Ends (Left (n - 1)) o → Ends (Shorter n) o
Left-Shorter n o h k = Ends-mono (Left (n - 1)) (Shorter n) o k (λ a q l. omega arith)

leave-Ends :
    {D : Type 0} (n : ℕ) (o : Outcome (Value D))
    → 0 < n
    → Ends (Left (n - 1)) o
    → Ends (Shorter n) (bind o leave)
leave-Ends n o h k = Ends-bind (Left (n - 1)) (Shorter n) o leave k (λ a q l. omega arith)

parse_string_value-Ends :
    (D : Type 0) (p : Parser) → Ends (Left (length p.rest - 1)) (parse_string_value {D = D} p)
unfolding parse_string_value
parse_string_value-Ends D p =
    Ends-bind (Left (length p.rest - 1)) (Left (length p.rest - 1)) (parse_string p) _
      (parse_string-Ends p) (λ a q h. h)

-- The cases of `parse_value`, from those of the two loops.
module _ {D : Type 0} (to_double : Bytes → Option D) (fuel : ℕ) (p : Parser) where
  abbrev LoopEnds : M (Value D) → Type 0
  LoopEnds loop =
      (r : Parser)
      → 0 < length p.rest
      → length r.rest ≤ length p.rest - 1
      → Ends (Left (length p.rest - 1)) (loop r)

  value_step-Ends :
      LoopEnds (members_loop to_double fuel (object end))
      → LoopEnds (items_loop to_double fuel (array nil))
      → Ends (Shorter (length p.rest)) (parse_value to_double (suc fuel) p)
  unfolding parse_value
  value_step-Ends ms xs =
      let n = length p.rest in
      let P = Shorter {A = Value D} n in
      Ends-if P (finished p) _ _ (λ e. tt)
        (λ e.
          let some_left = finished-false p e in
          Ends-if P (opens p) _ _
            (λ f.
              Ends-if P (ltb max_depth (p.depth + 1)) _ _ (λ g. tt)
                (λ g.
                  let deeper = record p { depth = p.depth + 1 } in
                  elim (Bool-cases (peek p == b'{')) [
                    | inl i ↦ rw i (
                        leave-Ends n
                          (bracketed b'}' (object end) (members_loop to_double fuel (object end))
                            deeper)
                          some_left
                          (bracketed-Ends b'}' (object end)
                            (members_loop to_double fuel (object end)) deeper some_left
                            (λ r l. ms r some_left l)))
                    | inr i ↦ rw i (
                        leave-Ends n
                          (bracketed b']' (array nil) (items_loop to_double fuel (array nil))
                            deeper)
                          some_left
                          (bracketed-Ends b']' (array nil) (items_loop to_double fuel (array nil))
                            deeper some_left (λ r l. xs r some_left l)))
                  ]))
            (λ f.
              Ends-if P (peek p == b'"') _ _
                (λ g. Left-Shorter n _ some_left (parse_string_value-Ends D p))
                (λ g.
                  Ends-if P (peek p == b't') _ _
                    (λ i.
                      Left-Shorter n _ some_left
                        (parse_word-Ends to_double (codes "true") _ _ p (omega arith)))
                    (λ i.
                      Ends-if P (peek p == b'f') _ _
                        (λ j.
                          Left-Shorter n _ some_left
                            (parse_word-Ends to_double (codes "false") _ _ p (omega arith)))
                        (λ j.
                          Ends-if P (peek p == b'n') _ _
                            (λ l.
                              Left-Shorter n _ some_left
                                (parse_word-Ends to_double (codes "null") _ _ p (omega arith)))
                            (λ l. Left-Shorter n _ some_left (parse_number-Ends to_double p)))))))

-- The fuel for a value is more than twice the bytes left, and for a loop one more.
mutual
  unfolding parse_value

  value-Ends :
      {D : Type 0} (to_double : Bytes → Option D) (fuel : ℕ) (p : Parser)
      → 2 * length p.rest < fuel
      → Ends (Shorter (length p.rest)) (parse_value to_double fuel p)
  value-Ends to_double zero p h = absurd (omega arith)
  value-Ends to_double (suc fuel) p h =
      value_step-Ends to_double fuel p
        (λ r k l.
          Left-mono (length r.rest) (length p.rest - 1) l
            (members_loop to_double fuel (object end) r)
            (members-Ends to_double fuel (object end) r (omega arith)))
        (λ r k l.
          Left-mono (length r.rest) (length p.rest - 1) l (items_loop to_double fuel (array nil) r)
            (items-Ends to_double fuel (array nil) r (omega arith)))

  members-Ends :
      {D : Type 0} (to_double : Bytes → Option D) (fuel : ℕ) (found : Value D) (p : Parser)
      → 2 * length p.rest + 1 < fuel
      → Ends (Left (length p.rest)) (members_loop to_double fuel found p)
  members-Ends to_double zero found p h = absurd (omega arith)
  members-Ends to_double (suc fuel) found p h =
      let n = length p.rest in
      Ends-bind (Left n) (Left n) (parse_key p) _ (parse_key-Ends p) (λ key q l.
        Ends-bind (Shorter (length q.rest)) (Left n) (parse_value to_double fuel q) _
          (value-Ends to_double fuel q (omega arith))
          (λ item r m. Left-mono (length r.rest) n (omega arith) _ (
            next_round-Ends (length r.rest) b'}' _ _ (set found key item)
              (members_loop to_double fuel (set found key item)) r (omega arith)
              (λ t k.
                Left-mono (length t.rest) (length r.rest) k _
                  (members-Ends to_double fuel (set found key item) t (omega arith))))))

  items-Ends :
      {D : Type 0} (to_double : Bytes → Option D) (fuel : ℕ) (found : Value D) (p : Parser)
      → 2 * length p.rest + 1 < fuel
      → Ends (Left (length p.rest)) (items_loop to_double fuel found p)
  items-Ends to_double zero found p h = absurd (omega arith)
  items-Ends to_double (suc fuel) found p h =
      let n = length p.rest in
      Ends-bind (Left n) (Left n) (skip_whitespace p) _ (skip_whitespace-Ends p) (λ a q l.
        Ends-bind (Shorter (length q.rest)) (Left n) (parse_value to_double fuel q) _
          (value-Ends to_double fuel q (omega arith))
          (λ item r m. Left-mono (length r.rest) n (omega arith) _ (
            next_round-Ends (length r.rest) b']' _ _ (push found item)
              (items_loop to_double fuel (push found item)) r (omega arith)
              (λ t k.
                Left-mono (length t.rest) (length r.rest) k _
                  (items-Ends to_double fuel (push found item) t (omega arith))))))

is_empty-nil : (cs : Bytes) → not (is_empty cs) ≡ false → cs ≡ []
is_empty-nil [] e = refl
is_empty-nil (c ∷ cs) e = cc

nothing_left :
    {D : Type 0} (v : Value D) (t : Parser)
    → Ends
        (λ v q. q.rest ≡ [])
        (if not (finished t) then fail "unexpected trailing content" t else ok v t)
nothing_left v t =
    Ends-if (λ v q. q.rest ≡ []) (not (finished t)) _ _ (λ e. tt) (λ e. is_empty-nil t.rest e)

-- `parse_json` returns a value, with nothing left unread, or an error, on every text: the fuel
-- that it takes is enough.
pub parse_json-Ends :
    {D : Type 0} (to_double : Bytes → Option D) (text : Bytes)
    → Ends (λ v q. q.rest ≡ []) (parse_json to_double text)
unfolding parse_json
parse_json-Ends to_double text =
    let start = parser_of text in
    Ends-bind (Left (length text)) _ (skip_whitespace start) _ (skip_whitespace-Ends start)
      (λ a q h.
        Ends-bind (Shorter (length q.rest)) _ (parse_value to_double (2 * length text + 1) q) _
          (value-Ends to_double (2 * length text + 1) q (omega arith))
          (λ v r k.
            Ends-bind (Left (length r.rest)) _ (skip_whitespace r) _ (skip_whitespace-Ends r)
              (λ b t l. nothing_left v t)))
