-- ===== src/Json/Parser/Ends.antt =====
-- src/blogin/json.cpp: each method of `Parser` up to a string ends, and what it leaves unread.
use Prim.Native.Nat.{bit_or, ◌^◌}
use blogin.Common.{
  ℕ, zero, suc, ◌+◌, ◌-◌, ◌*◌, ◌≤◌, ◌<◌, Bool, true, false, not, ◌&&◌, ◌||◌, [], ◌∷◌, ◌++◌, ◌==◌,
  ltb, if◌then◌else◌, is_empty, within, length, Bytes, ◌≡◌, refl, arith, Bool-cases, Option-cases,
  inl, inr, starts_with,
}
use blogin.Json.Parser.{
  Parser, Outcome, ok, err, stuck, M, bind, return, finished, peek, past, advance, is_blank,
  skip_over, skip_whitespace, consume, consume_word, parse_string, advance_over, advance_by,
  hex4_loop, hex_digit, parse_hex4, append_pair, pair_follows, append_utf8,
  append_escaped_code_point, short_escape, parse_escape, string_loop,
}

-- The outcome is a result that satisfies `P`, or an error; fuel did not run out.
abbrev pub Ends : {A : Type 0} → (A → Parser → Type 0) → Outcome A → Type 0
Ends P (ok a q) = P a q
Ends P (err e) = Unit {0}
Ends P stuck = ⊥

-- At most so many bytes are left.
abbrev pub Left : {A : Type 0} → ℕ → A → Parser → Type 0
Left n a q = length q.rest ≤ n

pub Ends-bind :
    {A B : Type 0} (P : A → Parser → Type 0) (Q : B → Parser → Type 0) (o : Outcome A) (f : A → M B)
    → Ends P o
    → ((a : A) (q : Parser) → P a q → Ends Q (f a q))
    → Ends Q (bind o f)
Ends-bind P Q (ok a q) f h k = k a q h
Ends-bind P Q (err e) f h k = tt
Ends-bind P Q stuck f h k = h

pub Ends-if :
    {A : Type 0} (P : A → Parser → Type 0) (b : Bool) (x y : Outcome A)
    → (b ≡ true → Ends P x)
    → (b ≡ false → Ends P y)
    → Ends P (if b then x else y)
Ends-if P true x y h k = h refl
Ends-if P false x y h k = k refl

pub Ends-mono :
    {A : Type 0} (P Q : A → Parser → Type 0) (o : Outcome A)
    → Ends P o
    → ((a : A) (q : Parser) → P a q → Q a q)
    → Ends Q o
Ends-mono P Q (ok a q) h k = k a q h
Ends-mono P Q (err e) h k = tt
Ends-mono P Q stuck h k = h

pub Left-mono : {A : Type 0} (m n : ℕ) → m ≤ n → (o : Outcome A) → Ends (Left m) o → Ends (Left n) o
Left-mono m n h o k = Ends-mono (Left m) (Left n) o k (λ a q l. omega arith)

pub past-rest : (c : ℕ) (cs : Bytes) (p : Parser) → (past c cs p).rest ≡ cs
unfolding past
past-rest c cs p = ground arith

advance_over-Ends :
    (cs : Bytes) (p : Parser) → p.rest ≡ cs → Ends (Left (length cs - 1)) (advance_over cs p)
unfolding advance_over
advance_over-Ends [] p e = rw e (omega arith)
advance_over-Ends (c ∷ cs) p e = rw past-rest (omega arith)

pub advance-Ends : (p : Parser) → Ends (Left (length p.rest - 1)) (advance p)
unfolding advance
advance-Ends p = advance_over-Ends p.rest p refl

skip_over-Left : (cs : Bytes) (p : Parser) → p.rest ≡ cs → length (skip_over cs p).rest ≤ length cs
unfolding skip_over
skip_over-Left [] p e = rw e (omega arith)
skip_over-Left (c ∷ cs) p e = elim (Bool-cases (is_blank c)) [
  | inl blank ↦ rw blank (omega (arith, skip_over-Left cs (past c cs p) (past-rest c cs p)))
  | inr other ↦ rw (other, e) (omega arith)
]

pub skip_whitespace-Ends : (p : Parser) → Ends (Left (length p.rest)) (skip_whitespace p)
unfolding skip_whitespace
skip_whitespace-Ends p = skip_over-Left p.rest p refl

pub consume-Ends : (c : ℕ) (p : Parser) → Ends (Left (length p.rest)) (consume c p)
unfolding consume
consume-Ends c p =
    Ends-if (Left (length p.rest)) (finished p || not (peek p == c)) _ _ (λ h. omega arith)
      (λ h.
        Ends-bind (Left (length p.rest - 1)) (Left (length p.rest)) (advance p) _ (advance-Ends p)
          (λ a q k. omega arith))

-- A byte is left.
abbrev pub Unfinished : Parser → Type 0
Unfinished p = 0 < length p.rest

pub finished-false : (p : Parser) → finished p ≡ false → Unfinished p
finished-false p h = nonempty p.rest h
  where
    nonempty : (cs : Bytes) → is_empty cs ≡ false → 0 < length cs
    nonempty [] e = cc
    nonempty (c ∷ cs) e = omega arith

advance_by-Ends :
    (rounds : ℕ) (p : Parser) → Ends (Left (length p.rest - rounds)) (advance_by rounds p)
unfolding advance_by
advance_by-Ends zero p = omega arith
advance_by-Ends (suc rounds) p =
    Ends-bind (Left (length p.rest - 1)) _ (advance p) _ (advance-Ends p) (λ a q k.
      Left-mono (length q.rest - rounds) _ (omega arith) (advance_by rounds q)
        (advance_by-Ends rounds q))

hex4_loop-Ends :
    (rounds value : ℕ) (p : Parser) → Ends (Left (length p.rest)) (hex4_loop rounds value p)
unfolding hex4_loop
hex4_loop-Ends zero value p = omega arith
hex4_loop-Ends (suc rounds) value p =
    Ends-bind (Left (length p.rest - 1)) _ (advance p) _ (advance-Ends p) (λ c q k.
      elim (Option-cases (hex_digit c)) [
        | inl n ↦ rw n tt
        | inr (d, s) ↦ rw s (
            Left-mono (length q.rest) (length p.rest) (omega arith)
              (hex4_loop rounds (bit_or (value * 2 ^ 4) d) q) (hex4_loop-Ends rounds _ q))
      ])

parse_hex4-Ends : (p : Parser) → Ends (Left (length p.rest)) (parse_hex4 p)
unfolding parse_hex4
parse_hex4-Ends p =
    Ends-if (Left (length p.rest)) (ltb (length p.rest) 4) _ _ (λ h. tt) (λ h. hex4_loop-Ends 4 0 p)

append_pair-Ends :
    (out : Bytes) (value : ℕ) (p : Parser) → Ends (Left (length p.rest)) (append_pair out value p)
unfolding append_pair
append_pair-Ends out value p =
    let n = length p.rest in
    Ends-bind (Left (n - 1)) (Left n) (advance p) _ (advance-Ends p) (λ a q h.
      Ends-bind (Left (length q.rest - 1)) (Left n) (advance q) _ (advance-Ends q) (λ b r k.
        Ends-bind (Left (length r.rest)) (Left n) (parse_hex4 r) _ (parse_hex4-Ends r)
          (λ low t m. pair_result out value low t n (omega arith))))
  where
    pair_result :
        (out : Bytes) (value low : ℕ) (t : Parser) (n : ℕ)
        → length t.rest ≤ n
        → Ends (Left n) (
            (if within 0xDC00 0xDFFF low
                then return (append_utf8 out (0x10000 + (value - 0xD800) * 2 ^ 10 + (low - 0xDC00)))
                else return (append_utf8 (append_utf8 out value) low))
              t)
    pair_result out value low t n h = elim (Bool-cases (within 0xDC00 0xDFFF low)) [
      | inl e ↦ rw e h
      | inr e ↦ rw e h
    ]

append_escaped_code_point-Ends :
    (out : Bytes) (p : Parser) → Ends (Left (length p.rest)) (append_escaped_code_point out p)
unfolding append_escaped_code_point
append_escaped_code_point-Ends out p =
    let n = length p.rest in
    Ends-bind (Left n) (Left n) (parse_hex4 p) _ (parse_hex4-Ends p) (λ value q h.
      Ends-if (Left n) (within 0xD800 0xDBFF value && pair_follows q) _ _
        (λ e.
          Left-mono (length q.rest) n h (append_pair out value q) (append_pair-Ends out value q))
        (λ e. h))

parse_escape-Ends : (out : Bytes) (p : Parser) → Ends (Left (length p.rest)) (parse_escape out p)
unfolding parse_escape
parse_escape-Ends out p =
    let n = length p.rest in
    Ends-if (Left n) (finished p) _ _ (λ e. tt)
      (λ e. Ends-bind (Left (n - 1)) (Left n) (advance p) _ (advance-Ends p) (λ c q h.
        elim (Option-cases (short_escape c)) [
          | inr (d, s) ↦ rw s (omega arith)
          | inl none_short ↦ elim (Bool-cases (c == b'u')) [
            | inl u ↦
                rw (none_short, u)
                  (Left-mono (length q.rest) n (omega arith) (append_escaped_code_point out q)
                    (append_escaped_code_point-Ends out q))
            | inr other ↦ rw (none_short, other) tt
          ]
        ]))

string_loop-Ends :
    (fuel : ℕ) (out : Bytes) (p : Parser)
    → length p.rest < fuel
    → Ends (Left (length p.rest)) (string_loop fuel out p)
unfolding string_loop
string_loop-Ends zero out p h = absurd (omega arith)
string_loop-Ends (suc fuel) out p h =
    let n = length p.rest in
    Ends-if (Left n) (finished p) _ _ (λ e. tt)
      (λ e.
        let pos = finished-false p e in
        Ends-bind (Left (n - 1)) (Left n) (advance p) _ (advance-Ends p) (λ c q k.
          let plain =
            Left-mono (length q.rest) n (omega arith) (string_loop fuel (out ++ (c ∷ [])) q)
              (string_loop-Ends fuel (out ++ (c ∷ [])) q (omega arith)) in
          let escaped =
            Ends-bind (Left (length q.rest)) (Left n) (parse_escape out q)
              (λ out'. string_loop fuel out') (parse_escape-Ends out q)
              (λ out' r m.
                Left-mono (length r.rest) n (omega arith) (string_loop fuel out' r)
                  (string_loop-Ends fuel out' r (omega arith))) in
          elim (Bool-cases (c == b'"')) [
            | inl quote ↦ rw quote (omega arith)
            | inr other ↦ elim (Bool-cases (c == b'\\')) [
              | inl slash ↦ rw (other, slash) escaped
              | inr ordinary ↦ elim (Bool-cases (ltb c 0x20)) [
                | inl control ↦ rw (other, ordinary, control) tt
                | inr printed ↦ rw (other, ordinary, printed) plain
              ]
            ]
          ]))

-- A string ends, and takes its opening quote at least.
pub parse_string-Ends : (p : Parser) → Ends (Left (length p.rest - 1)) (parse_string p)
unfolding parse_string
parse_string-Ends p =
    Ends-bind (Left (length p.rest - 1)) (Left (length p.rest - 1)) (advance p) _ (advance-Ends p)
      (λ c q h.
        Left-mono (length q.rest) _ h (string_loop (length q.rest + 1) [] q)
          (string_loop-Ends (length q.rest + 1) [] q (omega arith)))

-- Nothing was put back, and where the answer is yes, a byte was taken at least.
abbrev pub Consumed : Parser → Bool → Parser → Type 0
Consumed p found q =
    (length q.rest ≤ length p.rest) × (found ≡ true → length q.rest ≤ length p.rest - 1)

pub consume_word-Ends :
    (word : Bytes) (p : Parser) → 0 < length word → Ends (Consumed p) (consume_word word p)
unfolding consume_word
consume_word-Ends word p h =
    Ends-if (Consumed p) (not (starts_with p.rest word)) _ _ (λ e. (omega arith, λ t. cc))
      (λ e.
        Ends-bind (Left (length p.rest - length word)) (Consumed p) (advance_by (length word) p) _
          (advance_by-Ends (length word) p) (λ a q k. (omega arith, λ t. omega arith)))
