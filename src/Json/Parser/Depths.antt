-- ===== src/Json/Parser/Depths.antt =====
-- src/blogin/json.cpp: a method of `Parser` up to a string leaves `depth_` alone.
use blogin.Common.{
  ℕ, zero, suc, ◌+◌, Bool, true, false, ◌&&◌, [], ◌∷◌, ◌++◌, ◌==◌, ltb, if◌then◌else◌, within,
  length, Bytes, ◌≡◌, refl, ◌∙◌, Bool-cases, Option-cases, inl, inr,
}
use blogin.Json.Parser.{
  Parser, Outcome, ok, err, stuck, M, bind, finished, past, advance, parse_string, advance_over,
  hex4_loop, hex_digit, parse_hex4, append_pair, pair_follows, append_escaped_code_point,
  short_escape, parse_escape, string_loop,
}

-- A result leaves the depth at `n`.
abbrev pub Keeps : {A : Type 0} → ℕ → Outcome A → Type 0
Keeps n (ok a q) = q.depth ≡ n
Keeps n (err e) = Unit {0}
Keeps n stuck = Unit {0}

Keeps-bind :
    {A B : Type 0} (n : ℕ) (o : Outcome A) (f : A → M B)
    → Keeps n o
    → ((a : A) (q : Parser) → q.depth ≡ n → Keeps n (f a q))
    → Keeps n (bind o f)
Keeps-bind n (ok a q) f h k = k a q h
Keeps-bind n (err e) f h k = tt
Keeps-bind n stuck f h k = tt

Keeps-if :
    {A : Type 0} (n : ℕ) (b : Bool) (x y : Outcome A)
    → Keeps n x
    → Keeps n y
    → Keeps n (if b then x else y)
Keeps-if n true x y h k = h
Keeps-if n false x y h k = k

pub past-depth : (c : ℕ) (cs : Bytes) (p : Parser) → (past c cs p).depth ≡ p.depth
unfolding past
past-depth c cs p = elim (Bool-cases (c == b'\n')) [ inl e ↦ rw e refl | inr e ↦ rw e refl ]

module _ (n : ℕ) where
  advance_over-Keeps : (cs : Bytes) (p : Parser) → p.depth ≡ n → Keeps n (advance_over cs p)
  unfolding advance_over
  advance_over-Keeps [] p e = e
  advance_over-Keeps (c ∷ cs) p e = past-depth c cs p ∙ e

  pub advance-Keeps : (p : Parser) → p.depth ≡ n → Keeps n (advance p)
  unfolding advance
  advance-Keeps p e = advance_over-Keeps p.rest p e

  hex4_loop-Keeps :
      (rounds value : ℕ) (p : Parser) → p.depth ≡ n → Keeps n (hex4_loop rounds value p)
  unfolding hex4_loop
  hex4_loop-Keeps zero value p e = e
  hex4_loop-Keeps (suc rounds) value p e = Keeps-bind n (advance p) _ (advance-Keeps p e) (λ c q f.
      elim (Option-cases (hex_digit c)) [
        | inl h ↦ rw h tt
        | inr (d, h) ↦ rw h (hex4_loop-Keeps rounds _ q f)
      ])

  parse_hex4-Keeps : (p : Parser) → p.depth ≡ n → Keeps n (parse_hex4 p)
  unfolding parse_hex4
  parse_hex4-Keeps p e = Keeps-if n (ltb (length p.rest) 4) _ _ tt (hex4_loop-Keeps 4 0 p e)

  append_pair-Keeps :
      (out : Bytes) (value : ℕ) (p : Parser) → p.depth ≡ n → Keeps n (append_pair out value p)
  unfolding append_pair
  append_pair-Keeps out value p e = Keeps-bind n (advance p) _ (advance-Keeps p e) (λ a q f.
      Keeps-bind n (advance q) _ (advance-Keeps q f) (λ b r g.
        Keeps-bind n (parse_hex4 r) _ (parse_hex4-Keeps r g) (λ low t h.
          elim (Bool-cases (within 0xDC00 0xDFFF low)) [ inl w ↦ rw w h | inr w ↦ rw w h ])))

  append_escaped_code_point-Keeps :
      (out : Bytes) (p : Parser) → p.depth ≡ n → Keeps n (append_escaped_code_point out p)
  unfolding append_escaped_code_point
  append_escaped_code_point-Keeps out p e =
      Keeps-bind n (parse_hex4 p) _ (parse_hex4-Keeps p e) (λ value q f.
        Keeps-if n (within 0xD800 0xDBFF value && pair_follows q) _ _
          (append_pair-Keeps out value q f) f)

  parse_escape-Keeps : (out : Bytes) (p : Parser) → p.depth ≡ n → Keeps n (parse_escape out p)
  unfolding parse_escape
  parse_escape-Keeps out p e = Keeps-if n (finished p) _ _ tt (
      Keeps-bind n (advance p) _ (advance-Keeps p e) (λ c q f.
        elim (Option-cases (short_escape c)) [
          | inr (d, s) ↦ rw s f
          | inl s ↦ elim (Bool-cases (c == b'u')) [
            | inl u ↦ rw (s, u) (append_escaped_code_point-Keeps out q f)
            | inr u ↦ rw (s, u) tt
          ]
        ]))

  string_loop-Keeps :
      (fuel : ℕ) (out : Bytes) (p : Parser) → p.depth ≡ n → Keeps n (string_loop fuel out p)
  unfolding string_loop
  string_loop-Keeps zero out p e = tt
  string_loop-Keeps (suc fuel) out p e = Keeps-if n (finished p) _ _ tt (
      Keeps-bind n (advance p) _ (advance-Keeps p e) (λ c q f.
        let plain = string_loop-Keeps fuel (out ++ (c ∷ [])) q f in
        let escaped =
          Keeps-bind n (parse_escape out q) (λ out'. string_loop fuel out')
            (parse_escape-Keeps out q f) (λ out' r g. string_loop-Keeps fuel out' r g) in
        elim (Bool-cases (c == b'"')) [
          | inl quote ↦ rw quote f
          | inr other ↦ elim (Bool-cases (c == b'\\')) [
            | inl slash ↦ rw (other, slash) escaped
            | inr ordinary ↦ elim (Bool-cases (ltb c 0x20)) [
              | inl control ↦ rw (other, ordinary, control) tt
              | inr printed ↦ rw (other, ordinary, printed) plain
            ]
          ]
        ]))

  pub parse_string-Keeps : (p : Parser) → p.depth ≡ n → Keeps n (parse_string p)
  unfolding parse_string
  parse_string-Keeps p e =
      Keeps-bind n (advance p) _ (advance-Keeps p e)
        (λ c q f. string_loop-Keeps (length q.rest + 1) [] q f)
