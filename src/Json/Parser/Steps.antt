-- ===== src/Json/Parser/Steps.antt =====
-- src/blogin/json.cpp: the steps of `Parser` on the text that the writer prints.
use Prim.Native.String.{String}
use blogin.Common.{
  ℕ, ◌+◌, Bool, true, false, not, ◌&&◌, ◌∷◌, ◌++◌, ◌==◌, if◌then◌else◌, starts_with, Bytes, codes,
  ◌≡◌, refl, ap, sym, subst, arith,
}
use blogin.Value.{null, boolean, string}
use blogin.Json.Writer.{append_json_string}
use blogin.Json.Parser.{
  Parser, Outcome, ok, err, stuck, M, bind, ◌>>=◌, return, past, advance, is_blank, skip_over,
  skip_whitespace, consume, consume_word, advance_by, parse_string, finished, peek, fail,
}
use blogin.Json.Parser.Ends.{past-rest}
use blogin.Json.Parser.Depths.{past-depth, Keeps, parse_string-Keeps}
use blogin.Json.Parser.Numbers.{Gives}
use blogin.Json.Parser.Strings.{Reads, parse_string-append_json_string}
use blogin.Json.Parser.Values.{separator, key_at, parse_key, parse_string_value, parse_word}

abbrev pub at : Bytes → ℕ → ℕ → ℕ → Parser
at rest line column depth = record { rest = rest; line = line; column = column; depth = depth }

-- From `text` on, at any place, the method gives `a` and leaves `rest`; the depth stays.
abbrev pub Parses : {A : Type 0} → M A → A → Bytes → Bytes → ℕ → Type 0
Parses m a text rest depth = (line column : ℕ) → Gives a rest depth (m (at text line column depth))

pub Parses-bind :
    {A B : Type 0} (m : M A) (f : A → M B) (a : A) (b : B) (text middle rest : Bytes) (depth : ℕ)
    → Parses m a text middle depth
    → Parses (f a) b middle rest depth
    → Parses (m >>= f) b text rest depth
Parses-bind m f a b text middle rest depth first second line column =
    let (q, (e, (r, g))) = first line column in
    let here : at middle q.line q.column depth ≡ q =
      λ i. record { rest = sym r i; line = q.line; column = q.column; depth = sym g i } in
    subst (Gives b rest depth) (sym (ap (λ o. bind o f) e))
      (subst (λ p. Gives b rest depth (f a p)) here (second q.line q.column))

-- The method at a place is another one's.
pub Parses-as :
    {A : Type 0} (m m' : M A) (a : A) (text rest : Bytes) (depth : ℕ)
    → ((line column : ℕ) → m (at text line column depth) ≡ m' (at text line column depth))
    → Parses m' a text rest depth
    → Parses m a text rest depth
Parses-as m m' a text rest depth e h line column =
    subst (Gives a rest depth) (sym (e line column)) (h line column)

module _ (depth : ℕ) where
  pub return-Parses : {A : Type 0} (a : A) (text : Bytes) → Parses (return a) a text text depth
  return-Parses a text line column = (at text line column depth, (refl, (refl, refl)))

  pub advance-Parses : (c : ℕ) (cs : Bytes) → Parses advance c (c ∷ cs) cs depth
  unfolding advance
  advance-Parses c cs line column =
      (past c cs (at (c ∷ cs) line column depth), (refl, (past-rest c cs _, past-depth c cs _)))

  pub skip_whitespace-Parses :
      (c : ℕ) (cs : Bytes) → is_blank c ≡ false → Parses skip_whitespace tt (c ∷ cs) (c ∷ cs) depth
  unfolding skip_whitespace skip_over
  skip_whitespace-Parses c cs h line column =
      (at (c ∷ cs) line column depth, (rw h refl, (refl, refl)))

  pub consume-Parses : (c : ℕ) (cs : Bytes) → Parses (consume c) true (c ∷ cs) cs depth
  unfolding consume advance
  consume-Parses c cs line column =
      let same : (c == c) ≡ true = ground arith in
      (
        past c cs (at (c ∷ cs) line column depth),
        (rw same refl, (past-rest c cs _, past-depth c cs _)),
      )

  pub consume_other-Parses :
      (c d : ℕ) (cs : Bytes) → (d == c) ≡ false → Parses (consume c) false (d ∷ cs) (d ∷ cs) depth
  unfolding consume
  consume_other-Parses c d cs h line column =
      (at (d ∷ cs) line column depth, (rw h refl, (refl, refl)))

  -- What `separator` tests behind a comma.
  abbrev checked : ℕ → String → M Bool
  checked close trailing p =
      if not (finished p) && peek p == close then fail trailing p else ok true p

  checked-Parses :
      (close : ℕ) (trailing : String) (c : ℕ) (cs : Bytes)
      → (c == close) ≡ false
      → Parses (checked close trailing) true (c ∷ cs) (c ∷ cs) depth
  checked-Parses close trailing c cs more line column =
      (at (c ∷ cs) line column depth, (rw more refl, (refl, refl)))

  -- A comma, and another entry behind it.
  pub separator_more-Parses :
      (close : ℕ) (trailing expected : String) (c : ℕ) (cs : Bytes)
      → is_blank c ≡ false
      → (c == close) ≡ false
      → Parses (separator close trailing expected) true (b',' ∷ (c ∷ cs)) (c ∷ cs) depth
  unfolding separator
  separator_more-Parses close trailing expected c cs solid more =
      Parses-bind (consume b',')
        (λ comma.
          if comma
          then (skip_whitespace >>= λ _. checked close trailing)
          else (consume close >>= λ closed. if closed then return false else fail expected))
        true true (b',' ∷ (c ∷ cs)) (c ∷ cs) (c ∷ cs) depth (consume-Parses b',' (c ∷ cs))
        (Parses-bind skip_whitespace (λ _. checked close trailing) tt true (c ∷ cs) (c ∷ cs)
          (c ∷ cs) depth (skip_whitespace-Parses c cs solid)
          (checked-Parses close trailing c cs more))

  pub separator_end-Parses :
      (close : ℕ) (trailing expected : String) (rest : Bytes)
      → (close == b',') ≡ false
      → Parses (separator close trailing expected) false (close ∷ rest) rest depth
  unfolding separator
  separator_end-Parses close trailing expected rest other =
      Parses-bind (consume b',') _ false false (close ∷ rest) (close ∷ rest) rest depth
        (consume_other-Parses b',' close rest other)
        (Parses-bind (consume close) _ true false (close ∷ rest) rest rest depth
          (consume-Parses close rest) (return-Parses false rest))

  pub parse_string-Parses :
      (text rest : Bytes) → Parses parse_string text (append_json_string text ++ rest) rest depth
  parse_string-Parses text rest line column =
      both (parse_string (at (append_json_string text ++ rest) line column depth))
        (parse_string-append_json_string text rest line column depth)
        (parse_string-Keeps depth (at (append_json_string text ++ rest) line column depth) refl)
    where
      both : (o : Outcome Bytes) → Reads text rest o → Keeps depth o → Gives text rest depth o
      both (ok s q) (e, r) g = (q, (ap (λ t. ok t q) e, (r, g)))
      both (err e) h g = absurd h
      both stuck h g = absurd h

  pub parse_string_value-Parses :
      {D : Type 0} (text rest : Bytes)
      → Parses
          (parse_string_value {D = D})
          (string text)
          (append_json_string text ++ rest)
          rest
          depth
  unfolding parse_string_value
  parse_string_value-Parses text rest =
      Parses-bind parse_string _ text (string text) (append_json_string text ++ rest) rest rest
        depth (parse_string-Parses text rest) (return-Parses (string text) rest)

  -- A key with its colon, and a value behind it.
  pub parse_key-Parses :
      (key : Bytes) (c : ℕ) (cs : Bytes)
      → is_blank c ≡ false
      → Parses parse_key key (append_json_string key ++ (b':' ∷ (c ∷ cs))) (c ∷ cs) depth
  unfolding parse_key key_at append_json_string is_blank
  parse_key-Parses key c cs solid =
      let text = append_json_string key ++ (b':' ∷ (c ∷ cs)) in
      Parses-bind skip_whitespace _ tt key text text (c ∷ cs) depth
        (skip_whitespace-Parses b'"' _ refl)
        (Parses-bind parse_string _ key key text (b':' ∷ (c ∷ cs)) (c ∷ cs) depth
          (parse_string-Parses key (b':' ∷ (c ∷ cs)))
          (Parses-bind skip_whitespace _ tt key (b':' ∷ (c ∷ cs)) (b':' ∷ (c ∷ cs)) (c ∷ cs) depth
            (skip_whitespace-Parses b':' (c ∷ cs) refl)
            (Parses-bind (consume b':') _ true key (b':' ∷ (c ∷ cs)) (c ∷ cs) (c ∷ cs) depth
              (consume-Parses b':' (c ∷ cs))
              (Parses-bind skip_whitespace _ tt key (c ∷ cs) (c ∷ cs) (c ∷ cs) depth
                (skip_whitespace-Parses c cs solid) (return-Parses key (c ∷ cs))))))

  module _ {D : Type 0} where
    pub null-Parses :
        (rest : Bytes)
        → Parses
            (parse_word {D = D} (codes "null") null "expected null")
            null
            (codes "null" ++ rest)
            rest
            depth
    unfolding parse_word consume_word advance_by advance past starts_with
    null-Parses rest line column =
        (at rest line (column + 1 + 1 + 1 + 1) depth, (refl, (refl, refl)))

    pub true-Parses :
        (rest : Bytes)
        → Parses
            (parse_word {D = D} (codes "true") (boolean true) "expected true")
            (boolean true)
            (codes "true" ++ rest)
            rest
            depth
    unfolding parse_word consume_word advance_by advance past starts_with
    true-Parses rest line column =
        (at rest line (column + 1 + 1 + 1 + 1) depth, (refl, (refl, refl)))

    pub false-Parses :
        (rest : Bytes)
        → Parses
            (parse_word {D = D} (codes "false") (boolean false) "expected false")
            (boolean false)
            (codes "false" ++ rest)
            rest
            depth
    unfolding parse_word consume_word advance_by advance past starts_with
    false-Parses rest line column =
        (at rest line (column + 1 + 1 + 1 + 1 + 1) depth, (refl, (refl, refl)))
