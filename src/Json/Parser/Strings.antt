-- ===== src/Json/Parser/Strings.antt =====
-- src/blogin/json.cpp: a string as the writer prints it and the parser reads it.
use blogin.Common.{
  ℕ, zero, suc, ◌+◌, ◌≤◌, ◌<◌, [], ◌∷◌, ◌++◌, length, Bytes, ◌≡◌, refl, sym, arith, append_assoc,
  append-nil, subst, length-append,
}
use blogin.Json.Writer.{escape_byte, escape_bytes, append_json_string, unicode_escape}
use blogin.Json.Parser.{Parser, Outcome, ok, err, stuck, advance, past, string_loop, parse_string}
use blogin.Json.Parser.Rounds.{Round, round}

-- The outcome is the text, with `rest` left unread.
abbrev pub Reads : Bytes → Bytes → Outcome Bytes → Type 0
Reads text rest (ok s q) = (s ≡ text) × (q.rest ≡ rest)
Reads text rest (err e) = ⊥
Reads text rest stuck = ⊥

length-escape_byte : (c : ℕ) → 1 ≤ length (escape_byte c)
unfolding escape_byte unicode_escape
length-escape_byte c = ground arith

length-escape_bytes : (text : Bytes) → length text ≤ length (escape_bytes text)
unfolding escape_bytes
length-escape_bytes [] = omega arith
length-escape_bytes (c ∷ cs) = omega (
  arith,
  length-append (escape_byte c) (escape_bytes cs),
  length-escape_byte c,
  length-escape_bytes cs,
)

escaped_first :
    (c : ℕ) (cs later : Bytes)
    → escape_bytes (c ∷ cs) ++ later ≡ escape_byte c ++ (escape_bytes cs ++ later)
unfolding escape_bytes
escaped_first c cs later = append_assoc (escape_byte c) (escape_bytes cs) later

string_loop-end :
    (fuel : ℕ) (out rest : Bytes) (p : Parser)
    → Reads
        (out ++ [])
        rest
        (string_loop (suc fuel) out (record p { rest = escape_bytes [] ++ (b'"' ∷ rest) }))
unfolding escape_bytes string_loop advance past
string_loop-end fuel out rest p = (sym (append-nil out), refl)

-- A round, and the loop from there on.
string_loop-Round :
    (fuel c : ℕ) (out rest tail : Bytes) (text : Bytes) (p : Parser)
    → Round fuel out tail p c
    → ((q : Parser)
        → Reads
            ((out ++ (c ∷ [])) ++ text)
            rest
            (string_loop fuel (out ++ (c ∷ [])) (record q { rest = tail })))
    → Reads
        (out ++ (c ∷ text))
        rest
        (string_loop (suc fuel) out (record p { rest = escape_byte c ++ tail }))
string_loop-Round fuel c out rest tail text p (q, (e, r)) later =
    subst (λ o. Reads (out ++ (c ∷ text)) rest o) (sym r)
      (subst (λ t. Reads t rest (string_loop fuel (out ++ (c ∷ [])) q))
        (append_assoc out (c ∷ []) text)
        (subst
          (λ r.
            Reads ((out ++ (c ∷ [])) ++ text) rest
              (string_loop fuel (out ++ (c ∷ [])) (record q { rest = r })))
          (sym e) (later q)))

string_loop-escape_bytes :
    (text : Bytes) (fuel : ℕ) (out rest : Bytes) (p : Parser)
    → length text < fuel
    → Reads
        (out ++ text)
        rest
        (string_loop fuel out (record p { rest = escape_bytes text ++ (b'"' ∷ rest) }))
string_loop-escape_bytes text zero out rest p h = absurd (omega arith)
string_loop-escape_bytes [] (suc fuel) out rest p h = string_loop-end fuel out rest p
string_loop-escape_bytes (c ∷ cs) (suc fuel) out rest p h =
    subst (λ t. Reads (out ++ (c ∷ cs)) rest (string_loop (suc fuel) out (record p { rest = t })))
      (sym (escaped_first c cs (b'"' ∷ rest)))
      (string_loop-Round fuel c out rest (escape_bytes cs ++ (b'"' ∷ rest)) cs p
        (round fuel out (escape_bytes cs ++ (b'"' ∷ rest)) p c)
        (λ q. string_loop-escape_bytes cs fuel (out ++ (c ∷ [])) rest q (omega arith)))

-- A string that the writer prints is read back from its opening quote on, whatever follows it,
-- and nothing more is read.
pub parse_string-append_json_string :
    (text rest : Bytes) (line column depth : ℕ)
    → Reads text rest (
        parse_string (record {
          rest = append_json_string text ++ rest;
          line = line;
          column = column;
          depth = depth;
        }))
unfolding parse_string append_json_string advance past
parse_string-append_json_string text rest line column depth =
    subst
      (λ t. Reads text rest (
        string_loop (length t + 1) []
          (record { rest = t; line = line; column = column + 1; depth = depth })))
      (sym (append_assoc (escape_bytes text) (b'"' ∷ []) rest))
      (string_loop-escape_bytes text (length (escape_bytes text ++ (b'"' ∷ rest)) + 1) [] rest
        (record { rest = []; line = line; column = column + 1; depth = depth })
        (omega (arith, length-append (escape_bytes text) (b'"' ∷ rest), length-escape_bytes text)))
