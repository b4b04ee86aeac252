-- ===== src/Json/Parser/Rounds.antt =====
-- src/blogin/json.cpp: one round of the loop of `parse_string` on one escape of the writer.
use blogin.Common.{
  ℕ, suc, ◌+◌, ◌≤◌, ◌<◌, false, [], ◌∷◌, ◌++◌, ◌==◌, ltb, length, Bytes, ◌≡◌, refl, ap, ◌∙◌, arith,
  Bool-cases, inl, inr, subst,
}
use blogin.Json.Writer.{escape_byte, unicode_escape, hex_char}
use blogin.Json.Parser.{
  Parser, advance, past, string_loop, short_escape, append_escaped_code_point, parse_hex4,
  hex4_loop, hex_digit, append_utf8, parse_escape,
}

past-rest : (c : ℕ) (cs : Bytes) (p : Parser) → (past c cs p).rest ≡ cs
unfolding past
past-rest c cs p = elim (Bool-cases (c == b'\n')) [ inl e ↦ rw e | inr e ↦ rw e ]

-- `P` from `d` on, for eight numbers.
abbrev Eight : (ℕ → Type 0) → ℕ → Type 0
Eight P d = P d × P (d + 1) × P (d + 2) × P (d + 3) × P (d + 4) × P (d + 5) × P (d + 6) × P (d + 7)

pick : (P : ℕ → Type 0) (m c : ℕ) → P m → ((c == m) ≡ false → P c) → P c
pick P m c here other = elim (Bool-cases (c == m)) [
  | inl e ↦ subst P {x = m} {y = c} (ground arith) here
  | inr n ↦ other n
]

pick_eight : (P : ℕ → Type 0) (d c : ℕ) → Eight P d → d ≤ c → c < d + 8 → P c
pick_eight P d c (p0, p1, p2, p3, p4, p5, p6, p7) from to = pick P d c p0 λ n0.
    pick P (d + 1) c p1 λ n1. pick P (d + 2) c p2 λ n2. pick P (d + 3) c p3 λ n3.
      pick P (d + 4) c p4 λ n4.
        pick P (d + 5) c p5
          λ n5. pick P (d + 6) c p6 λ n6. pick P (d + 7) c p7 λ n7. absurd (ground arith)

-- A round of the loop on the escape of `c` appends `c`.
abbrev pub Round : ℕ → Bytes → Bytes → Parser → ℕ → Type 0
Round fuel out tail p c =
    (q : Parser) × ((q.rest ≡ tail)
      × (string_loop (suc fuel) out (record p { rest = escape_byte c ++ tail })
          ≡ string_loop fuel (out ++ (c ∷ [])) q))

round_plain :
    (fuel c : ℕ) (out tail : Bytes) (p : Parser)
    → (c == b'"') ≡ false
    → (c == b'\\') ≡ false
    → ltb c 0x20 ≡ false
    → string_loop (suc fuel) out (record p { rest = c ∷ tail })
      ≡ string_loop fuel (out ++ (c ∷ [])) (past c tail (record p { rest = c ∷ tail }))
unfolding string_loop advance
round_plain fuel c out tail p quote slash low = rw (quote, slash, low)

-- Behind an escape of two bytes, and of six.
abbrev two : Bytes → Parser → Parser
two tail p = record p { rest = tail; column = p.column + 1 + 1 }

abbrev six : Bytes → Parser → Parser
six tail p = record p { rest = tail; column = p.column + 1 + 1 + 1 + 1 + 1 + 1 }

module _ (fuel : ℕ) (out tail : Bytes) (p : Parser) where
  Round-quote : Round fuel out tail p b'"'
  unfolding string_loop advance past parse_escape short_escape escape_byte
  Round-quote = (two tail p, (refl, refl))

  Round-slash : Round fuel out tail p b'\\'
  unfolding string_loop advance past parse_escape short_escape escape_byte
  Round-slash = (two tail p, (refl, refl))

  enough : ltb (suc (suc (suc (suc (length tail))))) 4 ≡ false
  enough = ground arith

  -- The control characters, eight at a time.
  Round-first : Eight (Round fuel out tail p) 0
  unfolding string_loop advance past parse_escape short_escape escape_byte unicode_escape hex_char
      append_escaped_code_point parse_hex4 hex4_loop hex_digit append_utf8
  Round-first = (
    (six tail p, (refl, rw enough refl)),
    (six tail p, (refl, rw enough refl)),
    (six tail p, (refl, rw enough refl)),
    (six tail p, (refl, rw enough refl)),
    (six tail p, (refl, rw enough refl)),
    (six tail p, (refl, rw enough refl)),
    (six tail p, (refl, rw enough refl)),
    (six tail p, (refl, rw enough refl)),
  )

  Round-second : Eight (Round fuel out tail p) 8
  unfolding string_loop advance past parse_escape short_escape escape_byte unicode_escape hex_char
      append_escaped_code_point parse_hex4 hex4_loop hex_digit append_utf8
  Round-second = (
    (two tail p, (refl, refl)),
    (two tail p, (refl, refl)),
    (two tail p, (refl, refl)),
    (six tail p, (refl, rw enough refl)),
    (two tail p, (refl, refl)),
    (two tail p, (refl, refl)),
    (six tail p, (refl, rw enough refl)),
    (six tail p, (refl, rw enough refl)),
  )

  Round-third : Eight (Round fuel out tail p) 16
  unfolding string_loop advance past parse_escape short_escape escape_byte unicode_escape hex_char
      append_escaped_code_point parse_hex4 hex4_loop hex_digit append_utf8
  Round-third = (
    (six tail p, (refl, rw enough refl)),
    (six tail p, (refl, rw enough refl)),
    (six tail p, (refl, rw enough refl)),
    (six tail p, (refl, rw enough refl)),
    (six tail p, (refl, rw enough refl)),
    (six tail p, (refl, rw enough refl)),
    (six tail p, (refl, rw enough refl)),
    (six tail p, (refl, rw enough refl)),
  )

  Round-fourth : Eight (Round fuel out tail p) 24
  unfolding string_loop advance past parse_escape short_escape escape_byte unicode_escape hex_char
      append_escaped_code_point parse_hex4 hex4_loop hex_digit append_utf8
  Round-fourth = (
    (six tail p, (refl, rw enough refl)),
    (six tail p, (refl, rw enough refl)),
    (six tail p, (refl, rw enough refl)),
    (six tail p, (refl, rw enough refl)),
    (six tail p, (refl, rw enough refl)),
    (six tail p, (refl, rw enough refl)),
    (six tail p, (refl, rw enough refl)),
    (six tail p, (refl, rw enough refl)),
  )

escape_byte_plain :
    (c : ℕ)
    → (c == b'"') ≡ false
    → (c == b'\\') ≡ false
    → ltb c 0x20 ≡ false
    → escape_byte c ≡ c ∷ []
unfolding escape_byte
escape_byte_plain c quote slash low = ground arith

Round-control :
    (fuel : ℕ) (out tail : Bytes) (p : Parser) (c : ℕ) → c < 0x20 → Round fuel out tail p c
Round-control fuel out tail p c h = elim (Bool-cases (ltb c 16)) [
  | inl low ↦ elim (Bool-cases (ltb c 8)) [
    | inl e ↦
        pick_eight (Round fuel out tail p) 0 c (Round-first fuel out tail p) (ground arith)
          (ground arith)
    | inr e ↦
        pick_eight (Round fuel out tail p) 8 c (Round-second fuel out tail p) (ground arith)
          (ground arith)
  ]
  | inr low ↦ elim (Bool-cases (ltb c 24)) [
    | inl e ↦
        pick_eight (Round fuel out tail p) 16 c (Round-third fuel out tail p) (ground arith)
          (ground arith)
    | inr e ↦
        pick_eight (Round fuel out tail p) 24 c (Round-fourth fuel out tail p) (ground arith)
          (ground arith)
  ]
]

pub round : (fuel : ℕ) (out tail : Bytes) (p : Parser) (c : ℕ) → Round fuel out tail p c
round fuel out tail p c = elim (Bool-cases (ltb c 0x20)) [
  | inl low ↦ Round-control fuel out tail p c (ground arith)
  | inr low ↦ elim (Bool-cases (c == b'"')) [
    | inl e ↦
        subst (Round fuel out tail p) {x = b'"'} {y = c} (ground arith)
          (Round-quote fuel out tail p)
    | inr quote ↦ elim (Bool-cases (c == b'\\')) [
      | inl e ↦
          subst (Round fuel out tail p) {x = b'\\'} {y = c} (ground arith)
            (Round-slash fuel out tail p)
      | inr slash ↦
          let plain = escape_byte_plain c quote slash low in
          (
            past c tail (record p { rest = c ∷ tail }),
            (
              past-rest c tail (record p { rest = c ∷ tail }),
              ap (λ t. string_loop (suc fuel) out (record p { rest = t ++ tail })) plain
                  ∙ round_plain fuel c out tail p quote slash low,
            ),
          )
    ]
  ]
]
