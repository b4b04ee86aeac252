-- ===== src/Text/Chars.antt =====
-- src/blogin/text.cpp: `sequence_length`, `char_length`, `byte_offset` and `substr`.
use blogin.Common.{
  ℕ, zero, suc, ◌+◌, ◌-◌, ◌≤◌, ◌<◌, none, some, [], ◌∷◌, ◌++◌, ◌≡◌, refl, ap, sym, ◌∙◌, arith, inl,
  inr, if◌then◌else◌, ltb, Bytes, Bool-cases, length, take, drop, length-drop, drop-drop, drop_past,
  byte_at, drop_inside, min, take-append-drop,
}
use blogin.Text.{
  sequence_length, char_length_loop, char_length, byte_offset_loop, byte_offset, substr,
}

sequence_length_bounds : (c : ℕ) → (1 ≤ sequence_length c) × (sequence_length c ≤ 4)
unfolding sequence_length
sequence_length_bounds c = ground arith

-- The characters of a text by recursion on it, where the first `skip` bytes belong to a character
-- that has been counted.
pub count_from : ℕ → Bytes → ℕ
count_from skip [] = 0
count_from zero (c ∷ cs) = suc (count_from (sequence_length c - 1) cs)
count_from (suc skip) (c ∷ cs) = count_from skip cs

count_from-drop : (skip : ℕ) (cs : Bytes) → count_from skip cs ≡ count_from 0 (drop skip cs)
unfolding count_from
count_from-drop zero cs = refl
count_from-drop (suc skip) [] = refl
count_from-drop (suc skip) (c ∷ cs) = count_from-drop skip cs

-- One character on.
drop_character :
    (text : Bytes) (position n : ℕ)
    → position < length text
    → 1 ≤ n
    → drop (position + n) text ≡ drop (n - 1) (drop (suc position) text)
drop_character text position n inside pos =
    ap (λ m. drop m text) {x = position + n} {y = suc position + (n - 1)} (omega arith)
    ∙ sym (drop-drop (n - 1) (suc position) text)

char_length_loop-count_from :
    (fuel : ℕ) (text : Bytes) (characters position : ℕ)
    → length text ≤ position + fuel
    → char_length_loop fuel text characters position
      ≡ characters + count_from 0 (drop position text)
unfolding char_length_loop count_from
char_length_loop-count_from zero text characters position h =
    rw (drop_past position text (omega arith)) (omega arith)
char_length_loop-count_from (suc fuel) text characters position h =
    let n = sequence_length (byte_at text position) in
    let (lo, hi) = sequence_length_bounds (byte_at text position) in
    elim (Bool-cases (ltb position (length text))) [
      | inl inside ↦
          rw (inside, drop_inside position text 0 (ground arith))
            (char_length_loop-count_from fuel text (characters + 1) (position + n) (omega arith)
              ∙ omega (
                arith,
                ap (count_from 0) (drop_character text position n (ground arith) lo),
                count_from-drop (n - 1) (drop (suc position) text),
              ))
      | inr outside ↦ rw (outside, drop_past position text (ground arith)) (omega arith)
    ]

-- `char_length` is the count of the characters by recursion on the text.
pub char_length-count_from : (text : Bytes) → char_length text ≡ count_from 0 text
unfolding char_length
char_length-count_from text =
    char_length_loop-count_from (length text) text 0 0 (omega arith) ∙ omega arith

-- The bytes that the first characters take.
pub prefix_size : ℕ → ℕ → Bytes → ℕ
prefix_size skip count [] = 0
prefix_size zero zero (c ∷ cs) = 0
prefix_size zero (suc count) (c ∷ cs) = suc (prefix_size (sequence_length c - 1) count cs)
prefix_size (suc skip) count (c ∷ cs) = suc (prefix_size skip count cs)

prefix_size-drop :
    (skip count : ℕ) (cs : Bytes)
    → prefix_size skip count cs ≡ min skip (length cs) + prefix_size 0 count (drop skip cs)
unfolding prefix_size
prefix_size-drop zero count cs = omega arith
prefix_size-drop (suc skip) count [] = omega arith
prefix_size-drop (suc skip) count (c ∷ cs) = omega (arith, prefix_size-drop skip count cs)

abbrev clamp_to : ℕ → ℕ → ℕ
clamp_to size position = if ltb size position then size else position

prefix_size_none : (cs : Bytes) → prefix_size 0 0 cs ≡ 0
unfolding prefix_size
prefix_size_none [] = refl
prefix_size_none (c ∷ cs) = refl

prefix_size_more :
    (count c : ℕ) (cs : Bytes)
    → 0 < count
    → prefix_size 0 count (c ∷ cs) ≡ suc (prefix_size (sequence_length c - 1) (count - 1) cs)
unfolding prefix_size
prefix_size_more zero c cs h = absurd (omega arith)
prefix_size_more (suc count) c cs h =
    ap (λ n. suc (prefix_size (sequence_length c - 1) n cs)) {x = count} {y = suc count - 1}
      (omega arith)

byte_offset_loop-prefix_size :
    (fuel : ℕ) (text : Bytes) (char_index characters position : ℕ)
    → length text ≤ position + fuel
    → clamp_to (length text) (byte_offset_loop fuel text char_index characters position)
      ≡ min position (length text) + prefix_size 0 (char_index - characters) (drop position text)
unfolding byte_offset_loop
byte_offset_loop-prefix_size zero text char_index characters position h =
    rw (drop_past position text (omega arith)) (unfold prefix_size in ground arith)
byte_offset_loop-prefix_size (suc fuel) text char_index characters position h =
    let n = sequence_length (byte_at text position) in
    let (lo, hi) = sequence_length_bounds (byte_at text position) in
    elim (Bool-cases (ltb position (length text))) [
      | inr outside ↦
          rw (outside, drop_past position text (ground arith)) (unfold prefix_size in ground arith)
      | inl inside ↦ elim (Bool-cases (ltb characters char_index)) [
        | inr enough ↦
            let none_left : char_index - characters ≡ 0 = ground arith in
            rw (inside, enough, none_left, prefix_size_none) (ground arith)
        | inl more ↦
            rw (inside, more, drop_inside position text 0 (ground arith))
              (byte_offset_loop-prefix_size fuel text char_index (characters + 1) (position + n)
                  (omega arith)
                ∙ ground (
                  arith,
                  drop_character text position n (ground arith) lo,
                  length-drop (suc position) text,
                  prefix_size_more (char_index - characters) (byte_at text position)
                      (drop (suc position) text),
                  prefix_size-drop (n - 1) (char_index - (characters + 1))
                      (drop (suc position) text),
                  ap (λ k. prefix_size (n - 1) k (drop (suc position) text))
                      {x = char_index - characters - 1} {y = char_index - (characters + 1)}
                      (omega arith),
                ))
      ]
    ]

-- `byte_offset` is the size of the first `char_index` characters by recursion on the text.
pub byte_offset-prefix_size :
    (text : Bytes) (char_index : ℕ) → byte_offset text char_index ≡ prefix_size 0 char_index text
unfolding byte_offset
byte_offset-prefix_size text char_index =
    byte_offset_loop-prefix_size (length text) text char_index 0 0 (omega arith)
    ∙ omega
        (arith, ap (λ k. prefix_size 0 k text) {x = char_index - 0} {y = char_index} (omega arith))

count_from-take :
    (skip count : ℕ) (cs : Bytes)
    → count_from skip (take (prefix_size skip count cs) cs) ≡ min count (count_from skip cs)
unfolding count_from prefix_size
count_from-take zero zero [] = omega arith
count_from-take zero (suc count) [] = omega arith
count_from-take (suc skip) count [] = omega arith
count_from-take zero zero (c ∷ cs) = omega arith
count_from-take zero (suc count) (c ∷ cs) =
    omega (arith, count_from-take (sequence_length c - 1) count cs)
count_from-take (suc skip) count (c ∷ cs) = count_from-take skip count cs

count_from-drop_prefix :
    (skip count : ℕ) (cs : Bytes)
    → count_from 0 (drop (prefix_size skip count cs) cs) ≡ count_from skip cs - count
unfolding count_from prefix_size
count_from-drop_prefix zero zero [] = omega arith
count_from-drop_prefix zero (suc count) [] = omega arith
count_from-drop_prefix (suc skip) count [] = omega arith
count_from-drop_prefix zero zero (c ∷ cs) = omega arith
count_from-drop_prefix zero (suc count) (c ∷ cs) =
    omega (arith, count_from-drop_prefix (sequence_length c - 1) count cs)
count_from-drop_prefix (suc skip) count (c ∷ cs) = count_from-drop_prefix skip count cs

prefix_size-nil : (skip count : ℕ) → prefix_size skip count [] ≡ 0
unfolding prefix_size
prefix_size-nil zero zero = refl
prefix_size-nil zero (suc count) = refl
prefix_size-nil (suc skip) count = refl

prefix_size-add_nil :
    (skip a n : ℕ)
    → prefix_size skip (a + n) []
      ≡ prefix_size skip a [] + prefix_size 0 n (drop (prefix_size skip a []) [])
prefix_size-add_nil skip a n = rw (prefix_size-nil, prefix_size-nil, prefix_size-nil) (omega arith)

prefix_size-add :
    (skip a n : ℕ) (cs : Bytes)
    → prefix_size skip (a + n) cs
      ≡ prefix_size skip a cs + prefix_size 0 n (drop (prefix_size skip a cs) cs)
unfolding prefix_size
prefix_size-add zero a n [] = prefix_size-add_nil zero a n
prefix_size-add (suc skip) a n [] = prefix_size-add_nil (suc skip) a n
prefix_size-add zero zero n (c ∷ cs) =
    ap (λ k. prefix_size 0 k (c ∷ cs)) {x = 0 + n} {y = n} (omega arith) ∙ omega arith
prefix_size-add zero (suc a) n (c ∷ cs) =
    ap (λ k. prefix_size 0 k (c ∷ cs)) {x = suc a + n} {y = suc (a + n)} (omega arith)
    ∙ omega (arith, prefix_size-add (sequence_length c - 1) a n cs)
prefix_size-add (suc skip) a n (c ∷ cs) = omega (arith, prefix_size-add skip a n cs)

-- What `substr` returns without positions: characters are dropped, then kept.
substr-some :
    (text : Bytes) (a n : ℕ)
    → substr text a (some n)
      ≡ take (prefix_size 0 n (drop (prefix_size 0 a text) text)) (drop (prefix_size 0 a text) text)
unfolding substr
substr-some text a n =
    let size = prefix_size 0 a text in
    let more = prefix_size 0 n (drop size text) in
    rw (byte_offset-prefix_size, byte_offset-prefix_size, prefix_size-add)
      (ap (λ k. take k (drop size text)) {x = size + more - size} {y = more} (omega arith))

substr-none : (text : Bytes) (a : ℕ) → substr text a none ≡ drop (prefix_size 0 a text) text
unfolding substr
substr-none text a = rw byte_offset-prefix_size

substr_parts :
    (text : Bytes) (a n : ℕ)
    → substr text 0 (some a) ++ (substr text a (some n) ++ substr text (a + n) none) ≡ text
substr_parts text a n =
    let size = prefix_size 0 a text in
    let rest = drop size text in
    rw
      (
        substr-some text 0 a,
        prefix_size_none text,
        substr-some text a n,
        substr-none,
        prefix_size-add,
        ← drop-drop (prefix_size 0 n rest) size text,
      )
      (ap (λ t. take size text ++ t) (take-append-drop (prefix_size 0 n rest) rest)
        ∙ take-append-drop size text)

-- `substr` counts characters: it returns as many as asked for, or as many as there are from the
-- first one on; without a count, all of those. The text in front of the first
-- one, what is returned with a count, and what is behind it make up the text.
pub char_length-substr :
    (text : Bytes) (a n : ℕ)
    → (char_length (substr text a (some n)) ≡ min n (char_length text - a))
      × (char_length (substr text a none) ≡ char_length text - a)
      × (substr text 0 (some a) ++ (substr text a (some n) ++ substr text (a + n) none) ≡ text)
char_length-substr text a n = (
  rw (
    substr-some, char_length-count_from, char_length-count_from, count_from-take,
    count_from-drop_prefix,
  ),
  rw (substr-none, char_length-count_from, char_length-count_from, count_from-drop_prefix),
  substr_parts text a n,
)
