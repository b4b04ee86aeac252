-- ===== src/Text/Words.antt =====
-- src/blogin/text.cpp: `words` and `word_count`.
use blogin.Common.{
  ℕ, zero, suc, ◌+◌, ◌-◌, ◌≤◌, ◌<◌, Bool, not, List, [], ◌∷◌, ◌++◌, ◌≡◌, ◌≢◌, refl, ap, ◌∙◌, arith,
  inl, inr, if◌then◌else◌, ltb, leb, Bytes, Bool-cases, append-nil, append_assoc, length, take,
  drop, length-drop, drop-drop, drop_past, slice, drop_inside,
}
use blogin.Text.{is_space, scan_while, words_loop, words}
use blogin.Text.Trim.{StartsClear}

abbrev not_space : ℕ → Bool
not_space c = not (is_space c)

-- How many bytes at the front pass a test.
span : (ℕ → Bool) → Bytes → ℕ
span test [] = 0
span test (c ∷ cs) = if test c then suc (span test cs) else 0

scan_while-span :
    (fuel : ℕ) (test : ℕ → Bool) (text : Bytes) (position : ℕ)
    → length text ≤ position + fuel
    → scan_while fuel test text position ≡ position + span test (drop position text)
unfolding scan_while span
scan_while-span zero test text position h = rw (drop_past position text (omega arith)) (omega arith)
scan_while-span (suc fuel) test text position h = elim (Bool-cases (ltb position (length text))) [
  | inl inside ↦
      let next = drop_inside position text 0 (ground arith) in
      ground (arith, next, scan_while-span fuel test text (position + 1) (omega arith))
  | inr outside ↦ rw (outside, drop_past position text (ground arith)) (omega arith)
]

-- A run that has ended, put in front of the later ones if it is not empty.
abbrev flush : Bytes → List Bytes → List Bytes
flush [] later = later
flush (c ∷ cs) later = (c ∷ cs) ∷ later

-- The maximal runs without whitespace, by recursion on the text; `current` is the run being read.
pub runs : Bytes → Bytes → List Bytes
runs current [] = flush current []
runs current (c ∷ cs) =
    let ended = flush current (runs [] cs) in
    let longer = runs (current ++ (c ∷ [])) cs in if is_space c then ended else longer

runs_nil : runs [] [] ≡ []
unfolding runs
runs_nil = refl

runs-spaces : (cs : Bytes) → runs [] cs ≡ runs [] (drop (span is_space cs) cs)
unfolding runs span
runs-spaces [] = refl
runs-spaces (c ∷ cs) = ground (arith, runs-spaces cs)

span-StartsClear : (cs : Bytes) → StartsClear (drop (span is_space cs) cs)
unfolding span
span-StartsClear [] = tt
span-StartsClear (c ∷ cs) = elim (Bool-cases (is_space c)) [
  | inl h ↦ rw h (span-StartsClear cs)
  | inr h ↦ rw h h
]

runs-word :
    (b : ℕ) (current cs : Bytes)
    → runs (b ∷ current) cs
      ≡ (b ∷ (current ++ take (span not_space cs) cs)) ∷ runs [] (drop (span not_space cs) cs)
unfolding runs span
runs-word b current [] = rw append-nil
runs-word b current (c ∷ cs) = elim (Bool-cases (is_space c)) [
  | inl h ↦ ground (arith, append-nil current)
  | inr h ↦ rw h (runs-word b (current ++ (c ∷ [])) cs ∙ rw append_assoc)
]

runs_step :
    (cs : Bytes)
    → StartsClear cs
    → cs ≢ []
    → runs [] cs ≡ take (span not_space cs) cs ∷ runs [] (drop (span not_space cs) cs)
unfolding runs span
runs_step [] h ne = absurd (ne refl)
runs_step (c ∷ cs) h ne = rw h (runs-word c [] cs)

span_pos : (cs : Bytes) → StartsClear cs → cs ≢ [] → 0 < span not_space cs
unfolding span
span_pos [] h ne = absurd (ne refl)
span_pos (c ∷ cs) h ne = rw h (omega arith)

-- The text behind the spaces at a position.
after_spaces :
    (text : Bytes) (position : ℕ)
    → (runs [] (drop position text)
        ≡ runs [] (drop (scan_while (length text) is_space text position) text))
      × StartsClear (drop (scan_while (length text) is_space text position) text)
      × (position ≤ scan_while (length text) is_space text position)
after_spaces text position =
    rw
      (
        scan_while-span (length text) is_space text position (omega arith),
        ← drop-drop (span is_space (drop position text)) position text,
      )
      (runs-spaces (drop position text), span-StartsClear (drop position text), omega arith)

-- One word from a position where one begins.
one_word :
    (text : Bytes) (start : ℕ)
    → StartsClear (drop start text)
    → start < length text
    → (runs [] (drop start text)
        ≡ slice text start (scan_while (length text) not_space text start - start)
          ∷ runs [] (drop (scan_while (length text) not_space text start) text))
      × (start < scan_while (length text) not_space text start)
one_word text start h inside =
    let s = drop start text in
    let nonempty : s ≢ [] = λ e. absurd (omega (arith, length-drop start text, ap length e)) in
    rw
      (
        scan_while-span (length text) not_space text start (omega arith),
        ← drop-drop (span not_space s) start text,
      )
      (
        runs_step s h nonempty
            ∙ ap (λ n. take n s ∷ runs [] (drop (span not_space s) s)) {x = span not_space s}
                {y = start + span not_space s - start} (omega arith),
        omega (arith, span_pos s h nonempty),
      )

words_loop-runs :
    (fuel : ℕ) (text : Bytes) (position : ℕ)
    → length text ≤ position + fuel
    → words_loop fuel text position ≡ runs [] (drop position text)
unfolding words_loop
words_loop-runs zero text position h =
    rw (drop_past position text (omega arith)) (unfold runs in refl)
words_loop-runs (suc fuel) text position h =
    let start = scan_while (length text) is_space text position in
    let finish = scan_while (length text) not_space text start in
    let (same, clear, le) = after_spaces text position in
    elim (Bool-cases (leb (length text) start)) [
      | inl past ↦ rw (same, drop_past start text (ground arith)) (ground (arith, runs_nil))
      | inr more ↦
          let (split, lt) = one_word text start clear (ground arith) in
          ground (arith, same, split, words_loop-runs fuel text finish (omega arith))
    ]

-- `words` gives the maximal runs without whitespace, in order.
pub words-runs : (text : Bytes) → words text ≡ runs [] text
unfolding words
words-runs text = words_loop-runs (length text) text 0 (omega arith)
