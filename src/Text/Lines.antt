-- ===== src/Text/Lines.antt =====
-- src/blogin/text.cpp: `split_lines`.
use blogin.Common.{
  ℕ, zero, suc, ◌+◌, ◌≤◌, ◌<◌, true, List, [], ◌∷◌, ◌≡◌, ◌≢◌, refl, arith, inl, inr, if◌then◌else◌,
  ◌==◌, ltb, leb, Bytes, Option-cases, find_if, find_byte, length, drop, length-drop,
}
use blogin.Text.{split_lines_loop, split_lines, split, drop_return}
use blogin.Text.Split.{
  pieces, find_piece, pieces-find_piece, find_if-lt-length, slice-find, drop-find, length-drop-find,
  pieces-ne-nil, split-pieces,
}

-- The lines among the pieces between newlines: each but the last loses one carriage return at its
-- end, and the last counts only if it is not empty.
abbrev pub lines_of : List Bytes → List Bytes
lines_of [] = []
lines_of ([] ∷ []) = []
lines_of ((c ∷ cs) ∷ []) = (c ∷ cs) ∷ []
lines_of (p ∷ q ∷ ps) = drop_return p ∷ lines_of (q ∷ ps)

lines_of-cons :
    (p : Bytes) (ps : List Bytes) → ps ≢ [] → lines_of (p ∷ ps) ≡ drop_return p ∷ lines_of ps
lines_of-cons p [] h = absurd (h refl)
lines_of-cons [] (q ∷ ps) h = refl
lines_of-cons (c ∷ cs) (q ∷ ps) h = refl

last_line : Bytes → List Bytes
last_line text = if ltb 0 (length text) then text ∷ [] else []

lines_of_last : (text : Bytes) → lines_of (text ∷ []) ≡ last_line text
unfolding last_line
lines_of_last [] = refl
lines_of_last (c ∷ cs) = ground arith

last_line_lem :
    (text : Bytes) (start : ℕ)
    → (if ltb start (length text) then drop start text ∷ [] else [])
      ≡ lines_of (drop start text ∷ [])
unfolding last_line
last_line_lem text start = rw lines_of_last (ground (arith, length-drop start text))

split_lines_loop-lines_of :
    (fuel : ℕ) (text : Bytes) (start : ℕ)
    → start ≤ length text
    → length (drop start text) < fuel
    → split_lines_loop fuel text start ≡ lines_of (pieces b'\n' (drop start text))
unfolding split_lines_loop find_byte find_piece
split_lines_loop-lines_of zero text start l h = absurd (omega arith)
split_lines_loop-lines_of (suc fuel) text start l h =
    let inside : leb start (length text) ≡ true = ground arith in
    elim (Option-cases (find_if (λ c. c == b'\n') (drop start text))) [
      | inl n ↦
          rw (pieces-find_piece, n, split_lines_loop, find_piece, inside) (last_line_lem text start)
      | inr (i, s) ↦
          let below = find_if-lt-length _ _ s in
          rw (
            pieces-find_piece,
            s,
            split_lines_loop,
            find_piece,
            inside,
            lines_of-cons _ _ (pieces-ne-nil b'\n' (drop (suc i) (drop start text))),
            slice-find,
            ← drop-find,
            split_lines_loop-lines_of fuel text (start + i + 1)
                (omega (arith, length-drop start text))
                (length-drop-find text start i fuel below h),
          )
    ]

-- `split_lines` gives the pieces between the newlines, each but the last less a carriage return at
-- its end, and the last one only if it is not empty.
pub split_lines-split : (text : Bytes) → split_lines text ≡ lines_of (split text b'\n')
unfolding split_lines
split_lines-split text =
    rw split-pieces (split_lines_loop-lines_of (length text + 1) text 0 (omega arith) (omega arith))
