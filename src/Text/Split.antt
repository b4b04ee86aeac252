-- ===== src/Text/Split.antt =====
-- src/blogin/text.cpp: `split`.
use blogin.Common.{
  ℕ, zero, suc, ◌+◌, ◌-◌, ◌<◌, Bool, true, false, not, none, some, List, [], ◌∷◌, ◌++◌, ◌≡◌, ◌≢◌,
  refl, ap, sym, ◌∙◌, arith, inl, inr, if◌then◌else◌, ◌==◌, all, All, Bytes, Bool-cases,
  Option-cases, find_if, find_byte, length, take, drop, length-drop, drop-drop, slice,
}
use blogin.Text.{split_loop, split}

-- The pieces put together again, with the separator between two.
abbrev pub join : ℕ → List Bytes → Bytes
join separator [] = []
join separator (p ∷ []) = p
join separator (p ∷ q ∷ ps) = p ++ (separator ∷ join separator (q ∷ ps))

-- No byte of the piece is the separator.
abbrev pub Lacks : ℕ → Bytes → Type 0
Lacks separator piece = all (λ c. not (c == separator)) piece ≡ true

-- The text cut at each separator, by recursion on the text.
abbrev push_front : ℕ → List Bytes → List Bytes
push_front c [] = (c ∷ []) ∷ []
push_front c (p ∷ ps) = (c ∷ p) ∷ ps

unfoldable pub pieces : ℕ → Bytes → List Bytes
pieces separator [] = [] ∷ []
pieces separator (c ∷ cs) =
    let rest = pieces separator cs in if c == separator then [] ∷ rest else push_front c rest

unfoldable pub find_piece : ℕ → Bytes → List Bytes
find_piece separator text = elim (find_if (λ c. c == separator) text) [
  | none ↦ text ∷ []
  | some i ↦ take i text ∷ pieces separator (drop (suc i) text)
]

pub pieces-find_piece :
    (separator : ℕ) (text : Bytes) → pieces separator text ≡ find_piece separator text
unfolding pieces find_piece find_if
pieces-find_piece separator [] = refl
pieces-find_piece separator (c ∷ cs) = ground (arith, pieces-find_piece separator cs)

pub find_if-lt-length :
    (p : ℕ → Bool) (text : Bytes) {i : ℕ} → find_if p text ≡ some i → i < length text
unfolding find_if
find_if-lt-length p [] e = cc
find_if-lt-length p (c ∷ cs) e = elim (Option-cases (find_if p cs)) [
  | inl n ↦ ground arith
  | inr (j, k) ↦ ground (arith, find_if-lt-length p cs k)
]

pub slice-find :
    (text : Bytes) (start i : ℕ) → slice text start (start + i - start) ≡ take i (drop start text)
slice-find text start i =
    ap (λ n. take n (drop start text)) {x = start + i - start} {y = i} (omega arith)

pub drop-find :
    (text : Bytes) (start i : ℕ) → drop (start + i + 1) text ≡ drop (suc i) (drop start text)
drop-find text start i =
    ap (λ n. drop n text) {x = start + i + 1} {y = start + suc i} (omega arith)
    ∙ sym (drop-drop (suc i) start text)

-- What is left behind a separator is shorter.
pub length-drop-find :
    (text : Bytes) (start i fuel : ℕ)
    → i < length (drop start text)
    → length (drop start text) < suc fuel
    → length (drop (start + i + 1) text) < fuel
length-drop-find text start i fuel h k =
    rw drop-find (omega (arith, length-drop (suc i) (drop start text)))

split_loop-pieces :
    (fuel : ℕ) (text : Bytes) (separator start : ℕ)
    → length (drop start text) < fuel
    → split_loop fuel text separator start ≡ pieces separator (drop start text)
unfolding split_loop find_byte find_piece
split_loop-pieces zero text separator start h = absurd (omega arith)
split_loop-pieces (suc fuel) text separator start h =
    elim (Option-cases (find_if (λ c. c == separator) (drop start text))) [
      | inl n ↦ rw (pieces-find_piece, n, split_loop, find_piece)
      | inr (i, s) ↦ rw (
        pieces-find_piece,
        s,
        split_loop,
        find_piece,
        slice-find,
        ← drop-find,
        split_loop-pieces fuel text separator (start + i + 1)
            (length-drop-find text start i fuel (find_if-lt-length _ _ s) h),
      )
    ]

-- `split` cuts the text at each separator.
pub split-pieces : (text : Bytes) (separator : ℕ) → split text separator ≡ pieces separator text
unfolding split
split-pieces text separator = split_loop-pieces (length text + 1) text separator 0 (omega arith)

join-push_front :
    (separator c : ℕ) (ps : List Bytes)
    → ps ≢ []
    → join separator (push_front c ps) ≡ c ∷ join separator ps
join-push_front separator c [] h = absurd (h refl)
join-push_front separator c (p ∷ []) h = refl
join-push_front separator c (p ∷ q ∷ ps) h = refl

push_front-ne-nil : (c : ℕ) (ps : List Bytes) → push_front c ps ≢ []
push_front-ne-nil c [] = λ e. cc
push_front-ne-nil c (p ∷ ps) = λ e. cc

pub pieces-ne-nil : (separator : ℕ) (text : Bytes) → pieces separator text ≢ []
unfolding pieces
pieces-ne-nil separator [] = λ e. cc
pieces-ne-nil separator (c ∷ cs) = elim (Bool-cases (c == separator)) [
  | inl h ↦ rw h (λ e. cc)
  | inr h ↦ rw h (push_front-ne-nil c (pieces separator cs))
]

join-cons-nil :
    (separator : ℕ) (ps : List Bytes)
    → ps ≢ []
    → join separator ([] ∷ ps) ≡ separator ∷ join separator ps
join-cons-nil separator [] h = absurd (h refl)
join-cons-nil separator (p ∷ ps) h = refl

join-pieces : (separator : ℕ) (text : Bytes) → join separator (pieces separator text) ≡ text
unfolding pieces
join-pieces separator [] = refl
join-pieces separator (c ∷ cs) = elim (Bool-cases (c == separator)) [
  | inl h ↦ rw h (
      join-cons-nil separator _ (pieces-ne-nil separator cs)
      ∙ ground (arith, join-pieces separator cs))
  | inr h ↦ rw h (
      join-push_front separator c _ (pieces-ne-nil separator cs)
      ∙ ap (◌∷◌ c) (join-pieces separator cs))
]

push_front-Lacks :
    (separator c : ℕ) (ps : List Bytes)
    → (c == separator) ≡ false
    → All (Lacks separator) ps
    → All (Lacks separator) (push_front c ps)
push_front-Lacks separator c [] h a = ground arith
push_front-Lacks separator c (p ∷ ps) h a = ground arith

pieces-Lacks : (separator : ℕ) (text : Bytes) → All (Lacks separator) (pieces separator text)
unfolding pieces
pieces-Lacks separator [] = (refl, tt)
pieces-Lacks separator (c ∷ cs) = elim (Bool-cases (c == separator)) [
  | inl h ↦ rw h (refl, pieces-Lacks separator cs)
  | inr h ↦ rw h (push_front-Lacks separator c (pieces separator cs) h (pieces-Lacks separator cs))
]

-- The pieces joined by the separator are the text again, there is at least one, and none holds
-- the separator.
pub join-split :
    (text : Bytes) (separator : ℕ)
    → (join separator (split text separator) ≡ text)
      × (split text separator ≢ [])
      × All (Lacks separator) (split text separator)
join-split text separator =
    rw split-pieces
      (join-pieces separator text, pieces-ne-nil separator text, pieces-Lacks separator text)
