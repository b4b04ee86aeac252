-- ===== src/Text/Trim.antt =====
-- src/blogin/text.cpp: what `trim_start`, `trim_end` and `trim` leave.
use blogin.Common.{
  ℕ, true, false, [], ◌∷◌, ◌++◌, ◌≡◌, refl, ap, ◌∙◌, arith, inl, inr, if◌then◌else◌, all, Bytes,
  Bool-cases,
}
use blogin.Text.{is_space, trim_start, trim_end, trim}

-- The first byte, if there is one, is not whitespace.
abbrev pub StartsClear : Bytes → Type 0
StartsClear [] = Unit {0}
StartsClear (c ∷ cs) = is_space c ≡ false

-- The last byte, if there is one, is not whitespace.
abbrev pub EndsClear : Bytes → Type 0
EndsClear [] = Unit {0}
EndsClear (c ∷ []) = is_space c ≡ false
EndsClear (c ∷ d ∷ cs) = EndsClear (d ∷ cs)

abbrev pub AllSpace : Bytes → Type 0
AllSpace cs = all is_space cs ≡ true

pub trim_start-cons :
    (c : ℕ) (cs : Bytes) → trim_start (c ∷ cs) ≡ (if is_space c then trim_start cs else c ∷ cs)
unfolding trim_start
trim_start-cons c cs = ground arith

abbrev end_cons : ℕ → Bytes → Bytes
end_cons c [] = if is_space c then [] else c ∷ []
end_cons c (x ∷ xs) = c ∷ x ∷ xs

pub trim_end-cons : (c : ℕ) (cs : Bytes) → trim_end (c ∷ cs) ≡ end_cons c (trim_end cs)
unfolding trim_end
trim_end-cons c [] = ground arith
trim_end-cons c (d ∷ cs) = ground arith

trim_start_parts :
    (text : Bytes)
    → (before : Bytes) × (text ≡ before ++ trim_start text)
      × AllSpace before
      × StartsClear (trim_start text)
trim_start_parts [] = ([], unfold trim_start in refl, refl, unfold trim_start in tt)
trim_start_parts (c ∷ cs) = elim (Bool-cases (is_space c)) [
  | inl h ↦
      let (before, e, a, s) = trim_start_parts cs in
      rw (trim_start-cons, h) (c ∷ before, ap (◌∷◌ c) e, rw h a, s)
  | inr h ↦ rw (trim_start-cons, h) ([], refl, refl, h)
]

EndsClear-cons : (c x : ℕ) (xs : Bytes) → EndsClear (x ∷ xs) → EndsClear (c ∷ x ∷ xs)
EndsClear-cons c x xs h = h

end_cons_parts :
    (c : ℕ) (kept after : Bytes)
    → AllSpace after
    → EndsClear kept
    → (rest : Bytes) × (c ∷ (kept ++ after) ≡ end_cons c kept ++ rest)
      × AllSpace rest
      × EndsClear (end_cons c kept)
end_cons_parts c [] after a k = elim (Bool-cases (is_space c)) [
  | inl h ↦ rw h (c ∷ after, refl, rw h a, tt)
  | inr h ↦ rw h (after, refl, a, h)
]
end_cons_parts c (x ∷ xs) after a k = (after, refl, a, k)

trim_end_parts :
    (text : Bytes)
    → (after : Bytes) × (text ≡ trim_end text ++ after) × AllSpace after × EndsClear (trim_end text)
trim_end_parts [] = ([], unfold trim_end in refl, refl, unfold trim_end in tt)
trim_end_parts (c ∷ cs) =
    let (after, e, a, k) = trim_end_parts cs in
    let (rest, e', a', k') = end_cons_parts c (trim_end cs) after a k in
    rw trim_end-cons (rest, ap (◌∷◌ c) e ∙ e', a', k')

end_cons-StartsClear : (c : ℕ) (kept : Bytes) → is_space c ≡ false → StartsClear (end_cons c kept)
end_cons-StartsClear c [] h = rw h h
end_cons-StartsClear c (x ∷ xs) h = h

trim_end-StartsClear : (text : Bytes) → StartsClear text → StartsClear (trim_end text)
trim_end-StartsClear [] h = unfold trim_end in tt
trim_end-StartsClear (c ∷ cs) h = rw trim_end-cons (end_cons-StartsClear c (trim_end cs) h)

-- What is cut off at both ends is whitespace, and what is left neither begins nor ends with any.
pub trim_lem :
    (text : Bytes)
    → (before : Bytes) × (after : Bytes) × (text ≡ before ++ (trim text ++ after))
      × AllSpace before
      × AllSpace after
      × StartsClear (trim text)
      × EndsClear (trim text)
unfolding trim
trim_lem text =
    let (before, e, a, s) = trim_start_parts text in
    let (after, e', a', k) = trim_end_parts (trim_start text) in
    (
      before,
      after,
      e ∙ ap (λ t. before ++ t) e',
      a,
      a',
      trim_end-StartsClear (trim_start text) s,
      k,
    )

trim_start-StartsClear : (text : Bytes) → StartsClear text → trim_start text ≡ text
trim_start-StartsClear [] h = unfold trim_start in refl
trim_start-StartsClear (c ∷ cs) h = rw (trim_start-cons, h)

trim_end-EndsClear : (text : Bytes) → EndsClear text → trim_end text ≡ text
trim_end-EndsClear [] h = unfold trim_end in refl
trim_end-EndsClear (c ∷ []) h = trim_end-cons c [] ∙ unfold trim_end in rw h
trim_end-EndsClear (c ∷ d ∷ cs) h = rw (trim_end-cons, trim_end-EndsClear (d ∷ cs) h)

-- A text that neither begins nor ends with whitespace is kept whole.
pub trim_clear : (text : Bytes) → StartsClear text → EndsClear text → trim text ≡ text
unfolding trim
trim_clear text s k = rw (trim_start-StartsClear text s) (trim_end-EndsClear text k)
