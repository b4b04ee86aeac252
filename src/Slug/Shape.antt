-- ===== src/Slug/Shape.antt =====
-- src/blogin/slug.cpp: what a slug looks like.
use blogin.Common.{
  ℕ, true, false, not, [], ◌∷◌, ◌++◌, ◌==◌, if◌then◌else◌, is_empty, Bytes, codes, ◌≡◌, refl, arith,
  Bool-cases, inl, inr, ◌⊎◌, ◌∙◌, ap,
}
use blogin.Text.{to_lower_ascii}
use blogin.Slug.{is_slug_character, spelled_out, Slugging, slug_step, slug_loop, slugify}

-- How far a reader of slugs has come.
pub data Reading : Type 0 where
  start in_word after_hyphen bad : Reading

unfoldable pub read : Reading → ℕ → Reading
unfolding is_slug_character
read start c = if is_slug_character c then in_word else bad
read in_word c = if is_slug_character c then in_word else if c == b'-' then after_hyphen else bad
read after_hyphen c = if is_slug_character c then in_word else bad
read bad c = bad

unfoldable pub read_all : Reading → Bytes → Reading
unfolding read
read_all r [] = r
read_all r (c ∷ cs) = read_all (read r c) cs

-- Nothing, or words of lower-case letters and digits with one hyphen between two words.
abbrev pub IsSlug : Bytes → Type 0
IsSlug out = (out ≡ []) ⊎ (read_all start out ≡ in_word)

read_all-append :
    (r : Reading) (xs ys : Bytes) → read_all r (xs ++ ys) ≡ read_all (read_all r xs) ys
unfolding read_all
read_all-append r [] ys = refl
read_all-append r (x ∷ xs) ys = read_all-append (read r x) xs ys

-- What the loop keeps of its output.
abbrev Good : Bytes → Type 0
Good out = read_all start out ≡ (if is_empty out then start else in_word)

separate : Bytes → Bytes
separate out = if not (is_empty out) then out ++ (b'-' ∷ []) else out

hyphenated :
    (out : Bytes) (c : ℕ) (cs : Bytes)
    → read_all start out ≡ in_word
    → is_slug_character c ≡ true
    → read_all start ((out ++ (b'-' ∷ [])) ++ (c ∷ cs)) ≡ read_all in_word cs
hyphenated out c cs g h =
    read_all-append start (out ++ (b'-' ∷ [])) (c ∷ cs)
    ∙ rw (read_all-append start out (b'-' ∷ []), g) (unfold read_all is_slug_character in rw h)

-- A word put behind a separator, or at the start.
separated-Good :
    (out : Bytes) (c : ℕ) (cs : Bytes)
    → Good out
    → is_slug_character c ≡ true
    → read_all in_word cs ≡ in_word
    → Good (separate out ++ (c ∷ cs))
unfolding separate
separated-Good [] c cs g h w = unfold read_all in rw h w
separated-Good (b ∷ out) c cs g h w = hyphenated (b ∷ out) c cs g h ∙ w

-- A byte put right behind the output.
joined-Good : (out : Bytes) (c : ℕ) → Good out → is_slug_character c ≡ true → Good (out ++ (c ∷ []))
joined-Good [] c g h = unfold read_all in rw h
joined-Good (b ∷ out) c g h =
    read_all-append start (b ∷ out) (c ∷ []) ∙ rw g (unfold read_all in rw h)

spelled_out-cases :
    (c : ℕ)
    → (spelled_out c ≡ [])
      ⊎ (spelled_out c ≡ codes "plus")
      ⊎ (spelled_out c ≡ codes "sharp")
      ⊎ (spelled_out c ≡ codes "and")
unfolding spelled_out
spelled_out-cases c = ground arith

spelled_out-Good :
    (out : Bytes) (c : ℕ)
    → Good out
    → is_empty (spelled_out c) ≡ false
    → Good (separate out ++ spelled_out c)
unfolding read_all is_slug_character
spelled_out-Good out c g h = elim (spelled_out-cases c) [
  | inl e ↦ cc (ap is_empty e)
  | inr (inl e) ↦ rw e (separated-Good out b'p' (codes "lus") g refl refl)
  | inr (inr (inl e)) ↦ rw e (separated-Good out b's' (codes "harp") g refl refl)
  | inr (inr (inr e)) ↦ rw e (separated-Good out b'a' (codes "nd") g refl refl)
]

slug_step-Good : (s : Slugging) (c : ℕ) → Good s.out → Good (slug_step s c).out
unfolding slug_step separate
slug_step-Good s c g = elim (Bool-cases (is_empty (spelled_out c))) [
  | inr word ↦ rw word (spelled_out-Good s.out c g word)
  | inl plain ↦ elim (Bool-cases (is_slug_character c)) [
    | inr other ↦ rw (plain, other) g
    | inl keep ↦ elim (Bool-cases s.pending_hyphen) [
      | inl pending ↦
          rw (plain, keep, pending) (separated-Good s.out c [] g keep (unfold read_all in refl))
      | inr joined ↦ rw (plain, keep, joined) (joined-Good s.out c g keep)
    ]
  ]
]

slug_loop-Good : (s : Slugging) (cs : Bytes) → Good s.out → Good (slug_loop s cs).out
unfolding slug_loop
slug_loop-Good s [] g = g
slug_loop-Good s (c ∷ cs) g = slug_loop-Good (slug_step s c) cs (slug_step-Good s c g)

Good-IsSlug : (out : Bytes) → Good out → IsSlug out
Good-IsSlug [] g = inl refl
Good-IsSlug (c ∷ cs) g = inr g

-- What `slugify` returns is empty, or words of lower-case letters and digits with one hyphen between two words,
-- whatever the text.
pub slugify-IsSlug : (text : Bytes) → IsSlug (slugify text)
unfolding slugify
slugify-IsSlug text = Good-IsSlug (slugify text) (
    slug_loop-Good (record { out = []; pending_hyphen = false }) (to_lower_ascii text)
      (unfold read_all in refl))
