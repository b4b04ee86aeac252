-- ===== src/Slug/Stable.antt =====
-- src/blogin/slug.cpp: `slugify` on a slug.
use blogin.Common.{
  ℕ, Bool, true, false, not, ◌&&◌, [], ◌∷◌, ◌++◌, ◌==◌, if◌then◌else◌, is_empty, ==_iff, Bytes, ◌≡◌,
  ◌≢◌, refl, arith, Bool-cases, inl, inr, ◌∙◌, ap, ap₂, append_assoc, append-nil,
}
use blogin.Text.{to_lower_ascii, lower_byte}
use blogin.Slug.{is_slug_character, spelled_out, Slugging, slug_step, slug_loop, slugify}
use blogin.Slug.Shape.{
  Reading, start, in_word, after_hyphen, bad, read, read_all, IsSlug, slugify-IsSlug,
}

read_all_bad : (cs : Bytes) → read_all bad cs ≡ bad
unfolding read_all
read_all_bad [] = refl
read_all_bad (c ∷ cs) = read_all_bad cs

slug_byte :
    (s : Slugging) (c : ℕ)
    → is_slug_character c ≡ true
    → slug_step s c ≡ record {
      out =
          (if s.pending_hyphen && not (is_empty s.out) then s.out ++ (b'-' ∷ []) else s.out)
          ++ (c ∷ []);
      pending_hyphen = false;
    }
unfolding slug_step spelled_out is_slug_character
slug_byte s c h = ground arith

slug_hyphen : (s : Slugging) → slug_step s b'-' ≡ record s { pending_hyphen = true }
unfolding slug_step spelled_out is_slug_character
slug_hyphen s = refl

abbrev loop_from : Bytes → Bool → Bytes → Bytes
loop_from out pending cs = (slug_loop (record { out = out; pending_hyphen = pending }) cs).out

-- The round at a byte that is no slug character: only a hyphen may stand there.
loop_hyphen :
    (c : ℕ) (cs : Bytes) (b : ℕ) (out : Bytes)
    → ((read_all after_hyphen cs ≡ in_word)
        → loop_from (b ∷ out) true cs ≡ b ∷ (out ++ (b'-' ∷ cs)))
    → read_all (if c == b'-' then after_hyphen else bad) cs ≡ in_word
    → (slug_loop (slug_step (record { out = b ∷ out; pending_hyphen = false }) c) cs).out
      ≡ b ∷ (out ++ (c ∷ cs))
loop_hyphen c cs b out ih h = elim (Bool-cases (c == b'-')) [
  | inl e ↦ rw ((==_iff c b'-').0 e, slug_hyphen) (ih (rw e at h))
  | inr e ↦ cc (rw e at h, read_all_bad cs)
]

loop_in_word :
    (cs : Bytes) (b : ℕ) (out : Bytes)
    → ((read_all in_word cs ≡ in_word) → loop_from (b ∷ out) false cs ≡ b ∷ (out ++ cs))
      × ((read_all after_hyphen cs ≡ in_word)
          → loop_from (b ∷ out) true cs ≡ b ∷ (out ++ (b'-' ∷ cs)))
unfolding slug_loop read_all
loop_in_word [] b out = (λ h. rw append-nil, λ h. cc)
loop_in_word (c ∷ cs) b out = elim (Bool-cases (is_slug_character c)) [
  | inl keep ↦ rw keep (
    λ h.
        ap (λ s. (slug_loop s cs).out) (slug_byte _ c keep)
        ∙ (loop_in_word cs b (out ++ (c ∷ []))).0 h
        ∙ rw append_assoc,
    λ h.
        ap (λ s. (slug_loop s cs).out) (slug_byte _ c keep)
        ∙ (loop_in_word cs b ((out ++ (b'-' ∷ [])) ++ (c ∷ []))).0 h
        ∙ rw (append_assoc, append_assoc),
  )
  | inr other ↦
      rw other (loop_hyphen c cs b out (loop_in_word cs b out).1, λ h. cc (h, read_all_bad cs))
]

not_bad : (r : Reading) (c : ℕ) (cs : Bytes) → read_all (read r c) cs ≢ bad → read r c ≢ bad
not_bad r c cs h e = h (rw e (read_all_bad cs))

lower_byte-read : (r : Reading) (c : ℕ) → read r c ≢ bad → lower_byte c ≡ c
unfolding read lower_byte
lower_byte-read start c h = ground arith
lower_byte-read in_word c h = ground arith
lower_byte-read after_hyphen c h = ground arith
lower_byte-read bad c h = absurd (h refl)

lower-IsSlug : (r : Reading) (cs : Bytes) → read_all r cs ≢ bad → to_lower_ascii cs ≡ cs
unfolding read_all to_lower_ascii
lower-IsSlug r [] h = refl
lower-IsSlug r (c ∷ cs) h =
    ap₂ ◌∷◌ (lower_byte-read r c (not_bad r c cs h)) (lower-IsSlug (read r c) cs h)

read_all_nil : read_all start [] ≡ start
unfolding read_all
read_all_nil = refl

loop_start : (cs : Bytes) → IsSlug cs → loop_from [] false cs ≡ cs
unfolding read_all slug_loop
loop_start [] h = refl
loop_start (c ∷ cs) (inl e) = cc
loop_start (c ∷ cs) (inr h) = elim (Bool-cases (is_slug_character c)) [
  | inl keep ↦
      ap (λ s. (slug_loop s cs).out) (slug_byte _ c keep) ∙ (loop_in_word cs c []).0 (rw keep at h)
  | inr other ↦ cc (rw other at h, read_all_bad cs)
]

IsSlug-ne-bad : (cs : Bytes) → IsSlug cs → read_all start cs ≢ bad
IsSlug-ne-bad cs (inl s) e = cc (rw s at e, read_all_nil)
IsSlug-ne-bad cs (inr w) e = cc

slugify_self : (cs : Bytes) → IsSlug cs → slugify cs ≡ cs
unfolding slugify
slugify_self cs h =
    ap (loop_from [] false) (lower-IsSlug start cs (IsSlug-ne-bad cs h)) ∙ loop_start cs h

-- Making a slug of a slug changes nothing.
pub slugify_idem : (text : Bytes) → slugify (slugify text) ≡ slugify text
slugify_idem text = slugify_self (slugify text) (slugify-IsSlug text)
