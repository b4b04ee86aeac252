-- ===== src/Http/Request/Stable.antt =====
-- src/blogin/http.cpp: `parse_request` on a buffer that grows.
use blogin.Common.{
  ℕ, ◌+◌, ◌≤◌, Bool, true, none, some, [], ◌∷◌, ◌++◌, ◌==◌, ◌&&◌, take-append_short, if◌then◌else◌,
  length, Bytes, starts_with, find_bytes, is_empty, ◌≡◌, ◌≢◌, refl, ap, sym, ◌∙◌, arith,
  Option-cases, inl, inr,
}
use blogin.Http.Request.{
  parse_found, incomplete, ready, malformed, parse_head, parse_request, blank_line,
}

found_in_nothing :
    (more wanted : Bytes) (i : ℕ)
    → (if is_empty wanted then some 0 else none) ≡ some i
    → find_bytes more wanted ≡ some i
unfolding find_bytes starts_with
found_in_nothing more (w ∷ ws) i h = ground arith
found_in_nothing [] [] i h = h
found_in_nothing (c ∷ cs) [] i h = h

starts_with_fits :
    (text prefix : Bytes) → starts_with text prefix ≡ true → length prefix ≤ length text
unfolding starts_with
starts_with_fits text [] h = ground arith
starts_with_fits [] (p ∷ ps) h = ground arith
starts_with_fits (c ∷ cs) (p ∷ ps) h = ground (arith, starts_with_fits cs ps)

find_bytes_fits :
    (text wanted : Bytes) (i : ℕ)
    → find_bytes text wanted ≡ some i
    → i + length wanted ≤ length text
unfolding find_bytes
find_bytes_fits [] [] i h = ground arith
find_bytes_fits [] (w ∷ ws) i h = ground arith
find_bytes_fits (c ∷ cs) wanted i h = elim (Option-cases (find_bytes cs wanted)) [
  | inl n ↦ let fits = starts_with_fits (c ∷ cs) wanted in ground arith
  | inr (j, f) ↦
      let bound = find_bytes_fits cs wanted j f in
      let fits = starts_with_fits (c ∷ cs) wanted in ground arith
]

-- A prefix no longer than the text is not found through what follows the text.
starts_with_early :
    (text more prefix : Bytes)
    → length prefix ≤ length text
    → starts_with (text ++ more) prefix ≡ starts_with text prefix
unfolding starts_with
starts_with_early [] more [] h = refl
starts_with_early (c ∷ cs) more [] h = refl
starts_with_early [] more (p ∷ ps) h = ground arith
starts_with_early (c ∷ cs) more (p ∷ ps) h =
    ap (λ b. c == p && b) (starts_with_early cs more ps (ground arith))

find_bytes-append :
    (text more wanted : Bytes) (i : ℕ)
    → find_bytes text wanted ≡ some i
    → find_bytes (text ++ more) wanted ≡ some i
unfolding find_bytes
find_bytes-append [] more wanted i h = found_in_nothing more wanted i h
find_bytes-append (c ∷ cs) more wanted i h =
    let fits = find_bytes_fits (c ∷ cs) wanted i h in
    let same = starts_with_early (c ∷ cs) more wanted (ground arith) in
    elim (Option-cases (find_bytes cs wanted)) [
      | inl n ↦ ground arith
      | inr (j, f) ↦ let later = find_bytes-append cs more wanted j f in ground arith
    ]

not_ready : (b : Bool) → (if b then malformed else incomplete) ≢ ready
not_ready b h = ground arith

-- A request that is ready stays so, with the same result, whatever bytes arrive behind it.
pub parse_request-append :
    (buffer more : Bytes)
    → (parse_request buffer).state ≡ ready
    → parse_request (buffer ++ more) ≡ parse_request buffer
unfolding parse_request
parse_request-append buffer more h = elim (Option-cases (find_bytes buffer blank_line)) [
  | inl n ↦ absurd (not_ready _ (sym (ap (λ o. (parse_found buffer o).state) n) ∙ h))
  | inr (i, f) ↦
      let fits = find_bytes_fits buffer blank_line i f in
      let head = take-append_short i buffer more (omega arith) in
      let mark = find_bytes-append buffer more blank_line i f in
      ap (λ o. parse_found (buffer ++ more) o) mark
      ∙ (ap (λ t. parse_head t i) head ∙ sym (ap (λ o. parse_found buffer o) f))
]
