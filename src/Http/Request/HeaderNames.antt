-- ===== src/Http/Request/HeaderNames.antt =====
-- src/blogin/http.cpp: the headers of a request, under their names.
use blogin.Common.{
  ℕ, ◌+◌, false, Option, none, some, List, [], ◌∷◌, if◌then◌else◌, is_empty, drop, take, Bytes,
  slice, find_byte, find_bytes, same_bytes, ◌≡◌, refl, ap, ◌∙◌, sym, arith, Bool-cases,
  Option-cases, inl, inr,
}
use blogin.Common.Maps.{same_bytes→eq, first_of}
use blogin.Text.{trim, to_lower_ascii}
use blogin.Http.Request.{
  Headers, find_header, emplace, parse_headers, header_lines, header, parse_head, parse_found,
  parse_request, ParsedRequest, Request, ready, crlf, blank_line,
}

first_of-none : (o : Option Bytes) → first_of o none ≡ o
first_of-none none = refl
first_of-none (some value) = refl

first_of_assoc : (o p q : Option Bytes) → first_of (first_of o p) q ≡ first_of o (first_of p q)
first_of_assoc none p q = refl
first_of_assoc (some value) p q = refl

-- After `emplace` a name has the value it had before, and the new value if it had none and is the
-- name given.
find_header-emplace :
    (headers : Headers) (name value other : Bytes)
    → find_header (emplace headers name value) other
      ≡ first_of (find_header headers other) (if same_bytes name other then some value else none)
unfolding find_header emplace
find_header-emplace [] name value other = refl
find_header-emplace ((key, old) ∷ headers) name value other =
    elim (Bool-cases (same_bytes key other)) [
      | inl h ↦ elim (Bool-cases (same_bytes key name)) [ inl n ↦ rw (n, h) | inr n ↦ rw (n, h) ]
      | inr h ↦ elim (Bool-cases (same_bytes key name)) [
        | inl n ↦
            let moved : same_bytes name other ≡ false =
              ap (λ k. same_bytes k other) (sym (same_bytes→eq key name n)) ∙ h in
            rw (n, h, moved) (sym (first_of-none (find_header headers other)))
        | inr n ↦ rw (n, h) (find_header-emplace headers name value other)
      ]
    ]

-- What a header line gives a name, the line without the blanks at its ends: the part behind its
-- colon, if the part before it is the name in lower case.
unfoldable pub value_in : Bytes → Bytes → Option Bytes
value_in name stripped = elim (find_byte stripped b':' 0) [
  | none ↦ none
  | some colon ↦
      if same_bytes (to_lower_ascii (slice stripped 0 colon)) name
      then some (trim (drop (colon + 1) stripped))
      else none
]

-- The value of the first line that has one for the name.
unfoldable pub first_value : Bytes → List Bytes → Option Bytes
first_value name [] = none
first_value name (line ∷ lines) =
    first_of (if is_empty (trim line) then none else value_in name (trim line))
      (first_value name lines)

value_in-found :
    (name stripped : Bytes) (colon : ℕ)
    → find_byte stripped b':' 0 ≡ some colon
    → value_in name stripped ≡ (
        if same_bytes (to_lower_ascii (slice stripped 0 colon)) name
        then some (trim (drop (colon + 1) stripped))
        else none)
unfolding value_in
value_in-found name stripped colon f = ground (arith, f)

find_header-parse_headers :
    (lines : List Bytes) (headers result : Headers) (name : Bytes)
    → parse_headers lines headers ≡ some result
    → find_header result name ≡ first_of (find_header headers name) (first_value name lines)
unfolding parse_headers first_value
find_header-parse_headers [] headers result name h =
    ap (λ (o : Option Headers). elim o [ none ↦ none | some r ↦ find_header r name ]) (sym h)
    ∙ sym (first_of-none (find_header headers name))
find_header-parse_headers (line ∷ lines) headers result name h =
    let stripped = trim line in
    elim (Bool-cases (is_empty stripped)) [
      | inl e ↦ rw e (find_header-parse_headers lines headers result name (ground arith))
      | inr e ↦ elim (Option-cases (find_byte stripped b':' 0)) [
        | inl n ↦ absurd (ground arith)
        | inr (colon, f) ↦
            let key = to_lower_ascii (slice stripped 0 colon) in
            let value = trim (drop (colon + 1) stripped) in
            rw (e, value_in-found name stripped colon f)
              (find_header-parse_headers lines (emplace headers key value) result name
                  (ground arith)
                ∙ (ap (λ o. first_of o (first_value name lines))
                      (find_header-emplace headers key value name)
                    ∙ first_of_assoc (find_header headers name) _ _))
      ]
    ]

abbrev pub or_empty : Option Bytes → Bytes
or_empty none = []
or_empty (some value) = value

header-find_header :
    (r : Request) (name : Bytes)
    → header r name ≡ or_empty (find_header r.headers (to_lower_ascii name))
unfolding header
header-find_header r name = by_value (find_header r.headers (to_lower_ascii name))
  where
    by_value : (o : Option Bytes) → elim o [ none ↦ [] | some value ↦ value ] ≡ or_empty o
    by_value none = refl
    by_value (some value) = refl

parse_head-headers :
    (head : Bytes) (n : ℕ)
    → (parse_head head n).state ≡ ready
    → parse_headers (header_lines head (find_bytes head crlf)) []
      ≡ some (parse_head head n).request.headers
unfolding parse_head
parse_head-headers head n h = ground arith

-- A request that is ready, whose blank line is at `end`, gives for a name, in any case, the value of
-- the first header line with that name, and the empty text where there is none.
pub header-parse_request :
    (buffer : Bytes) (end : ℕ) (name : Bytes)
    → find_bytes buffer blank_line ≡ some end
    → (parse_request buffer).state ≡ ready
    → header (parse_request buffer).request name
      ≡ or_empty (
          first_value
            (to_lower_ascii name)
            (header_lines (take end buffer) (find_bytes (take end buffer) crlf)))
unfolding parse_request find_header
header-parse_request buffer end name f h =
    let parsed : parse_request buffer ≡ parse_head (take end buffer) end =
      ap (parse_found buffer) f in
    let is_ready = ap (λ (p : ParsedRequest). p.state) (sym parsed) ∙ h in
    ap (λ (p : ParsedRequest). header p.request name) parsed
    ∙ (header-find_header (parse_head (take end buffer) end).request name
        ∙ ap or_empty (
            find_header-parse_headers
              (header_lines (take end buffer) (find_bytes (take end buffer) crlf)) []
              (parse_head (take end buffer) end).request.headers (to_lower_ascii name)
              (parse_head-headers (take end buffer) end is_ready)))
