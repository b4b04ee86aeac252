-- ===== src/Reload/Versions.antt =====
-- src/blogin/reload.cpp: the versions of a channel.
use blogin.Common.{
  ℕ, suc, ◌+◌, true, false, Option, none, some, List, [], ◌∷◌, ◌++◌, length, Bytes, take, drop,
  find_bytes, starts_with, Bool-cases, ◌⊎◌, ◌≡◌, refl, ap, sym, ◌∙◌, arith, Option-cases, inl, inr,
  take-append-drop, append-nil, subst,
}
use blogin.Value.{pos}
use blogin.Json.Writer.{Doubles}
use blogin.Reload.{
  Channel, Push, change, failure, run_push, run, hello, hello_message, inject, inject_at,
  closing_body,
}

run_push_next :
    {D : Type 0} (doubles : Doubles D) (c : Channel) (p : Push)
    → (run_push doubles c p).1 ≡ record c { version = c.version + 1 }
unfolding run_push
run_push_next doubles c (change paths) = refl
run_push_next doubles c (failure detail file line) = refl

-- After a run of the channel a page that connects is told the old version plus the number of the
-- pushes of the run, and the session as before.
pub hello-run :
    {D : Type 0} (doubles : Doubles D) (c : Channel) (ps : List Push)
    → hello doubles (run doubles c ps).1
      ≡ hello_message doubles (pos (c.version + length ps)) c.session
unfolding run hello
hello-run doubles c [] =
    ap (λ n. hello_message doubles (pos n) c.session) {x = c.version} {y = c.version + 0}
      (omega arith)
hello-run doubles c (p ∷ ps) =
    hello-run doubles (run_push doubles c p).1 ps
    ∙ (ap (λ d. hello_message doubles (pos (d.version + length ps)) d.session)
          (run_push_next doubles c p)
        ∙ ap (λ n. hello_message doubles (pos n) c.session) {x = c.version + 1 + length ps}
            {y = c.version + suc (length ps)} (omega arith))

find_bytes-starts_with :
    (text wanted : Bytes) (i : ℕ)
    → find_bytes text wanted ≡ some i
    → starts_with (drop i text) wanted ≡ true
unfolding find_bytes starts_with
find_bytes-starts_with [] [] i h = ground arith
find_bytes-starts_with [] (w ∷ ws) i h = ground arith
find_bytes-starts_with (c ∷ cs) wanted i h = elim (Bool-cases (starts_with (c ∷ cs) wanted)) [
  | inl s ↦ ground arith
  | inr s ↦ elim (Option-cases (find_bytes cs wanted)) [
    | inl n ↦ ground arith
    | inr (j, f) ↦ let later = find_bytes-starts_with cs wanted j f in ground arith
  ]
]

-- The tag starts at no byte of `before`, where `after` follows it.
abbrev pub NoTagIn : Bytes → Bytes → Type 0
NoTagIn [] after = Unit {0}
NoTagIn (c ∷ before) after =
    (starts_with (c ∷ (before ++ after)) closing_body ≡ false) × NoTagIn before after

not_found-NoTagIn : (text : Bytes) → find_bytes text closing_body ≡ none → NoTagIn text []
unfolding find_bytes
not_found-NoTagIn [] h = tt
not_found-NoTagIn (c ∷ cs) h = elim (Bool-cases (starts_with (c ∷ cs) closing_body)) [
  | inl s ↦ absurd (ground arith)
  | inr s ↦ (
    subst (λ t. starts_with (c ∷ t) closing_body ≡ false) (sym (append-nil cs)) s,
    not_found-NoTagIn cs (later (find_bytes cs closing_body) refl),
  )
]
  where
    later : (o : Option ℕ) → find_bytes cs closing_body ≡ o → find_bytes cs closing_body ≡ none
    later none e = e
    later (some i) e = absurd (ground arith)

found-NoTagIn :
    (text : Bytes) (i : ℕ)
    → find_bytes text closing_body ≡ some i
    → NoTagIn (take i text) (drop i text)
unfolding find_bytes
found-NoTagIn [] i h = absurd (ground arith)
found-NoTagIn (c ∷ cs) i h = elim (Bool-cases (starts_with (c ∷ cs) closing_body)) [
  | inl s ↦
      subst (λ n. NoTagIn (take n (c ∷ cs)) (drop n (c ∷ cs))) {x = 0} {y = i} (ground arith) tt
  | inr s ↦ elim (Option-cases (find_bytes cs closing_body)) [
    | inl n ↦ absurd (ground arith)
    | inr (j, f) ↦
        subst (λ n. NoTagIn (take n (c ∷ cs)) (drop n (c ∷ cs))) {x = suc j} {y = i} (ground arith)
          (
            subst (λ t. starts_with (c ∷ t) closing_body ≡ false) (sym (take-append-drop j cs)) s,
            found-NoTagIn cs j f,
          )
  ]
]

-- The page with the script is the page cut in two with the script between: at the first place where
-- the closing body tag starts, or at the end where it starts nowhere.
pub inject-pieces :
    (html script : Bytes)
    → (before : Bytes) × ((after : Bytes) × ((before ++ after ≡ html)
          × ((inject html script ≡ before ++ (script ++ after))
              × (NoTagIn before after × ((after ≡ []) ⊎ (starts_with after closing_body ≡ true))))))
unfolding inject
inject-pieces html script = elim (Option-cases (find_bytes html closing_body)) [
  | inl n ↦ (
    html,
    (
      [],
      (
        append-nil html,
        (
          ap (inject_at html script) n ∙ ap (λ t. html ++ t) (sym (append-nil script)),
          (not_found-NoTagIn html n, inl refl),
        ),
      ),
    ),
  )
  | inr (i, f) ↦ (
    take i html,
    (
      drop i html,
      (
        take-append-drop i html,
        (
          ap (inject_at html script) f,
          (found-NoTagIn html i f, inr (find_bytes-starts_with html closing_body i f)),
        ),
      ),
    ),
  )
]
