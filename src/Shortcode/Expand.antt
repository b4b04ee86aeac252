-- ===== src/Shortcode/Expand.antt =====
-- src/blogin/shortcode.cpp: templates without placeholders, and names that nothing knows.
use blogin.Common.{
  ℕ, zero, suc, ◌≤◌, false, none, List, [], ◌∷◌, All, length, Bytes, codes, starts_with, find_bytes,
  ◌≡◌, refl, ap, arith, Bool-cases, Option-cases, inl, inr,
}
use blogin.Shortcode.{
  Argument, Registry, render_loop, render_template, find_template, knows, expand, escape_attribute,
}
use blogin.Shortcode.Safe.{Safe, escape_attribute-Safe}

render_loop-plain :
    (fuel : ℕ) (body : Bytes) (arguments : List Argument)
    → length body ≤ fuel
    → find_bytes body (codes "{{") ≡ none
    → render_loop fuel body arguments ≡ body
unfolding render_loop find_bytes
render_loop-plain zero [] arguments h e = refl
render_loop-plain zero (c ∷ cs) arguments h e = absurd (omega arith)
render_loop-plain (suc fuel) [] arguments h e = refl
render_loop-plain (suc fuel) (c ∷ cs) arguments h e =
    elim (Bool-cases (starts_with (c ∷ cs) (codes "{{"))) [
      | inl s ↦ absurd (ground arith)
      | inr s ↦
          rw s (ap (λ t. c ∷ t) (render_loop-plain fuel cs arguments (omega arith) (ground arith)))
    ]

-- A template without an opening brace pair is copied as it is.
pub render_template-plain :
    (body : Bytes) (arguments : List Argument)
    → find_bytes body (codes "{{") ≡ none
    → render_template body arguments ≡ body
unfolding render_template
render_template-plain body arguments e =
    render_loop-plain (length body) body arguments (omega arith) e

-- A shortcode that the registry does not know shows its own source, escaped: no byte of what is put
-- into the page opens or closes a tag or ends an attribute in double quotes.
pub expand_unknown :
    (templates : Registry) (name arguments source : Bytes)
    → knows templates name ≡ false
    → (expand templates name arguments source ≡ escape_attribute source)
      × All Safe (expand templates name arguments source)
unfolding knows expand
expand_unknown templates name arguments source h =
    elim (Option-cases (find_template templates name)) [
      | inr (entry, f) ↦ absurd (ground arith)
      | inl n ↦
          let shown : expand templates name arguments source ≡ escape_attribute source =
            ground arith in
          (shown, rw shown (escape_attribute-Safe source))
    ]
