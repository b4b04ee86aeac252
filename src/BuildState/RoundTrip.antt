-- ===== src/BuildState/RoundTrip.antt =====
-- src/blogin/build_state.cpp: the document of `save`, and what `load` takes out of a document.
use blogin.Common.{
  ℕ, ◌^◌, ◌<◌, none, some, List, [], ◌∷◌, ◌++◌, ltb, All, Bytes, same_bytes, append-nil,
  append_assoc, ◌≡◌, refl, ap, sym, ◌∙◌, arith, Bool-cases, inl, inr,
}
use blogin.Common.Maps.{find_key}
use blogin.Value.{
  ℤ, Items, Members, string, array, object, nil, cons, end, member, push_back, push, set_member,
  set, find_member, get_or_null, members, items, as_integer, as_string,
}
use blogin.BuildState.{
  SourceState, Sources, BuildState, to_signed, to_unsigned, source_value, write_sources,
  derived_value, document_of, source_of, emplace_source, read_sources, read_derived, state_of,
}

to_unsigned-to_signed : (n : ℕ) → n < 2 ^ 64 → to_unsigned (to_signed n) ≡ n
unfolding to_unsigned to_signed
to_unsigned-to_signed n h = elim (Bool-cases (ltb n (2 ^ 63))) [
  | inl e ↦ rw e
  | inr e ↦ rw e (omega arith)
]

module _ {D : Type 0} where
  -- The keys are those of a map: none comes twice, nor among `before`.
  unfoldable pub Apart : Sources D → Sources D → Type 0
  Apart before [] = Unit {0}
  Apart before ((key, source) ∷ sources) =
      (find_key before key ≡ none) × Apart (before ++ ((key, source) ∷ [])) sources

  abbrev pub Sized : Sources D → Type 0
  Sized = All (λ entry. entry.1.size < 2 ^ 64)

  -- The members of the object that stands for the sources.
  members_of : Sources D → Members D
  members_of [] = end
  members_of ((key, source) ∷ sources) = member key (source_value source) (members_of sources)

  set_member-members_of :
      (before : Sources D) (key : Bytes) (source : SourceState D)
      → find_key before key ≡ none
      → set_member (members_of before) key (source_value source)
        ≡ members_of (before ++ ((key, source) ∷ []))
  unfolding set_member members_of find_key
  set_member-members_of [] key source h = refl
  set_member-members_of ((k, old) ∷ before) key source h = elim (Bool-cases (same_bytes k key)) [
    | inl e ↦ absurd (ground arith)
    | inr e ↦
        rw e (
          ap (member k (source_value old)) (set_member-members_of before key source (ground arith)))
  ]

  write_sources-members_of :
      (before sources : Sources D)
      → Apart before sources
      → write_sources (object (members_of before)) sources ≡ object (members_of (before ++ sources))
  unfolding write_sources Apart set
  write_sources-members_of before [] apart =
      ap (λ s. object (members_of s)) (sym (append-nil before))
  write_sources-members_of before ((key, source) ∷ sources) (fresh, apart) =
      ap (λ ms. write_sources (object ms) sources) (set_member-members_of before key source fresh)
      ∙ (write_sources-members_of (before ++ ((key, source) ∷ [])) sources apart
          ∙ ap (λ s. object (members_of s)) (append_assoc before ((key, source) ∷ []) sources))

  read_derived-push_back :
      (vs : Items D) (entry : Bytes)
      → read_derived (push_back vs (string entry)) ≡ read_derived vs ++ (entry ∷ [])
  unfolding read_derived push_back as_string
  read_derived-push_back nil entry = refl
  read_derived-push_back (cons v vs) entry =
      ap (λ es. as_string v [] ∷ es) (read_derived-push_back vs entry)

  read_derived-derived_value :
      (vs : Items D) (entries : List Bytes)
      → read_derived (items (derived_value (array vs) entries)) ≡ read_derived vs ++ entries
  unfolding derived_value items push
  read_derived-derived_value vs [] = sym (append-nil (read_derived vs))
  read_derived-derived_value vs (entry ∷ entries) =
      read_derived-derived_value (push_back vs (string entry)) entries
      ∙ (ap (λ es. es ++ entries) (read_derived-push_back vs entry)
          ∙ append_assoc (read_derived vs) (entry ∷ []) entries)

  module _ (truncate : D → ℤ) where
    source_of-source_value :
        (source : SourceState D)
        → source.size < 2 ^ 64
        → source_of truncate (source_value source) ≡ source
    unfolding source_of source_value set set_member same_bytes get_or_null find_member as_integer
        as_string
    source_of-source_value source h =
        ap (λ n. record source { size = n }) (to_unsigned-to_signed source.size h)

    read_sources-members_of :
        (before sources : Sources D)
        → Apart before sources
        → Sized sources
        → read_sources truncate before (members_of sources) ≡ before ++ sources
    unfolding read_sources members_of emplace_source Apart
    read_sources-members_of before [] apart sized = sym (append-nil before)
    read_sources-members_of before ((key, source) ∷ sources) (fresh, apart) (fits, sized) =
        ap
          (λ o.
            read_sources truncate
              (elim o as (λ x. Sources D) [
                | none ↦ before ++ ((key, source_of truncate (source_value source)) ∷ [])
                | some old ↦ before
              ])
              (members_of sources))
          fresh
        ∙ (ap (λ s. read_sources truncate (before ++ ((key, s) ∷ [])) (members_of sources))
              (source_of-source_value source fits)
            ∙ (read_sources-members_of (before ++ ((key, source) ∷ [])) sources apart sized
                ∙ append_assoc before ((key, source) ∷ []) sources))

    read_sources-write_sources :
        (sources : Sources D)
        → Apart [] sources
        → Sized sources
        → read_sources truncate [] (members (write_sources (object end) sources)) ≡ sources
    unfolding members members_of
    read_sources-write_sources sources apart sized =
        ap (λ v. read_sources truncate [] (members v)) (write_sources-members_of [] sources apart)
        ∙ read_sources-members_of [] sources apart sized

    -- What `load` takes out of the document that `save` makes is the state: every field, the order of
    -- the entries included. In each of the two maps no key comes twice, and the sizes fit into 64
    -- bits, those past the range of a signed one included.
    pub state_of-document_of :
        (state : BuildState D)
        → Apart [] state.sources
        → Sized state.sources
        → Apart [] state.copies
        → Sized state.copies
        → state_of truncate (document_of state) ≡ state
    unfolding state_of document_of set set_member same_bytes get_or_null find_member as_integer
        as_string read_derived
    state_of-document_of state apart sized apart' sized' =
        let derived = read_derived (items (derived_value (array nil) state.derived)) in
        let copies = read_sources truncate [] (members (write_sources (object end) state.copies)) in
        ap (λ s. record state { sources = s; copies = copies; derived = derived })
          (read_sources-write_sources state.sources apart sized)
        ∙ (ap (λ s. record state { copies = s; derived = derived })
              (read_sources-write_sources state.copies apart' sized')
            ∙ ap (λ s. record state { derived = s }) (read_derived-derived_value nil state.derived))
