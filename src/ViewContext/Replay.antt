-- ===== src/ViewContext/Replay.antt =====
-- src/blogin/view_context.cpp: `replay` against a recording.
use blogin.Common.{
  Bool, true, false, Option, none, some, List, [], ◌∷◌, map, if◌then◌else◌, All, All-append, Bytes,
  same_bytes, ◌≡◌, refl, ap, sym, ◌∙◌, subst, arith, Bool-cases, inl, inr,
}
use blogin.Common.Maps.{find_key, has_key, first_of, same_bytes→eq, same_bytes_refl}
use blogin.Value.{Value}
use blogin.Json.Writer.{Doubles, compact, to_json}
use blogin.ViewContext.{
  Recording, new_recording, ViewContext, names_of, append_read, read_again, read_in, key_of,
  begin_recording, end_recording, record_read, found_as, local_or, lookup, lookup_local, resolve,
  replay_onto, replay,
}

map-map : {A : Type 0} (f g : A → A) (xs : List A) → map g (map f xs) ≡ map (λ x. g (f x)) xs
map-map f g [] = refl
map-map f g (x ∷ xs) = ap (λ ys. g (f x) ∷ ys) (map-map f g xs)

map_id : {A : Type 0} (xs : List A) → map (λ x. x) xs ≡ xs
map_id [] = refl
map_id (x ∷ xs) = ap (λ ys. x ∷ ys) (map_id xs)

module _ {D : Type 0} (doubles : Doubles D) where
  -- What a template reads under a name: the local before the value.
  abbrev pub resolved : ViewContext D → Bytes → Option (Value D)
  resolved context name = first_of (find_key context.locals name) (find_key context.values name)

  abbrev text_of : Value D → Bytes
  text_of value = to_json doubles compact true value

  resolve-resolved :
      (context : ViewContext D) (name : Bytes)
      → resolve doubles context name ≡ found_as doubles context name (resolved context name)
  unfolding resolve lookup lookup_local
  resolve-resolved context name = either (find_key context.locals name)
    where
      either :
          (local : Option (Value D))
          → local_or doubles name (found_as doubles context name local)
            ≡ found_as doubles context name (first_of local (find_key context.values name))
      either none = refl
      either (some v) = refl

  -- The second context is the first one after reads of names, each with the value it resolves to.
  pub data Reads : ViewContext D → ViewContext D → Type 0 where
    none_read : (context : ViewContext D) → Reads context context
    read_then :
        {context later : ViewContext D} (name : Bytes) (value : Value D)
        → resolved context name ≡ some value
        → Reads (record_read doubles context name value) later
        → Reads context later

  pub Reads-trans : {b c d : ViewContext D} → Reads b c → Reads c d → Reads b d
  Reads-trans (none_read context) later = later
  Reads-trans (read_then name value e rest) later = read_then name value e (Reads-trans rest later)

  pub lookup_local-Reads :
      (context : ViewContext D) (name : Bytes) → Reads context (lookup_local doubles context name).1
  unfolding lookup_local
  lookup_local-Reads context name = either (find_key context.locals name) refl
    where
      either :
          (local : Option (Value D))
          → find_key context.locals name ≡ local
          → Reads context (found_as doubles context name local).1
      either none e = none_read context
      either (some v) e = read_then name v (rw e) (none_read _)

  -- A value is read where there is no local.
  pub lookup-Reads :
      (context : ViewContext D) (name : Bytes)
      → (lookup_local doubles context name).0 ≡ none
      → Reads context (lookup doubles (lookup_local doubles context name).1 name).1
  unfolding lookup_local lookup
  lookup-Reads context name = either (find_key context.locals name) refl
    where
      value_read :
          (value : Option (Value D))
          → find_key context.locals name ≡ none
          → find_key context.values name ≡ value
          → Reads context (found_as doubles context name value).1
      value_read none e f = none_read context
      value_read (some v) e f = read_then name v (rw (e, f)) (none_read _)

      either :
          (local : Option (Value D))
          → find_key context.locals name ≡ local
          → (found_as doubles context name local).0 ≡ none
          → Reads context (lookup doubles (found_as doubles context name local).1 name).1
      either none e h = value_read (find_key context.values name) e refl
      either (some v) e h = absurd (ground arith)

  -- What a read does to a recording.
  abbrev read_of : Bytes → Option (Value D) → Recording → Recording
  read_of name none recording = recording
  read_of name (some value) recording = read_in name (text_of value) recording

  note_reads : (Bytes → Option (Value D)) → List Bytes → Recording → Recording
  note_reads reading [] recording = recording
  note_reads reading (name ∷ names) recording =
      note_reads reading names (read_of name (reading name) recording)

  Reads-recordings :
      {context later : ViewContext D}
      → Reads context later
      → (names : List Bytes) × (later ≡ record context {
        recordings = map (note_reads (resolved context) names) context.recordings;
      })
  unfolding record_read note_reads
  Reads-recordings (none_read context) =
      ([], ap (λ rs. record context { recordings = rs }) (sym (map_id context.recordings)))
  Reads-recordings (read_then {context = context} name value e rest) =
      let (names, p) = Reads-recordings rest in
      (
        name ∷ names,
        p
            ∙ ap (λ rs. record context { recordings = rs })
                (map-map (read_of name (some value)) (note_reads (resolved context) names)
                    context.recordings
                  ∙ ap
                      (λ o.
                        map (λ r. note_reads (resolved context) names (read_of name o r))
                          context.recordings)
                      (sym e)),
      )

  module _ (reading : Bytes → Option (Value D)) where
    abbrev Current : Bytes × Bytes → Type 0
    Current entry = (value : Value D) × ((reading entry.0 ≡ some value) × (entry.1 ≡ text_of value))

    -- What a recording holds is what the names read as now.
    abbrev Agrees : Recording → Type 0
    Agrees recording =
        All Current recording.reads × ((recording.bound ≡ []) × (recording.replayable ≡ true))

    find_key-Current :
        (reads : List (Bytes × Bytes)) (name seen : Bytes) (value : Value D)
        → All Current reads
        → find_key reads name ≡ some seen
        → reading name ≡ some value
        → seen ≡ text_of value
    unfolding find_key
    find_key-Current [] name seen value all f e = absurd (ground arith)
    find_key-Current ((k, text) ∷ reads) name seen value ((v, (r, t)), all) f e =
        elim (Bool-cases (same_bytes k name)) [
          | inl same ↦
              let this : text ≡ seen = ground arith in
              let known : v ≡ value = ground (arith, same_bytes→eq k name same) in
              sym this ∙ (t ∙ ap text_of known)
          | inr other ↦ find_key-Current reads name seen value all (ground arith) e
        ]

    read_of-Agrees :
        (name : Bytes) (o : Option (Value D)) (recording : Recording)
        → reading name ≡ o
        → Agrees recording
        → Agrees (read_of name o recording)
    unfolding read_in has_key
    read_of-Agrees name none recording e agrees = agrees
    read_of-Agrees name (some value) recording e (all, (b, r)) =
        subst
          (λ here. Agrees (
            if here
            then recording
            else read_again name (text_of value) recording (find_key recording.reads name)))
          (sym (ap (λ names. has_key names name) b)) (again (find_key recording.reads name) refl)
      where
        again :
            (o : Option Bytes)
            → find_key recording.reads name ≡ o
            → Agrees (read_again name (text_of value) recording o)
        again none f = (
          All-append Current recording.reads ((name, text_of value) ∷ []) all
              ((value, (e, refl)), tt),
          (b, r),
        )
        again (some seen) f =
            let same : same_bytes seen (text_of value) ≡ true =
              subst (λ t. same_bytes seen t ≡ true)
                (find_key-Current recording.reads name seen value all f e) (same_bytes_refl seen) in
            subst
              (λ (here : Bool).
                Agrees (if here then recording else record recording { replayable = false }))
              (sym same) (all, (b, r))

    note_reads-Agrees :
        (names : List Bytes) (recording : Recording)
        → Agrees recording
        → Agrees (note_reads reading names recording)
    unfolding note_reads
    note_reads-Agrees [] recording agrees = agrees
    note_reads-Agrees (name ∷ names) recording agrees =
        note_reads-Agrees names (read_of name (reading name) recording)
          (read_of-Agrees name (reading name) recording refl agrees)

  replay_onto-key :
      (reads : List (Bytes × Bytes)) (context : ViewContext D) (key : Bytes)
      → All (Current (resolved context)) reads
      → (replay_onto doubles key context (names_of reads)).0 ≡ some (key_of key reads)
  unfolding replay_onto key_of record_read
  replay_onto-key [] context key all = refl
  replay_onto-key ((name, text) ∷ reads) context key ((value, (e, t)), all) =
      ap
        (λ (found : Option (Value D) × ViewContext D).
          (elim found.0 as (λ o. Option Bytes × ViewContext D) [
            | none ↦ (none, found.1)
            | some v ↦
                replay_onto doubles (append_read key name (text_of v)) found.1 (names_of reads)
          ]).0)
        (resolve-resolved context name ∙ ap (found_as doubles context name) e)
      ∙ (replay_onto-key reads (record_read doubles context name value)
            (append_read key name (text_of value)) all
          ∙ ap (λ x. some (key_of (append_read key name x) reads)) (sym t))

  abbrev pub Replays : ViewContext D → Type 0
  Replays context =
      let ended = end_recording context in
      ((replay doubles ended.1 ended.1.read_names).0 ≡ some ended.0) × (ended.1.replayable ≡ true)

  -- The recording of a fragment that only reads is replayable, and `replay` gives its key.
  pub replay-Reads :
      (context later : ViewContext D) → Reads (begin_recording context) later → Replays later
  unfolding begin_recording end_recording replay
  replay-Reads context later read =
      let start = begin_recording context in
      let (names, p) = Reads-recordings read in
      let agrees = note_reads-Agrees (resolved context) names new_recording (tt, (refl, refl)) in
      subst Replays (sym p) (
        replay_onto-key (note_reads (resolved context) names new_recording).reads _ [] agrees.0,
        agrees.1.1,
      )
