-- ===== src/Writer/Tree.antt =====
-- src/blogin/writer.cpp: the output tree after the writes of a build and `prune`.
use blogin.Common.{
  Bool, true, false, ◌||◌, Option, none, some, List, [], ◌∷◌, if◌then◌else◌, Bytes, codes,
  same_bytes, ◌≡◌, refl, ap, sym, ◌∙◌, arith, Bool-cases, inl, inr,
}
use blogin.Common.Maps.{find_key, has_key, same_bytes→eq, same_bytes_refl, first_of}
use blogin.Writer.{
  Files, Writer, filtered, begin_write, note_hash, expect, write_file, survives, prune_files, prune,
}
use blogin.Writer.Trust.{TrustedAt, NoClash, find_key-write_file}

-- The writes of a build, in order: keys with contents.
abbrev pub Writes : Type 0
Writes = List (Bytes × Bytes)

abbrev pub keys_of : Writes → List Bytes
keys_of [] = []
keys_of ((key, content) ∷ writes) = key ∷ keys_of writes

module _ (page_filter : Option (Bytes → Bytes)) (is_page : Bytes → Bool) where
  unfoldable pub write_all : Writer → Files → Writes → Writer × Files
  write_all w files [] = (w, files)
  write_all w files ((key, content) ∷ writes) =
      let step = write_file page_filter is_page w files key content in
      write_all step.0 step.1 writes

  -- What a build is to produce: each key with its filtered bytes.
  unfoldable pub outputs : Writes → Files
  outputs [] = []
  outputs ((key, content) ∷ writes) =
      (key, filtered page_filter is_page key content) ∷ outputs writes

  -- No key comes twice; of each file that is there, the last build's manifest is true, and no other
  -- bytes of it have the hash of the new ones.
  unfoldable pub Ready : Writer → Files → Writes → Type 0
  Ready w files [] = Unit {0}
  Ready w files ((key, content) ∷ writes) =
      TrustedAt w files key
      × NoClash files key (filtered page_filter is_page key content)
      × (has_key (keys_of writes) key ≡ false)
      × Ready w files writes

expect_rest : (w : Writer) (key : Bytes) → (expect w key).previous ≡ w.previous
unfolding expect
expect_rest w key = ground arith

expect_keys :
    (w : Writer) (key other : Bytes)
    → has_key (expect w key).expected other
      ≡ (if same_bytes key other then true else has_key w.expected other)
unfolding expect has_key
expect_keys w key other = elim (Bool-cases (has_key w.expected key)) [
  | inl h ↦ elim (Bool-cases (same_bytes key other)) [
    | inl e ↦ rw (h, e) (ap (has_key w.expected) (sym (same_bytes→eq key other e)) ∙ h)
    | inr e ↦ rw (h, e)
  ]
  | inr h ↦ rw h
]

write_file-previous :
    (page_filter : Option (Bytes → Bytes)) (is_page : Bytes → Bool) (w : Writer) (files : Files)
    (key content : Bytes)
    → (write_file page_filter is_page w files key content).0.previous ≡ w.previous
unfolding write_file begin_write note_hash
write_file-previous page_filter is_page w files key content = ground (arith, expect_rest w key)

write_file-expected :
    (page_filter : Option (Bytes → Bytes)) (is_page : Bytes → Bool) (w : Writer) (files : Files)
    (key content other : Bytes)
    → has_key (write_file page_filter is_page w files key content).0.expected other
      ≡ (if same_bytes key other then true else has_key w.expected other)
unfolding write_file begin_write note_hash
write_file-expected page_filter is_page w files key content other =
    ground (arith, expect_keys w key other)

prune_files-keeps :
    (is_keep : Bytes → Bool) (expected : List Bytes) (files : Files) (key : Bytes)
    → find_key (prune_files is_keep expected files) key
      ≡ (if survives is_keep expected key then find_key files key else none)
unfolding prune_files find_key
prune_files-keeps is_keep expected [] key = ground arith
prune_files-keeps is_keep expected ((k, content) ∷ files) key =
    elim (Bool-cases (survives is_keep expected k)) [
      | inl s ↦ elim (Bool-cases (same_bytes k key)) [
        | inl e ↦ rw (s, e, ap (survives is_keep expected) (sym (same_bytes→eq k key e)) ∙ s)
        | inr e ↦ rw (s, e) (prune_files-keeps is_keep expected files key)
      ]
      | inr s ↦ elim (Bool-cases (same_bytes k key)) [
        | inl e ↦
            rw (s, e)
              (prune_files-keeps is_keep expected files key
                ∙ ap (λ b. if b then find_key files key else none)
                    (ap (survives is_keep expected) (sym (same_bytes→eq k key e)) ∙ s)
                ∙ sym (
                    ap (λ b. if b then some content else none)
                      (ap (survives is_keep expected) (sym (same_bytes→eq k key e)) ∙ s)))
        | inr e ↦ rw (s, e) (prune_files-keeps is_keep expected files key)
      ]
    ]

-- Two names for one key are in the same lists.
has_key-same :
    (keys : List Bytes) (key other : Bytes)
    → has_key keys key ≡ false
    → same_bytes key other ≡ true
    → has_key keys other ≡ false
has_key-same keys key other h e = ap (has_key keys) (sym (same_bytes→eq key other e)) ∙ h

has_key_here : (key : Bytes) (keys : List Bytes) → has_key (key ∷ keys) key ≡ true
unfolding has_key
has_key_here key keys = rw (same_bytes_refl key)

has_key_later :
    (key other : Bytes) (keys : List Bytes)
    → has_key keys other ≡ true
    → has_key (key ∷ keys) other ≡ true
unfolding has_key
has_key_later key other keys h = ground arith

-- A key of the later writes is not the key of this one.
other_key :
    (key other : Bytes) (writes : Writes)
    → has_key (keys_of writes) key ≡ false
    → has_key (keys_of writes) other ≡ true
    → same_bytes key other ≡ false
other_key key other writes fresh h = elim (Bool-cases (same_bytes key other)) [
  | inl e ↦ absurd (ground (arith, h, has_key-same (keys_of writes) key other fresh e))
  | inr e ↦ e
]

-- What is not among the keys of the writes is not among the outputs.
module _ (page_filter : Option (Bytes → Bytes)) (is_page : Bytes → Bool) where
  find_key-outputs-none :
      (writes : Writes) (key : Bytes)
      → has_key (keys_of writes) key ≡ false
      → find_key (outputs page_filter is_page writes) key ≡ none
  unfolding has_key find_key outputs
  find_key-outputs-none [] key h = refl
  find_key-outputs-none ((k, content) ∷ writes) key h = elim (Bool-cases (same_bytes k key)) [
    | inl e ↦ absurd (ground arith)
    | inr e ↦ rw e (find_key-outputs-none writes key (ground arith))
  ]

  find_key-outputs-some :
      (writes : Writes) (key : Bytes)
      → has_key (keys_of writes) key ≡ true
      → (bytes : Bytes) × (find_key (outputs page_filter is_page writes) key ≡ some bytes)
  unfolding has_key find_key outputs
  find_key-outputs-some [] key h = absurd (ground arith)
  find_key-outputs-some ((k, content) ∷ writes) key h = elim (Bool-cases (same_bytes k key)) [
    | inl e ↦ (filtered page_filter is_page k content, rw e)
    | inr e ↦ rw e (find_key-outputs-some writes key (ground arith))
  ]

  -- A step that leaves the files of the later writes alone leaves them ready.
  Ready-after :
      (w v : Writer) (files after : Files) (writes : Writes)
      → v.previous ≡ w.previous
      → ((key : Bytes)
          → has_key (keys_of writes) key ≡ true
          → find_key after key ≡ find_key files key)
      → Ready page_filter is_page w files writes
      → Ready page_filter is_page v after writes
  unfolding Ready
  Ready-after w v files after [] p agree r = tt
  Ready-after w v files after ((key, content) ∷ writes) p agree (trusted, no_clash, fresh, rest) =
      let same = agree key (has_key_here key (keys_of writes)) in
      (
        λ known found f g.
            trusted known found (ap (λ h. find_key h key) (sym p) ∙ f) (sym same ∙ g),
        λ old g. no_clash old (sym same ∙ g),
        fresh,
        Ready-after w v files after writes p
            (λ other h. agree other (has_key_later key other (keys_of writes) h)) rest,
      )

  write_all-expected :
      (writes : Writes) (w : Writer) (files : Files) (other : Bytes)
      → has_key (write_all page_filter is_page w files writes).0.expected other
        ≡ has_key (keys_of writes) other || has_key w.expected other
  unfolding write_all has_key
  write_all-expected [] w files other = refl
  write_all-expected ((key, content) ∷ writes) w files other =
      let step = write_file page_filter is_page w files key content in
      ground (
        arith,
        write_all-expected writes step.0 step.1 other,
        write_file-expected page_filter is_page w files key content other,
      )

  write_all-files :
      (writes : Writes) (w : Writer) (files : Files) (other : Bytes)
      → Ready page_filter is_page w files writes
      → find_key (write_all page_filter is_page w files writes).1 other
        ≡ first_of (find_key (outputs page_filter is_page writes) other) (find_key files other)
  unfolding write_all outputs Ready find_key
  write_all-files [] w files other r = refl
  write_all-files ((key, content) ∷ writes) w files other (trusted, no_clash, fresh, rest) =
      let step = write_file page_filter is_page w files key content in
      let landed = λ (k : Bytes).
        find_key-write_file page_filter is_page w files key content k trusted no_clash in
      let later = write_all-files writes step.0 step.1 other (
        Ready-after w step.0 files step.1 writes
          (write_file-previous page_filter is_page w files key content)
          (λ k h. landed k ∙ rw (other_key key k writes fresh h)) rest) in
      later ∙ elim (Bool-cases (same_bytes key other)) [
        | inl e ↦ rw (
          find_key-outputs-none writes other (has_key-same (keys_of writes) key other fresh e),
          landed other,
          e,
        )
        | inr e ↦ rw (landed other, e)
      ]

kept_output :
    {A : Type 0} (is_manifest is_state is_kept : Bool) (content : Option A)
    → (if is_manifest || (is_state || (is_kept || true)) then content else none) ≡ content
kept_output is_manifest is_state is_kept content = ground arith

-- The output tree after a build and its `prune`, by key: the output of the build where it has one,
-- the old file where `prune` leaves it alone, and nothing else. The build starts with no expected
-- key and is `Ready`: no key is written twice, and of each file that a write finds, the manifest of
-- the last build is true and the hash tells its bytes from the new ones.
pub prune-write_all :
    (page_filter : Option (Bytes → Bytes)) (is_page is_keep : Bytes → Bool) (w : Writer)
    (files : Files) (writes : Writes) (key : Bytes)
    → w.expected ≡ []
    → Ready page_filter is_page w files writes
    → let built = write_all page_filter is_page w files writes in
      find_key (prune is_keep built.0 built.1) key
      ≡ first_of
          (find_key (outputs page_filter is_page writes) key)
          (if survives is_keep [] key then find_key files key else none)
unfolding prune survives has_key
prune-write_all page_filter is_page is_keep w files writes key fresh ready =
    let built = write_all page_filter is_page w files writes in
    let kept =
      write_all-expected page_filter is_page writes w files key
      ∙ ap (λ keys. has_key (keys_of writes) key || has_key keys key) fresh in
    let pruned = prune_files-keeps is_keep built.0.expected built.1 key in
    let landed = write_all-files page_filter is_page writes w files key ready in
    elim (Bool-cases (has_key (keys_of writes) key)) [
      | inl h ↦
          let (bytes, out) = find_key-outputs-some page_filter is_page writes key h in
          pruned
          ∙ rw (kept, h, landed, out)
              (kept_output (same_bytes key (codes ".blogin-manifest.json"))
                (same_bytes key (codes ".blogin-state.json")) (is_keep key) (some bytes))
      | inr h ↦
          pruned ∙ rw (kept, h, landed, find_key-outputs-none page_filter is_page writes key h)
    ]
