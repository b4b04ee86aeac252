-- ===== src/Writer/Trust.antt =====
-- src/blogin/writer.cpp: when `write` may leave a file alone.
use blogin.Common.{
  Bool, true, not, Option, some, if◌then◌else◌, Bytes, same_bytes, ◌≡◌, ap, sym, ◌∙◌, arith,
  Bool-cases, Option-cases, inl, inr,
}
use blogin.Common.Maps.{find_key, find_key-assign, same_bytes→eq}
use blogin.Writer.{Files, Writer, content_hash, unchanged, begin_write, filtered, write_file}

-- What the last build's manifest says of the file is true of it.
abbrev pub TrustedAt : Writer → Files → Bytes → Type 0
TrustedAt w files key =
    (known content : Bytes)
    → find_key w.previous key ≡ some known
    → find_key files key ≡ some content
    → known ≡ content_hash content

-- The file's hash tells its bytes from the new ones.
abbrev pub NoClash : Files → Bytes → Bytes → Type 0
NoClash files key bytes =
    (old : Bytes)
    → find_key files key ≡ some old
    → content_hash old ≡ content_hash bytes
    → old ≡ bytes

unchanged_known :
    (w : Writer) (files : Files) (key hash : Bytes)
    → unchanged w files key hash ≡ true
    → (known : Bytes) × ((find_key w.previous key ≡ some known) × (known ≡ hash))
unfolding unchanged
unchanged_known w files key hash h = elim (Option-cases (find_key w.previous key)) [
  | inl n ↦ absurd (ground arith)
  | inr (known, f) ↦ (known, (f, same_bytes→eq known hash (ground arith)))
]

unchanged_file :
    (w : Writer) (files : Files) (key hash : Bytes)
    → unchanged w files key hash ≡ true
    → (old : Bytes) × (find_key files key ≡ some old)
unfolding unchanged
unchanged_file w files key hash h = elim (Option-cases (find_key files key)) [
  | inl n ↦ absurd (ground arith)
  | inr (old, f) ↦ (old, f)
]

-- A file that is left alone holds the bytes that it would be given.
pub find_key-unchanged :
    (w : Writer) (files : Files) (key bytes : Bytes)
    → TrustedAt w files key
    → NoClash files key bytes
    → unchanged w files key (content_hash bytes) ≡ true
    → find_key files key ≡ some bytes
find_key-unchanged w files key bytes trusted no_clash h =
    let (known, (f, e)) = unchanged_known w files key (content_hash bytes) h in
    let (old, g) = unchanged_file w files key (content_hash bytes) h in
    g ∙ ap some (no_clash old g (sym (trusted known old f g) ∙ e))

begun :
    (w : Writer) (files : Files) (key hash : Bytes)
    → (begin_write w files key hash).1 ≡ not (unchanged w files key hash)
unfolding begin_write
begun w files key hash = ground arith

-- After `write` the file holds the filtered bytes, whether they were written or skipped, and every
-- other file is as it was; the manifest of the last build is true of the file, and no other bytes
-- of the file have the hash of the new ones.
pub find_key-write_file :
    (page_filter : Option (Bytes → Bytes)) (is_page : Bytes → Bool) (w : Writer) (files : Files)
    (key content other : Bytes)
    → TrustedAt w files key
    → NoClash files key (filtered page_filter is_page key content)
    → find_key (write_file page_filter is_page w files key content).1 other ≡ (
        if same_bytes key other
        then some (filtered page_filter is_page key content)
        else find_key files other)
unfolding write_file
find_key-write_file page_filter is_page w files key content other trusted no_clash =
    let bytes = filtered page_filter is_page key content in
    let test = begun w files key (content_hash bytes) in
    elim (Bool-cases (unchanged w files key (content_hash bytes))) [
      | inr changed ↦ rw (test, changed) (find_key-assign files key other bytes)
      | inl same ↦ elim (Bool-cases (same_bytes key other)) [
        | inl e ↦
            rw (test, same, e)
              (ap (find_key files) (sym (same_bytes→eq key other e))
                ∙ find_key-unchanged w files key bytes trusted no_clash same)
        | inr e ↦ rw (test, same, e)
      ]
    ]
