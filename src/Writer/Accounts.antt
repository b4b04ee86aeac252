-- ===== src/Writer/Accounts.antt =====
-- src/blogin/writer.cpp: what the writer's lists say of each other after any calls.
use blogin.Common.{
  ℕ, Bool, is_empty, true, false, Option, List, [], ◌∷◌, ◌++◌, if◌then◌else◌, length, min, Bytes,
  same_bytes, ◌≡◌, refl, ap, sym, ◌∙◌, arith, subst, append-nil, append_assoc, length-append,
  drop-append_left, ◌≤◌, Bool-cases, Option-cases, inl, inr,
}
use blogin.Common.Maps.{find_key, has_key, same_bytes→eq, same_bytes_refl}
use blogin.Writer.{
  Files, Writer, new_writer, exists_file, begin_write, note_hash, expect, write_file, keep,
  record_output, mark, since, load_manifest, hashes_of, Hashes,
}
use blogin.Value.{Value, is_object, members}
use blogin.Json.Parser.{Outcome, ok, err, stuck}
use blogin.Json.Parser.Values.{parse_json}

-- A call of a writer that changes it, with what the files are at the time.
pub data Call : Writer → Writer → Type 1 where
  write_call :
      (page_filter : Option (Bytes → Bytes)) (is_page : Bytes → Bool) (w : Writer) (files : Files)
      (key content : Bytes)
      → Call w (write_file page_filter is_page w files key content).0
  keep_call : (w : Writer) (files : Files) (key : Bytes) → Call w (keep w files key).0
  record_call : (w : Writer) (key : Bytes) → Call w (record_output w key)
  load_call :
      {D : Type 0} (to_double : Bytes → Option D) (text : Bytes) (w : Writer)
      → Call w (load_manifest to_double text w)

-- Calls in a row; any thread may make each of them, since the lock lets one in at a time.
pub data Calls : Writer → Writer → Type 1 where
  done : (w : Writer) → Calls w w
  then_call : {w v u : Writer} → Calls w v → Call v u → Calls w u

-- No key comes twice.
unfoldable pub Distinct : List Bytes → Type 0
Distinct [] = Unit {0}
Distinct (key ∷ keys) = (has_key keys key ≡ false) × Distinct keys

-- `produced` lists the keys of `expected`, each once.
abbrev pub Accounted : Writer → Type 0
Accounted w =
    ((key : Bytes) → has_key w.produced key ≡ has_key w.expected key) × Distinct w.produced

-- What a call does to the two lists: nothing, or one new key.
data Grows (w v : Writer) : Type 0 where
  same_keys : v.produced ≡ w.produced → v.expected ≡ w.expected → Grows w v
  new_key :
      (key : Bytes)
      → has_key w.expected key ≡ false
      → v.produced ≡ w.produced ++ (key ∷ [])
      → v.expected ≡ key ∷ w.expected
      → Grows w v

expect-Grows : (w : Writer) (key : Bytes) → Grows w (expect w key)
unfolding expect
expect-Grows w key = elim (Bool-cases (has_key w.expected key)) [
  | inl h ↦ same_keys (rw h) (rw h)
  | inr h ↦ new_key key h (rw h) (rw h)
]

-- A record that has the two lists of `expect w key`.
Grows-as :
    (w u v : Writer) → Grows w u → v.produced ≡ u.produced → v.expected ≡ u.expected → Grows w v
Grows-as w u v (same_keys p e) q f = same_keys (q ∙ p) (f ∙ e)
Grows-as w u v (new_key key h p e) q f = new_key key h (q ∙ p) (f ∙ e)

-- Whatever the manifest holds, only `previous` changes.
load_manifest-Grows :
    {D : Type 0} (to_double : Bytes → Option D) (text : Bytes) (w : Writer)
    → Grows w (load_manifest to_double text w)
unfolding load_manifest
load_manifest-Grows {D} to_double text w = by_text (is_empty text) (parse_json to_double text)
  where
    read : Outcome (Value D) → Writer
    read outcome = elim outcome [
      | ok value p ↦
          if is_object value
          then record w { previous = hashes_of w.previous (members value) }
          else w
      | err e ↦ w
      | stuck ↦ w
    ]

    by_object :
        (b : Bool) (previous : Hashes) → Grows w (if b then record w { previous = previous } else w)
    by_object true previous = same_keys refl refl
    by_object false previous = same_keys refl refl

    by_outcome : (outcome : Outcome (Value D)) → Grows w (read outcome)
    by_outcome (ok value p) = by_object (is_object value) (hashes_of w.previous (members value))
    by_outcome (err e) = same_keys refl refl
    by_outcome stuck = same_keys refl refl

    by_text : (b : Bool) (outcome : Outcome (Value D)) → Grows w (if b then w else read outcome)
    by_text true outcome = same_keys refl refl
    by_text false outcome = by_outcome outcome

Call-Grows : {w v : Writer} → Call w v → Grows w v
unfolding write_file begin_write note_hash keep record_output
Call-Grows (write_call page_filter is_page w files key content) =
    Grows-as w (expect w key) _ (expect-Grows w key) (ground arith) (ground arith)
Call-Grows (keep_call w files key) = elim (Option-cases (find_key w.previous key)) [
  | inl n ↦ same_keys (ground arith) (ground arith)
  | inr (known, f) ↦ elim (Bool-cases (exists_file files key)) [
    | inr e ↦ same_keys (ground arith) (ground arith)
    | inl e ↦ Grows-as w (expect w key) _ (expect-Grows w key) (ground arith) (ground arith)
  ]
]
Call-Grows (record_call w key) = Grows-as w (expect w key) _ (expect-Grows w key) refl refl
Call-Grows (load_call to_double text w) = load_manifest-Grows to_double text w

has_key-snoc :
    (keys : List Bytes) (key other : Bytes)
    → has_key (keys ++ (key ∷ [])) other
      ≡ (if same_bytes key other then true else has_key keys other)
unfolding has_key
has_key-snoc [] key other = refl
has_key-snoc (k ∷ keys) key other = ground (arith, has_key-snoc keys key other)

other_way : (key other : Bytes) → same_bytes key other ≡ false → same_bytes other key ≡ false
other_way key other h = elim (Bool-cases (same_bytes other key)) [
  | inl e ↦
      absurd
        (ground (arith, h, same_bytes_refl key, ap (same_bytes key) (same_bytes→eq other key e)))
  | inr e ↦ e
]

Distinct-snoc :
    (keys : List Bytes) (key : Bytes)
    → Distinct keys
    → has_key keys key ≡ false
    → Distinct (keys ++ (key ∷ []))
unfolding Distinct has_key
Distinct-snoc [] key d h = (refl, tt)
Distinct-snoc (k ∷ keys) key (fresh, d) h = (
  has_key-snoc keys key k ∙ rw (other_way k key (ground arith), fresh),
  Distinct-snoc keys key d (ground arith),
)

Accounted-Grows : (w v : Writer) → Grows w v → Accounted w → Accounted v
unfolding has_key
Accounted-Grows w v (same_keys p e) (agree, d) = (
  λ other.
      ap (λ keys. has_key keys other) p ∙ (agree other ∙ ap (λ keys. has_key keys other) (sym e)),
  subst Distinct (sym p) d,
)
Accounted-Grows w v (new_key key h p e) (agree, d) = (
  λ other.
      ap (λ keys. has_key keys other) p
      ∙ (has_key-snoc w.produced key other
          ∙ (ap (λ b. if same_bytes key other then true else b) (agree other)
              ∙ ap (λ keys. has_key keys other) (sym e))),
  subst Distinct (sym p) (Distinct-snoc w.produced key d (agree key ∙ h)),
)

-- After any calls on a new writer, the reading of a manifest among them, `produced` lists the keys of `expected`, each once.
pub Calls-Accounted : (force : Bool) (w : Writer) → Calls (new_writer force) w → Accounted w
unfolding Distinct
Calls-Accounted force w (done v) = (λ key. refl, tt)
Calls-Accounted force w (then_call calls call) =
    Accounted-Grows _ w (Call-Grows call) (Calls-Accounted force _ calls)

min_prefix : (n m : ℕ) → n ≤ m → min n m ≡ n
min_prefix n m h = ground arith

-- What was produced stays in front.
Calls-prefix :
    (w v : Writer) → Calls w v → (later : List Bytes) × (v.produced ≡ w.produced ++ later)
Calls-prefix w v (done u) = ([], sym (append-nil w.produced))
Calls-prefix w v (then_call {v = u} calls call) =
    let (later, p) = Calls-prefix w u calls in
    elim (Call-Grows call) [
      | same_keys q e ↦ (later, q ∙ p)
      | new_key key h q e ↦
          (later ++ (key ∷ []), q ∙ (ap (λ keys. keys ++ (key ∷ [])) p ∙ rw append_assoc))
    ]

-- After any calls, `since` of an earlier `mark` is what the calls in between produced: appended to
-- what was produced before, it gives all that is produced now.
pub Calls-since : (w v : Writer) → Calls w v → v.produced ≡ w.produced ++ since v (mark w)
unfolding since mark
Calls-since w v calls =
    let (later, p) = Calls-prefix w v calls in
    rw (
      p,
      min_prefix (length w.produced) (length (w.produced ++ later))
          (omega (arith, length-append w.produced later)),
      drop-append_left w.produced later,
    )
