-- ===== src/BuildState.antt =====
-- src/blogin/build_state.cpp and include/build_state.h: what one build remembers for the next. The
-- two maps are association lists in the order in which they are walked; the file is its text, and
-- the stamps and the clock of the file system are left out.
pub mod RoundTrip
use blogin.Common.{
  ℕ, zero, suc, ◌+◌, ◌-◌, ◌^◌, Bool, true, false, Option, none, some, List, [], ◌∷◌, ◌++◌, ltb,
  if◌then◌else◌, Bytes, codes,
}
use blogin.Common.Maps.{find_key}
use blogin.Value.{
  ℤ, pos, negsuc, Value, Items, Members, integer, string, array, object, nil, cons, end, member,
  push, set, get_or_null, members, items, is_object, as_integer, as_string, less_int,
}
use blogin.Json.Writer.{Doubles, compact, to_json}
use blogin.Json.Parser.{ok, err, stuck}
use blogin.Json.Parser.Values.{parse_json}

pub record SourceState (D : Type 0) : Type 0 where
  pub size : ℕ
  pub modified : ℤ
  pub hash : Bytes
  pub output : Bytes
  pub metadata : Value D

abbrev pub Sources : Type 0 → Type 0
Sources D = List (Bytes × SourceState D)

pub record BuildState (D : Type 0) : Type 0 where
  pub fingerprint : Bytes
  pub sources : Sources D
  pub derived : List Bytes
  pub listings : ℤ
  pub copies : Sources D
  pub started : ℤ

-- `static_cast<std::int64_t>` of a `std::uintmax_t`, and back.
unfoldable pub to_signed : ℕ → ℤ
to_signed n = if ltb n (2 ^ 63) then pos n else negsuc (2 ^ 64 - n - 1)

unfoldable pub to_unsigned : ℤ → ℕ
to_unsigned (pos n) = n
to_unsigned (negsuc n) = 2 ^ 64 - n - 1

module _ {D : Type 0} where
  abbrev pub new_state : BuildState D
  new_state = record {
    fingerprint = [];
    sources = [];
    derived = [];
    listings = pos 0;
    copies = [];
    started = pos 0;
  }

  unfoldable pub settled : BuildState D → SourceState D → Bool
  settled state source = less_int source.modified state.started

  -- The value of an entry in `write_sources`.
  unfoldable pub source_value : SourceState D → Value D
  source_value source =
      let sized = set (object end) (codes "size") (integer (to_signed source.size)) in
      let stamped = set sized (codes "modified") (integer source.modified) in
      let hashed = set stamped (codes "hash") (string source.hash) in
      let placed = set hashed (codes "output") (string source.output) in
      set placed (codes "metadata") source.metadata

  unfoldable pub write_sources : Value D → Sources D → Value D
  write_sources into [] = into
  write_sources into ((key, source) ∷ sources) =
      write_sources (set into key (source_value source)) sources

  unfoldable pub derived_value : Value D → List Bytes → Value D
  derived_value value [] = value
  derived_value value (entry ∷ entries) = derived_value (push value (string entry)) entries

  -- The document of `save`.
  unfoldable pub document_of : BuildState D → Value D
  document_of state =
      let printed = set (object end) (codes "fingerprint") (string state.fingerprint) in
      let begun = set printed (codes "started") (integer state.started) in
      let listed = set begun (codes "listings") (integer state.listings) in
      let collected = set listed (codes "derived") (derived_value (array nil) state.derived) in
      let sourced = set collected (codes "sources") (write_sources (object end) state.sources) in
      set sourced (codes "copies") (write_sources (object end) state.copies)

  unfoldable pub save_text : Doubles D → BuildState D → Bytes
  save_text doubles state = to_json doubles compact true (document_of state)

  unfoldable pub read_derived : Items D → List Bytes
  read_derived nil = []
  read_derived (cons entry entries) = as_string entry [] ∷ read_derived entries

  module _ (truncate : D → ℤ) where
    abbrev pub integer_at : Value D → Bytes → ℤ
    integer_at value key = as_integer truncate (get_or_null value key) (pos 0)

    abbrev pub string_at : Value D → Bytes → Bytes
    string_at value key = as_string (get_or_null value key) []

    -- The entry that `read_sources` makes of a value.
    unfoldable pub source_of : Value D → SourceState D
    source_of value = record {
      size = to_unsigned (integer_at value (codes "size"));
      modified = integer_at value (codes "modified");
      hash = string_at value (codes "hash");
      output = string_at value (codes "output");
      metadata = get_or_null value (codes "metadata");
    }

    -- `emplace` leaves a key that is there.
    unfoldable pub emplace_source : Sources D → Bytes → SourceState D → Sources D
    emplace_source into key source = elim (find_key into key) [
      | none ↦ into ++ ((key, source) ∷ [])
      | some old ↦ into
    ]

    unfoldable pub read_sources : Sources D → Members D → Sources D
    read_sources into end = into
    read_sources into (member key value ms) =
        read_sources (emplace_source into key (source_of value)) ms

    -- What `load` reads out of an object.
    unfoldable pub state_of : Value D → BuildState D
    state_of value = record {
      fingerprint = string_at value (codes "fingerprint");
      sources = read_sources [] (members (get_or_null value (codes "sources")));
      derived = read_derived (items (get_or_null value (codes "derived")));
      listings = integer_at value (codes "listings");
      copies = read_sources [] (members (get_or_null value (codes "copies")));
      started = integer_at value (codes "started");
    }

    unfoldable pub load_text : (Bytes → Option D) → Bytes → BuildState D
    load_text to_double text = elim (parse_json to_double text) [
      | ok value p ↦ if is_object value then state_of value else new_state
      | err e ↦ new_state
      | stuck ↦ new_state
    ]
