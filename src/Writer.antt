-- ===== src/Writer.antt =====
-- src/blogin/writer.cpp and include/writer.h: `Writer`. A path below the root is its key, the path
-- relative to the root; what `std::filesystem` says of it is a parameter. The output tree is a map
-- from keys to bytes in which every write succeeds: the temporary file and the rename are one step.
pub mod Trust
pub mod Accounts
pub mod Tree
use Prim.Native.Nat.{bit_xor}
use blogin.Common.{
  ℕ, zero, suc, ◌+◌, ◌*◌, ◌/◌, ◌%◌, ◌^◌, Bool, true, false, not, ◌||◌, ◌&&◌, Option, none, some,
  List, [], ◌∷◌, ◌++◌, ◌==◌, ltb, if◌then◌else◌, is_empty, length, drop, min, Bytes, codes,
  same_bytes,
}
use blogin.Common.Maps.{find_key, assign, has_key}
use blogin.Value.{Value, Members, string, object, end, member, set, members, is_object, as_string}
use blogin.Json.Writer.{Doubles, compact, to_json, hex_char}
use blogin.Json.Parser.{ok, err, stuck}
use blogin.Json.Parser.Values.{parse_json}

-- FNV-1a: one round, and the loop over the bytes.
unfoldable pub hash_byte : ℕ → ℕ → ℕ
hash_byte hash character = bit_xor hash character * 0x100000001b3 % 2 ^ 64

unfoldable pub hash_bytes : ℕ → Bytes → ℕ
hash_bytes hash [] = hash
hash_bytes hash (c ∷ cs) = hash_bytes (hash_byte hash c) cs

-- `{:0nx}` of a number of at most `n` digits
unfoldable pub hex_onto : ℕ → ℕ → Bytes → Bytes
hex_onto zero n later = later
hex_onto (suc width) n later = hex_onto width (n / 16) (hex_char (n % 16) ∷ later)

unfoldable pub content_hash : Bytes → Bytes
content_hash content = hex_onto 16 (hash_bytes 0xcbf29ce484222325 content) []

-- The output tree.
abbrev pub Files : Type 0
Files = List (Bytes × Bytes)

abbrev pub Hashes : Type 0
Hashes = List (Bytes × Bytes)

pub record Writer : Type 0 where
  pub force : Bool
  pub previous : Hashes
  pub current : Hashes
  pub expected : List Bytes
  pub changed : List Bytes
  pub collisions : List Bytes
  pub produced : List Bytes
  pub written : ℕ
  pub skipped : ℕ

abbrev pub new_writer : Bool → Writer
new_writer force = record {
  force = force;
  previous = [];
  current = [];
  expected = [];
  changed = [];
  collisions = [];
  produced = [];
  written = 0;
  skipped = 0;
}

-- `std::filesystem::exists`
abbrev pub exists_file : Files → Bytes → Bool
exists_file files key = elim (find_key files key) [ none ↦ false | some content ↦ true ]

-- `if (expected_.insert(key).second) produced_.push_back(key);`
unfoldable pub expect : Writer → Bytes → Writer
expect w key =
    if has_key w.expected key
    then w
    else record w { expected = key ∷ w.expected; produced = w.produced ++ (key ∷ []) }

-- A hash that is not `hash`, of an earlier write in this build.
abbrev pub collides : Option Bytes → Bytes → Bool
collides none hash = false
collides (some earlier) hash = not (same_bytes earlier hash)

unfoldable pub note_hash : Writer → Bytes → Bytes → Writer
note_hash w key hash = record w {
  collisions =
      if collides (find_key w.current key) hash then w.collisions ++ (key ∷ []) else w.collisions;
  current = assign w.current key hash;
}

-- Whether the last build left the file with the same hash, and it is still there.
unfoldable pub unchanged : Writer → Files → Bytes → Bytes → Bool
unchanged w files key hash =
    not w.force
    && (elim (find_key w.previous key) [ none ↦ false | some known ↦ same_bytes known hash ]
        && exists_file files key)

-- The part of `write` under the lock, with the hash of the filtered bytes; the second result says
-- whether the bytes go to the disk.
unfoldable pub begin_write : Writer → Files → Bytes → Bytes → Writer × Bool
begin_write w files key hash =
    let noted = note_hash (expect w key) key hash in
    if unchanged w files key hash
    then (record noted { skipped = noted.skipped + 1 }, false)
    else (record noted { written = noted.written + 1; changed = noted.changed ++ (key ∷ []) }, true)

-- `write`; the page filter is applied where `is_page` holds of the key, the extension ".html".
unfoldable pub filtered : Option (Bytes → Bytes) → (Bytes → Bool) → Bytes → Bytes → Bytes
filtered none is_page key content = content
filtered (some page_filter) is_page key content =
    if is_page key then page_filter content else content

unfoldable pub write_file :
    Option (Bytes → Bytes) → (Bytes → Bool) → Writer → Files → Bytes → Bytes → Writer × Files
write_file page_filter is_page w files key content =
    let bytes = filtered page_filter is_page key content in
    let begun = begin_write w files key (content_hash bytes) in
    (begun.0, (if begun.1 then assign files key bytes else files))

unfoldable pub reusable : Writer → Files → Bytes → Bool
reusable w files key = elim (find_key w.previous key) [
  | none ↦ false
  | some known ↦ exists_file files key
]

unfoldable pub keep : Writer → Files → Bytes → Writer × Bool
keep w files key = elim (find_key w.previous key) [
  | none ↦ (w, false)
  | some known ↦
      if not (exists_file files key)
      then (w, false)
      else (let kept = expect w key in
          (
            record kept { current = assign kept.current key known; skipped = kept.skipped + 1 },
            true,
          ))
]

unfoldable pub record_output : Writer → Bytes → Writer
record_output w key =
    let noted = expect w key in record noted { changed = noted.changed ++ (key ∷ []) }

unfoldable pub mark : Writer → ℕ
mark w = length w.produced

unfoldable pub since : Writer → ℕ → List Bytes
since w start = drop (min start (length w.produced)) w.produced

-- What `prune` leaves alone whatever the build did; `is_keep` is the test of the file name for
-- `files::keep_file`.
unfoldable pub survives : (Bytes → Bool) → List Bytes → Bytes → Bool
survives is_keep expected key =
    same_bytes key (codes ".blogin-manifest.json")
    || (same_bytes key (codes ".blogin-state.json") || (is_keep key || has_key expected key))

-- The loop of `prune` over the files; the walk that removes empty directories is not seen here.
unfoldable pub prune_files : (Bytes → Bool) → List Bytes → Files → Files
prune_files is_keep expected [] = []
prune_files is_keep expected ((key, content) ∷ files) =
    let later = prune_files is_keep expected files in
    if survives is_keep expected key then (key, content) ∷ later else later

unfoldable pub prune : (Bytes → Bool) → Writer → Files → Files
prune is_keep w files = prune_files is_keep w.expected files

-- The loop of `save_manifest`.
unfoldable pub manifest_of : {D : Type 0} → Value D → Hashes → Value D
manifest_of manifest [] = manifest
manifest_of manifest ((key, hash) ∷ entries) = manifest_of (set manifest key (string hash)) entries

unfoldable pub manifest_text : {D : Type 0} → Doubles D → Writer → Bytes
manifest_text doubles w = to_json doubles compact true (manifest_of (object end) w.current)

-- The loop of `load_manifest`: `emplace` leaves a key that is there.
unfoldable pub emplace_hash : Hashes → Bytes → Bytes → Hashes
emplace_hash entries key hash = elim (find_key entries key) [
  | none ↦ entries ++ ((key, hash) ∷ [])
  | some old ↦ entries
]

unfoldable pub hashes_of : {D : Type 0} → Hashes → Members D → Hashes
hashes_of previous end = previous
hashes_of previous (member key item ms) =
    hashes_of (emplace_hash previous key (as_string item [])) ms

unfoldable pub load_manifest : {D : Type 0} → (Bytes → Option D) → Bytes → Writer → Writer
load_manifest {D} to_double text w =
    let read : Writer = elim (parse_json to_double text) [
      | ok value p ↦
          if is_object value
          then record w { previous = hashes_of w.previous (members value) }
          else w
      | err e ↦ w
      | stuck ↦ w
    ] in
    if is_empty text then w else read
