-- ===== src/Examples/Build.antt =====
-- Tests of the YAML reader, the dates and the writer of the output, and the theorems on them at
-- inputs that meet their hypotheses.
use blogin.Common.{
  ℕ, ◌≡◌, refl, sym, arith, codes, Bytes, true, false, Option, none, some, [], ◌∷◌, ◌++◌, ◌==◌, ◌≤◌,
  ◌∙◌, ap, if◌then◌else◌, ltb, same_bytes,
}
use blogin.Common.Maps.{find_key, has_key}
use blogin.BuildState.{SourceState, BuildState}
use blogin.Value.{pos, negsuc, null}
use blogin.Yaml.Parser.{parse_yaml}
use blogin.Yaml.Parser.Ends as YamlEnds
use blogin.Yaml.Depth.Nesting.{nesting}
use blogin.Json.Parser.Values as Json
use blogin.Date.{Calendar, new_date, iso, parse_date, parse_ymd, date_of, to_int}
use blogin.Yaml.Scalars.{all_digits}
use blogin.Json.Parser.Values.{digits_value}
use blogin.Date.RoundTrip.{parse_date-iso, iso-parse_date}
use blogin.Writer.{
  Files, Writer, new_writer, content_hash, write_file, filtered, prune, record_output, survives,
  keep, load_manifest, mark, since,
}
use blogin.Writer.Trust.{TrustedAt, NoClash, find_key-write_file}
use blogin.Writer.Tree.{write_all, outputs, Ready, prune-write_all}
use blogin.Writer.Accounts.{
  Calls, Accounted, done as none_called, then_call, record_call, keep_call, load_call,
  Calls-Accounted, Calls-since,
}

abbrev no_number : Bytes → Option ℕ
no_number text = none

abbrev front_matter : Bytes
front_matter = codes "title: Hi\ntags:\n  - a\n  - b: 1\n"

parse_yaml-nesting_example :
    YamlEnds.Ends (λ v s. nesting v ≤ Json.max_depth) (parse_yaml no_number front_matter)
parse_yaml-nesting_example = YamlEnds.parse_yaml-nesting no_number front_matter

-- A calendar of one month.
abbrev june : Calendar
june = record {
  exists_date =
      λ year month day. if month == 6 then (if ltb 0 day then ltb day 31 else false) else false;
  iso_weekday = λ year month day. 1;
}

parse_date-iso_example :
    parse_date june (iso (new_date june 2024 6 9)) ≡ some (new_date june 2024 6 9)
parse_date-iso_example = parse_date-iso june 2024 6 9 (omega arith) (omega arith) (omega arith) refl

iso-parse_date_example : iso (new_date june 2024 6 9) ≡ codes "2024-06-09"
unfolding parse_date parse_ymd date_of to_int all_digits digits_value new_date
iso-parse_date_example = iso-parse_date june (codes "2024-06-09") (new_date june 2024 6 9) refl

abbrev old_files : Files
old_files = (codes "a.html", codes "hi") ∷ ((codes "old.html", codes "bye") ∷ [])

abbrev after_hi : Writer
after_hi = record (new_writer false) { previous = (codes "a.html", content_hash (codes "hi")) ∷ [] }

-- What `find_key` says of the first entry.
first_entry : {A : Type 0} (a b : A) → some a ≡ some b → a ≡ b
first_entry a b e = ap (λ o. elim o [ none ↦ a | some x ↦ x ]) e

after_hi-TrustedAt : TrustedAt after_hi old_files (codes "a.html")
unfolding find_key same_bytes
after_hi-TrustedAt known content f g =
    sym (first_entry _ known f) ∙ ap content_hash (first_entry _ content g)

old_files-NoClash : NoClash old_files (codes "a.html") (codes "hi")
unfolding find_key same_bytes
old_files-NoClash old f e = sym (first_entry _ old f)

find_key-write_file_example :
    find_key
      (write_file none (λ key. true) after_hi old_files (codes "a.html") (codes "hi")).1
      (codes "a.html")
    ≡ some (codes "hi")
unfolding filtered same_bytes
find_key-write_file_example =
    find_key-write_file none (λ key. true) after_hi old_files (codes "a.html") (codes "hi")
      (codes "a.html") after_hi-TrustedAt old_files-NoClash

abbrev hi_build : Writer × Files
hi_build = write_all none (λ key. true) after_hi old_files ((codes "a.html", codes "hi") ∷ [])

hi_build-Ready : Ready none (λ key. true) after_hi old_files ((codes "a.html", codes "hi") ∷ [])
unfolding Ready filtered has_key
hi_build-Ready = (after_hi-TrustedAt, old_files-NoClash, refl, tt)

prune-write_all_example :
    find_key (prune (λ key. false) hi_build.0 hi_build.1) (codes "old.html") ≡ none
unfolding outputs find_key survives same_bytes has_key
prune-write_all_example =
    prune-write_all none (λ key. true) (λ key. false) after_hi old_files
      ((codes "a.html", codes "hi") ∷ []) (codes "old.html") refl hi_build-Ready

-- A manifest with two files is read; one of them is there and kept, and an output is recorded.
abbrev loaded : Writer
loaded = load_manifest no_number (codes "{\"a.html\":\"1\",\"b.html\":\"2\"}") (new_writer false)

abbrev kept_one : Writer
kept_one = record_output (keep loaded old_files (codes "a.html")).0 (codes "c.css")

kept_one-Calls : Calls (new_writer false) kept_one
kept_one-Calls =
    then_call
      (then_call (then_call (none_called (new_writer false)) (load_call no_number _ _))
        (keep_call loaded old_files (codes "a.html")))
      (record_call _ (codes "c.css"))

Calls-Accounted_example : Accounted kept_one
Calls-Accounted_example = Calls-Accounted false kept_one kept_one-Calls

Calls-since_example :
    kept_one.produced ≡ (new_writer false).produced ++ since kept_one (mark (new_writer false))
Calls-since_example = Calls-since (new_writer false) kept_one kept_one-Calls

abbrev post_source : SourceState ℕ
post_source = record {
  size = 18446744073709551615;
  modified = negsuc 4;
  hash = codes "0f";
  output = codes "a/index.html";
  metadata = null;
}

abbrev last_build : BuildState ℕ
last_build = record {
  fingerprint = codes "f";
  sources = (codes "a.md", post_source) ∷ ((codes "b.md", post_source) ∷ []);
  derived = codes "feed.xml" ∷ [];
  listings = pos 2;
  copies = [];
  started = pos 7;
}
