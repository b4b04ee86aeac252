-- ===== src/Examples.antt =====
-- Tests on concrete inputs, and the theorems at inputs that meet their hypotheses.
mod Build
mod Templates
use blogin.Common.{
  take, ◌≡◌, ◌≢◌, refl, arith, codes, length, min, ◌+◌, ◌-◌, ◌*◌, ◌/◌, ◌%◌, ◌++◌, ◌⊎◌, All, List,
  AllBytes, ℕ, Bytes, some, none, [], ◌∷◌, true, false, if◌then◌else◌, same_bytes, starts_with,
  find_bytes, find_byte, find_if,
}
use blogin.Text.{is_space, trim, split, split_lines, words, char_length, substr, byte_offset}
use blogin.Text.Trim.{trim_lem, AllSpace, StartsClear, EndsClear}
use blogin.Text.Split.{join-split, join, Lacks}
use blogin.Text.Lines.{split_lines-split, lines_of}
use blogin.Text.Words.{words-runs, runs}
use blogin.Text.Chars.{char_length-substr, byte_offset-prefix_size, prefix_size}
use blogin.Slug.{slugify}
use blogin.Slug.Shape.{slugify-IsSlug, IsSlug}
use blogin.Slug.Stable.{slugify_idem}
use blogin.Value.{
  Members, pos, negsuc, null, integer, string, array, object, nil, cons, end, member, set, find,
  deep_merge,
}
use blogin.Value.Find.{find-set}
use blogin.Value.Merge.{find-deep_merge}
use blogin.Json.Writer.{append_json_string, Doubles, compact, to_json, format_int}
use blogin.Json.Writer.Numbers.{fits_pos, fits_negsuc}
use blogin.Json.Parser.Numbers.{Gives, parse_number-format_int}
use blogin.Json.RoundTrip.{parse_json-to_json}
use blogin.Json.RoundTrip.Printed.{Plain}
use blogin.Value.{find_member, set_member, Value}
use blogin.Yaml.Depth.Nesting.{nesting}
use blogin.Json.Parser.Values.{parse_json, parse_number}
use blogin.Json.Parser.Ends.{Ends}
use blogin.Json.Parser.{Parser, parse_string}
use blogin.Json.Parser.Strings.{Reads, parse_string-append_json_string}
use blogin.Json.Parser.Total.{parse_json-Ends}
use blogin.WebSocket.Sha1.{padded}
use blogin.WebSocket.Sha1.Digest.{length-padded}
use blogin.WebSocket.Base64.{base64}
use blogin.WebSocket.Base64.RoundTrip.{base64_decode, base64_decode-base64, length-base64}
use blogin.WebSocket.Frame.{
  decode_rest, payload_size, decode_payload, opcode_of, unmask, decode_frame, text, FrameState,
  ready,
}
use blogin.WebSocket.Frame.Stable.{decode_frame-append}
use blogin.WebSocket.Frame.RoundTrip.{client_frame, decode_frame-client_frame}
use blogin.WebSocket.Handshake.{accept_key}
use blogin.Toc.{Heading, build}
use blogin.Toc.Order.{preorder, preorder-build}
use blogin.Http.Request.{
  header, crlf, blank_line, parse_request, parse_head, parse_line, request_line, parse_headers,
  header_lines,
}
use blogin.Http.Request.HeaderNames.{or_empty, first_value, header-parse_request}
use blogin.Text.{to_lower_ascii}
use blogin.Http.Request.Stable.{parse_request-append}
use blogin.Reload.{Channel, change, failure, run, hello, hello_message, inject, closing_body}
use blogin.Reload.Versions.{hello-run, inject-pieces, NoTagIn}

accept_key_rfc :
    accept_key (codes "dGhlIHNhbXBsZSBub25jZQ==") ≡ codes "s3pPLMBiTxaQ9kYGzzhZRbK+xOo="
unfolding accept_key
accept_key_rfc = refl

abbrev sample : Members ℕ
sample = member (codes "a") (array (cons (integer (pos 12)) (cons null nil))) (
    member (codes "k\n") (string (codes "x\"y"))
      (member (codes "o") (object (member (codes "n") (integer (negsuc 6)) end)) end))

abbrev no_doubles : Doubles ℕ
no_doubles = record {
  is_finite = λ x. false;
  is_zero = λ x. false;
  positive_zero = 0;
  format_double = λ x. [];
}

to_json-sample :
    to_json no_doubles compact false (object sample)
    ≡ codes "{\"a\":[12,null],\"k\\n\":\"x\\\"y\",\"o\":{\"n\":-7}}"
unfolding to_json
to_json-sample = refl

parse_json-Ends_example :
    Ends
      (λ v q. q.rest ≡ [])
      (parse_json {D = ℕ} (λ t. none) (codes "{\"a\": [1, -2, \"\\u00e9\"]}"))
parse_json-Ends_example = parse_json-Ends (λ t. none) (codes "{\"a\": [1, -2, \"\\u00e9\"]}")

abbrev masked_hello : Bytes
masked_hello = 0x81 ∷ 0x85 ∷ 0x37 ∷ 0xfa ∷ 0x21 ∷ 0x3d ∷ 0x7f ∷ 0x9f ∷ 0x4d ∷ 0x51 ∷ 0x58 ∷ []

decode_frame_hello :
    decode_frame masked_hello
    ≡ record { state = ready; opcode = text; final = true; payload = codes "Hello"; size = 11 }
unfolding decode_frame decode_rest payload_size decode_payload opcode_of unmask
decode_frame_hello = refl

hello_ready : (decode_frame masked_hello).state ≢ FrameState.incomplete
unfolding decode_frame decode_rest payload_size decode_payload opcode_of unmask
hello_ready e = ground arith

decode_frame-append_example :
    decode_frame (masked_hello ++ codes "more") ≡ decode_frame masked_hello
decode_frame-append_example = decode_frame-append masked_hello (codes "more") hello_ready

decode_frame-client_frame_example :
    decode_frame
      (client_frame text (0x37 ∷ 0xfa ∷ 0x21 ∷ 0x3d ∷ []) (codes "Hello") ++ codes "more")
    ≡ record {
      state = ready;
      opcode = text;
      final = true;
      payload = codes "Hello";
      size = length (client_frame text (0x37 ∷ 0xfa ∷ 0x21 ∷ 0x3d ∷ []) (codes "Hello"));
    }
decode_frame-client_frame_example =
    decode_frame-client_frame text 0x37 0xfa 0x21 0x3d (codes "Hello") (codes "more") tt
      (omega arith) (omega arith) (omega arith)

slugify-IsSlug_example : IsSlug (slugify (codes "C++ & Rust -- again"))
slugify-IsSlug_example = slugify-IsSlug (codes "C++ & Rust -- again")

slugify_idem_example : slugify (slugify (codes "C++ & Rust")) ≡ slugify (codes "C++ & Rust")
slugify_idem_example = slugify_idem (codes "C++ & Rust")

split_lines-split_example :
    split_lines (codes "a\r\n\nb") ≡ lines_of (split (codes "a\r\n\nb") b'\n')
split_lines-split_example = split_lines-split (codes "a\r\n\nb")

words-runs_example : words (codes " two  words\n") ≡ runs [] (codes " two  words\n")
words-runs_example = words-runs (codes " two  words\n")

join-split_example :
    (join b',' (split (codes "a,,b") b',') ≡ codes "a,,b")
    × (split (codes "a,,b") b',' ≢ [])
    × All (Lacks b',') (split (codes "a,,b") b',')
join-split_example = join-split (codes "a,,b") b','

trim_lem_example :
    (before : Bytes) × (after : Bytes) × (codes " a b\n"
      ≡ before ++ (trim (codes " a b\n") ++ after))
    × AllSpace before
    × AllSpace after
    × StartsClear (trim (codes " a b\n"))
    × EndsClear (trim (codes " a b\n"))
trim_lem_example = trim_lem (codes " a b\n")

char_length-substr_example :
    (char_length (substr (0xC3 ∷ 0xA9 ∷ codes "tude") 1 (some 2))
      ≡ min 2 (char_length (0xC3 ∷ 0xA9 ∷ codes "tude") - 1))
    × (char_length (substr (0xC3 ∷ 0xA9 ∷ codes "tude") 1 none)
        ≡ char_length (0xC3 ∷ 0xA9 ∷ codes "tude") - 1)
    × (substr (0xC3 ∷ 0xA9 ∷ codes "tude") 0 (some 1)
          ++ (substr (0xC3 ∷ 0xA9 ∷ codes "tude") 1 (some 2)
              ++ substr (0xC3 ∷ 0xA9 ∷ codes "tude") 3 none)
        ≡ 0xC3 ∷ 0xA9 ∷ codes "tude")
char_length-substr_example = char_length-substr (0xC3 ∷ 0xA9 ∷ codes "tude") 1 2

byte_offset-prefix_size_example :
    byte_offset (0xC3 ∷ 0xA9 ∷ codes "t") 1 ≡ prefix_size 0 1 (0xC3 ∷ 0xA9 ∷ codes "t")
byte_offset-prefix_size_example = byte_offset-prefix_size (0xC3 ∷ 0xA9 ∷ codes "t") 1

base64_decode-base64_example : base64_decode (base64 (codes "Hello")) ≡ codes "Hello"
base64_decode-base64_example = base64_decode-base64 (codes "Hello") (omega arith)

length-base64_example : length (base64 (codes "Hello")) ≡ (length (codes "Hello") + 2) / 3 * 4
length-base64_example = length-base64 (codes "Hello")

length-padded_example : length (padded (codes "abc")) % 64 ≡ 0
length-padded_example = length-padded (codes "abc")

find-set_example : find (set (object sample) (codes "a") (string (codes "new"))) (codes "o") ≡ (
    if same_bytes (codes "a") (codes "o")
    then some (string (codes "new"))
    else find (object sample) (codes "o"))
find-set_example = find-set (object sample) (string (codes "new")) (codes "a") (codes "o")

abbrev over : Members ℕ
over = member (codes "z") (integer (pos 1)) end

missing : find (object over) (codes "a") ≡ none
unfolding find same_bytes
missing = refl

find-deep_merge_example :
    find (deep_merge (object sample) (object over)) (codes "a") ≡ find (object sample) (codes "a")
find-deep_merge_example = find-deep_merge (object sample) over (codes "a") refl missing

abbrev get_page : Bytes
get_page = codes "GET /a?b HTTP/1.1\r\nHost: x\r\n\r\n"

get_page_ready : (parse_request get_page).state ≡ blogin.Http.Request.RequestState.ready
unfolding parse_request find_bytes starts_with parse_head parse_line find_byte find_if request_line
    parse_headers header_lines split trim is_space
get_page_ready = refl

parse_request-append_example : parse_request (get_page ++ codes "GET") ≡ parse_request get_page
parse_request-append_example = parse_request-append get_page (codes "GET") get_page_ready

abbrev channel : Channel
channel = record { version = 4; session = codes "12-34" }

hello-run_example :
    hello no_doubles
      (run no_doubles channel
        (change (codes "a.css" ∷ []) ∷ failure (codes "bad") (codes "a.md") 3 ∷ [])).1
    ≡ hello_message no_doubles (pos (4 + 2)) (codes "12-34")
hello-run_example =
    hello-run no_doubles channel
      (change (codes "a.css" ∷ []) ∷ failure (codes "bad") (codes "a.md") 3 ∷ [])

abbrev headings : List Heading
headings =
    record { level = pos 2; text = codes "One"; id = codes "one" }
    ∷ record { level = pos 3; text = codes "Below"; id = codes "below" }
    ∷ record { level = pos 2; text = codes "Two"; id = codes "two" }
    ∷ []

preorder-build_example : preorder (build headings) ≡ headings
preorder-build_example = preorder-build headings

parse_string-append_json_string_example : Reads (1 ∷ codes "\\ \"tab\t") (codes ", 1") (
    parse_string (record {
      rest = append_json_string (1 ∷ codes "\\ \"tab\t") ++ codes ", 1";
      line = 1;
      column = 4;
      depth = 1;
    }))
parse_string-append_json_string_example =
    parse_string-append_json_string (1 ∷ codes "\\ \"tab\t") (codes ", 1") 1 4 1

inject-pieces_example :
    (before : Bytes) × ((after : Bytes) × ((before ++ after ≡ codes "<p></p></body>")
        × ((inject (codes "<p></p></body>") (codes "<script>")
              ≡ before ++ (codes "<script>" ++ after))
            × (NoTagIn before after × ((after ≡ []) ⊎ (starts_with after closing_body ≡ true))))))
inject-pieces_example = inject-pieces (codes "<p></p></body>") (codes "<script>")

abbrev negative_element : Parser
negative_element = record {
  rest = format_int (negsuc 41) ++ codes ", 7";
  line = 1;
  column = 2;
  depth = 1;
}

parse_number-format_int_example :
    Gives {A = Value ℕ}
      (integer (negsuc 41))
      (codes ", 7")
      1
      (parse_number (λ t. none) negative_element)
parse_number-format_int_example =
    parse_number-format_int (λ t. none) (negsuc 41) (codes ", 7") negative_element
      (fits_negsuc (omega arith)) refl refl

-- A header that comes twice.
abbrev two_hosts : Bytes
two_hosts = codes "GET / HTTP/1.1\r\nHost: a\r\nhost: b\r\n\r\n"

two_hosts-ready : (parse_request two_hosts).state ≡ blogin.Http.Request.RequestState.ready
unfolding parse_request find_bytes starts_with parse_head parse_line find_byte find_if request_line
    parse_headers header_lines split trim is_space
two_hosts-ready = refl

two_hosts-blank : find_bytes two_hosts blank_line ≡ some 32
unfolding find_bytes starts_with
two_hosts-blank = refl

header-parse_request_example :
    header (parse_request two_hosts).request (codes "HOST")
    ≡ or_empty (
        first_value
          (to_lower_ascii (codes "HOST"))
          (header_lines (take 32 two_hosts) (find_bytes (take 32 two_hosts) crlf)))
header-parse_request_example =
    header-parse_request two_hosts 32 (codes "HOST") two_hosts-blank two_hosts-ready

abbrev printed_sample : Bytes
printed_sample = to_json no_doubles compact false (object sample)

sample-Plain : Plain (object sample)
unfolding Plain find_member same_bytes set_member
sample-Plain = (
  refl,
  (
    (fits_pos (omega arith), (tt, tt)),
    (refl, (tt, (refl, ((refl, (fits_negsuc (omega arith), tt)), tt)))),
  ),
)

parse_json-to_json_example : Gives (object sample) [] 0 (parse_json (λ t. none) printed_sample)
unfolding nesting
parse_json-to_json_example =
    parse_json-to_json no_doubles (λ t. none) (object sample) sample-Plain (omega arith)
