-- ===== src/Http/Request.antt =====
-- src/blogin/http.cpp: `Request`, its methods and `parse_request`.
pub mod HeaderNames
pub mod Stable
use blogin.Common.{
  ℕ, ◌+◌, ◌-◌, ◌*◌, Bool, true, false, not, ◌||◌, Option, none, some, List, [], ◌∷◌, ◌++◌, ltb,
  if◌then◌else◌, is_empty, length, take, drop, Bytes, codes, slice, find_byte, find_bytes,
  same_bytes,
}
use blogin.Text.{trim, split, to_lower_ascii}

-- `std::map<std::string, std::string>`, in the order the names came; a name stands once in it.
abbrev pub Headers : Type 0
Headers = List (Bytes × Bytes)

unfoldable pub find_header : Headers → Bytes → Option Bytes
find_header [] name = none
find_header ((key, value) ∷ headers) name =
    if same_bytes key name then some value else find_header headers name

-- `headers.emplace(name, value)`: the first value of a name stays.
unfoldable pub emplace : Headers → Bytes → Bytes → Headers
emplace [] name value = (name, value) ∷ []
emplace ((key, old) ∷ headers) name value =
    if same_bytes key name then (key, old) ∷ headers else (key, old) ∷ emplace headers name value

pub record Request : Type 0 where
  pub method : Bytes
  pub target : Bytes
  pub path : Bytes
  pub version : Bytes
  pub headers : Headers
  pub size : ℕ

-- `Request::header`: the empty text where the name is missing.
unfoldable pub header : Request → Bytes → Bytes
header r name = elim (find_header r.headers (to_lower_ascii name)) [
  | none ↦ []
  | some value ↦ value
]

-- `text.contains(wanted)`
unfoldable pub contains_bytes : Bytes → Bytes → Bool
contains_bytes text wanted = elim (find_bytes text wanted) [ none ↦ false | some i ↦ true ]

unfoldable pub wants_keep_alive : Request → Bool
wants_keep_alive r =
    let connection = to_lower_ascii (header r (codes "connection")) in
    if contains_bytes connection (codes "close")
    then false
    else if contains_bytes connection (codes "keep-alive")
    then true
    else same_bytes r.version (codes "HTTP/1.1")

pub data RequestState : Type 0 where
  incomplete ready malformed : RequestState

pub record ParsedRequest : Type 0 where
  pub state : RequestState
  pub request : Request

abbrev pub new_request : Request
new_request = record { method = []; target = []; path = []; version = []; headers = []; size = 0 }

abbrev pub undone : RequestState → ParsedRequest
undone state = record { state = state; request = new_request }

abbrev pub maximum_request_size : ℕ
maximum_request_size = 64 * 1024

abbrev pub crlf : Bytes
crlf = codes "\r\n"

-- `end_of_headers`'s mark
abbrev pub blank_line : Bytes
blank_line = codes "\r\n\r\n"

-- The loop over the header lines; `none` is a line without a colon.
unfoldable pub parse_headers : List Bytes → Headers → Option Headers
parse_headers [] headers = some headers
parse_headers (line ∷ lines) headers =
    let stripped = trim line in
    let skipped = parse_headers lines headers in
    if is_empty stripped then skipped else elim (find_byte stripped b':' 0) [
      | none ↦ none
      | some colon ↦ parse_headers lines (
          emplace headers (to_lower_ascii (slice stripped 0 colon))
            (trim (drop (colon + 1) stripped)))
    ]

-- The text of the header lines; without a line break there is none.
unfoldable pub header_lines : Bytes → Option ℕ → List Bytes
header_lines head none = []
header_lines head (some end_of_line) = split (drop (end_of_line + 2) head) b'\n'

unfoldable pub request_line : Bytes → Option ℕ → Bytes
request_line head none = head
request_line head (some end_of_line) = slice head 0 end_of_line

-- `request.path`
unfoldable pub without_query : Bytes → Bytes
without_query target = elim (find_byte target b'?' 0) [
  | none ↦ target
  | some query ↦ slice target 0 query
]

abbrev bind_option : {A B : Type 0} → Option A → (A → Option B) → Option B
bind_option none f = none
bind_option (some a) f = f a

-- The method, the target and the version of a request line.
unfoldable pub parse_line : Bytes → Option (Bytes × (Bytes × Bytes))
parse_line line = bind_option (find_byte line b' ' 0) λ first_space.
    bind_option (find_byte line b' ' (first_space + 1)) λ second_space. some (
      slice line 0 first_space,
      (
        slice line (first_space + 1) (second_space - first_space - 1),
        trim (drop (second_space + 1) line),
      ),
    )

-- From the request line on.
unfoldable pub parse_head : Bytes → ℕ → ParsedRequest
parse_head head end_of_headers =
    let end_of_line = find_bytes head crlf in
    elim (parse_line (request_line head end_of_line)) [
      | none ↦ undone malformed
      | some (method, (target, version)) ↦
          if is_empty method || is_empty target
          then undone malformed
          else elim (parse_headers (header_lines head end_of_line) []) [
            | none ↦ undone malformed
            | some headers ↦ record {
              state = ready;
              request = record {
                method = method;
                target = target;
                path = without_query target;
                version = version;
                headers = headers;
                size = end_of_headers + 4;
              };
            }
          ]
    ]

-- What is done at the end of the headers, or without it.
abbrev pub parse_found : Bytes → Option ℕ → ParsedRequest
parse_found buffer none =
    undone (if ltb maximum_request_size (length buffer) then malformed else incomplete)
parse_found buffer (some end_of_headers) = parse_head (take end_of_headers buffer) end_of_headers

unfoldable pub parse_request : Bytes → ParsedRequest
parse_request buffer = parse_found buffer (find_bytes buffer blank_line)
