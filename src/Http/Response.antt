-- ===== src/Http/Response.antt =====
-- src/blogin/http.cpp: `Response`, `reason_for`, `serialize` and `content_type_for`.
use blogin.Common.{
  ℕ, Bool, List, [], ◌∷◌, ◌++◌, ◌==◌, if◌then◌else◌, is_empty, length, drop, Bytes, codes,
  same_bytes,
}
use blogin.Text.{to_lower_ascii}
use blogin.Json.Writer.{decimal, sort_entries}

pub record Response : Type 0 where
  pub status : ℕ
  pub content_type : Bytes
  pub body : Bytes
  pub keep_alive : Bool
  -- A `std::map`: the entries by name, which are walked in the order of the names.
  pub headers : List (Bytes × Bytes)

unfoldable pub reason_for : ℕ → Bytes
reason_for status =
    if status == 200
    then codes "OK"
    else if status == 400
    then codes "Bad Request"
    else if status == 404
    then codes "Not Found"
    else if status == 405
    then codes "Method Not Allowed"
    else if status == 101
    then codes "Switching Protocols"
    else codes "OK"

-- `std::format("{}: {}\r\n", name, value)`
unfoldable pub header_line : Bytes → Bytes → Bytes
header_line name value = name ++ (codes ": " ++ (value ++ codes "\r\n"))

-- The loop over the extra headers, in the order in which they come.
unfoldable pub header_text : List (Bytes × Bytes) → Bytes
header_text [] = []
header_text ((name, value) ∷ headers) = header_line name value ++ header_text headers

unfoldable pub serialize : Response → Bytes
serialize r =
    codes "HTTP/1.1 "
    ++ (decimal r.status
        ++ (codes " "
            ++ (reason_for r.status
                ++ (codes "\r\n"
                    ++ ((if r.status == 101
                          then []
                          else header_line (codes "Content-Type") r.content_type
                            ++ (header_line (codes "Content-Length") (decimal (length r.body))
                                ++ (header_line (codes "Cache-Control") (codes "no-store")
                                    ++ header_line (codes "Connection") (
                                        if r.keep_alive
                                        then codes "keep-alive"
                                        else codes "close"))))
                        ++ (header_text (sort_entries r.headers)
                            ++ (codes "\r\n" ++ (if r.status == 101 then [] else r.body))))))))

abbrev pub content_types : List (Bytes × Bytes)
content_types =
    (codes "html", codes "text/html; charset=utf-8")
    ∷ (codes "css", codes "text/css")
    ∷ (codes "js", codes "application/javascript")
    ∷ (codes "json", codes "application/json")
    ∷ (codes "xml", codes "application/xml")
    ∷ (codes "svg", codes "image/svg+xml")
    ∷ (codes "png", codes "image/png")
    ∷ (codes "jpg", codes "image/jpeg")
    ∷ (codes "jpeg", codes "image/jpeg")
    ∷ (codes "gif", codes "image/gif")
    ∷ (codes "webp", codes "image/webp")
    ∷ (codes "ico", codes "image/x-icon")
    ∷ (codes "txt", codes "text/plain")
    ∷ []

unfoldable pub type_in : List (Bytes × Bytes) → Bytes → Bytes
type_in [] extension = codes "application/octet-stream"
type_in ((key, type) ∷ types) extension =
    if same_bytes key extension then type else type_in types extension

-- The extension of the path, with its dot, is the argument: `std::filesystem` finds it.
unfoldable pub content_type_for : Bytes → Bytes
content_type_for extension =
    if is_empty (to_lower_ascii extension)
    then codes "application/octet-stream"
    else type_in content_types (drop 1 (to_lower_ascii extension))
