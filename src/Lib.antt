-- ===== src/Lib.antt =====
-- Blogin, a static site generator in C++: its text handling, slugs, JSON, dynamic values, table of
-- contents and summaries, its YAML and dates, the expressions and shortcodes of its templates, the
-- writer of its output, and the protocol code of its preview server.
--
-- Text.antt         src/blogin/text.cpp: UTF-8 aware text functions, on lists of bytes.
-- Slug.antt         src/blogin/slug.cpp: `slugify` and `humanize`, on top of text.cpp.
-- WebSocket/        src/blogin/websocket.cpp: Sha1, Base64, Handshake (`accept_key`, `is_upgrade`)
--                   and Frame (`encode_frame`, `decode_frame`).
-- Value.antt        src/blogin/value.cpp: `Value`, the type that JSON, YAML and templates share.
--                   A method that changes the object returns the new one.
-- Json/Parser       src/blogin/json.cpp: the class `Parser`. Its state is a record with the text
--                   from `position_` on, the line, the column and the depth; a method that can
--                   fail is a function from the state to an outcome. Json/Parser/Values.antt has
--                   the methods from a number on and `parse_json`.
-- Json/Writer       src/blogin/json.cpp: `write`, `append_json_string` and `to_json`.
-- Json/RoundTrip    What the parser makes of the text that the writer prints.
-- Toc.antt          src/blogin/toc.cpp: the headings of a post as a tree, and its markup.
-- Summary.antt      src/blogin/summary.cpp, on top of text.cpp.
-- Http/             src/blogin/http.cpp: Request (`parse_request`) and Response (`serialize`).
-- Reload.antt       src/blogin/reload.cpp: the messages of the live reload, made of values and
--                   written by `to_json`, and the channel, whose methods hold one mutex from end
--                   to end and so run one after another.
-- Yaml/             src/blogin/yaml.cpp: Lines (what lines count, where a comment starts), Scalars
--                   (the values on a line), Parser (the blocks, on the lines that are left and
--                   the depth) and Depth (`container_depth`).
-- Date.antt         src/blogin/date.cpp: `Date`, over the calendar of std::chrono.
-- Shortcode.antt    src/blogin/shortcode.cpp: arguments, templates, builtins and `expand`.
-- Expression/       src/blogin/expression.cpp: Parser (the state, tokens and names), Grammar (the
--                   methods that build the tree), Operators (what they do on values) and Evaluate
--                   (`evaluate`, which passes on the context, since a lookup may record a read).
--                   Expression.antt has the tree, Expression/Height and Expression/Quote.antt
--                   what the parser makes.
-- ViewContext.antt  src/blogin/view_context.cpp: what a template may read, and the recordings of
--                   what a fragment reads. Expression/Evaluate.antt is its client.
-- Nav.antt          src/blogin/nav.cpp: the menu of the sections, over a tree of folders.
-- BuildState.antt   src/blogin/build_state.cpp: what one build remembers for the next, as a Value.
-- Writer.antt       src/blogin/writer.cpp: `Writer`, whose record says what a build wrote, over a
--                   map from keys to bytes for the output tree. Its lock lets one call in at a
--                   time, so that threads are an order of calls (Writer/Accounts.antt).
-- Common/           What the program uses of the standard library: lists, views on strings,
--                   bits, and words of 32 and 64 bits, which wrap around where the source's do.
-- Examples/         Tests on concrete inputs, also in Examples.antt.
--
-- A string is the list of its bytes. Sizes are natural numbers. A loop over positions takes the
-- size of the text as fuel, since each round moves forward. The JSON parser takes twice the size
-- of the text and one: a value or a round of a loop takes a byte at least. The padding of SHA-1
-- takes 64 rounds at most. The YAML parser takes three units for each line and two more: a block, a
-- loop and a round for a line. The expression parser takes one unit for each byte, since the way
-- back to its top passes over a byte, and each of its loops one for each byte that is left; the
-- evaluator takes the levels of recursion, which the height of the tree bounds.
--
-- Not modelled: a `double` is an abstract type; reading one (`text::to_double`), printing one and
-- converting one are parameters, and so are its arithmetic and the calendar. Errors of the file
-- system are not seen by the writer, nor are directories. `http::resolve_file`,
-- `reload::changed_paths`, the client script, `ShortcodeRegistry::load` and the other files of
-- src/blogin, which read files, render posts or run threads, are left out.
pub mod BuildState
pub mod Common
pub mod Date
pub mod Examples
pub mod Expression
pub mod Http
pub mod Json
pub mod Nav
pub mod Reload
pub mod Shortcode
pub mod Slug
pub mod Summary
pub mod Text
pub mod Toc
pub mod Value
pub mod ViewContext
pub mod WebSocket
pub mod Writer
pub mod Yaml
