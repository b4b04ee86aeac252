-- ===== src/Http.antt =====
-- src/blogin/http.cpp and include/http.h: the requests that the preview server reads and the
-- responses it writes. The types named `size` here are `length` in the source.
pub mod Request
pub mod Response
