-- ===== src/Js.antt =====
-- What the sources use of JavaScript's own library: numbers, `parseInt`, `decodeURIComponent`.
pub mod Number
pub mod Uri
