-- ===== src/Js.antt =====
-- What the source uses of JavaScript's own library: strings as lists of UTF-16 units, their UTF-8
-- length, `encodeURIComponent` and `URLSearchParams`.
pub mod Text
pub mod Utf8
pub mod Uri
pub mod Usv
pub mod Number
pub mod SearchParams
