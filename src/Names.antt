-- ===== src/Names.antt =====
-- `underscore` and `camel` of plugin/js/pymaid.js: the snake_case names of the callers' objects
-- against the camelCase names of the generated protobuf code. Names are ASCII, as protobuf's are:
-- beyond it `toLowerCase` changes letters that `lower` leaves.
pub mod Defs
pub mod Keys
pub mod Values
pub mod RoundTrip
