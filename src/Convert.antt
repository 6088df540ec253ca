-- ===== src/Convert.antt =====
-- `jspb_instantiate` and `jspb_deserialize` of plugin/js/pymaid.js, as far as their `transform`s of
-- the names of repeated fields and maps. An object is transformed in place: the value returned is
-- also what the caller's object has become.
pub mod Loop
pub mod Instantiate
pub mod Deserialize
pub mod Skipped
pub mod Passes
pub mod Weights
pub mod Rounds
pub mod Ending
