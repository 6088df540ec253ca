-- ===== src/Examples.antt =====
-- The example services of plugin/js/examples: their messages, their descriptions and their calls.
pub mod Echo
pub mod Complicated
