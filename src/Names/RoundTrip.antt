-- ===== src/Names/RoundTrip.antt =====
-- Round trips between the two spellings of a value's names.
