-- ===== src/Query/Parser/RoundTrip.antt =====
-- The parser of internal/query/parser.go reads back what is written.
pub mod Values
pub mod Operators
pub mod Conditions
pub mod Statements
