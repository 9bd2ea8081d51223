-- ===== src/Query/Parser/Total.antt =====
-- The parser of internal/query/parser.go ends on every list of tokens.
pub mod Values
pub mod Operators
pub mod Conditions
pub mod Clauses
pub mod Filters
pub mod Statements
