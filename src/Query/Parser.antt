-- ===== src/Query/Parser.antt =====
-- internal/query/parser.go: the parser of queries.
pub mod Numbers
pub mod State
pub mod Values
pub mod Conditions
pub mod Clauses
pub mod Filters
pub mod Statements
pub mod Groups
mod Tests
pub mod Returns
pub mod Total
pub mod Settles
pub mod Print
pub mod RoundTrip
