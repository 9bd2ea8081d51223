-- ===== src/Query/Compiler.antt =====
-- internal/query/compiler.go: the compiler of queries to SQL with parameters.
pub mod Sql
pub mod Names
pub mod Conditions
pub mod Statements
pub mod Operands
pub mod Placed
pub mod Parts
pub mod Numbered
pub mod Quoting
pub mod SoftDelete
pub mod Entities
mod Tests
