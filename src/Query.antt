-- ===== src/Query.antt =====
-- internal/query/tokens.go: the lexer of the query language. A text is the list of its bytes.
pub mod Tokens
pub mod Readers
pub mod Lexer
pub mod Consumed
pub mod Progress
mod Bodies
pub mod Scan
pub mod Strings
pub mod Tokenized
mod Tests
pub mod Ast
pub mod Decimal
pub mod Parser
pub mod Compiler
