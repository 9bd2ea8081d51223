-- ===== src/Query/Parser/Settles.antt =====
-- `Parse` and `ParseSimple` of internal/query/parser.go end on every text.
use codeai.Base.{ℕ, List, Option, none, some}
use codeai.Query.Tokens.{Token}
use codeai.Query.Lexer.{LexerError, tokenize}
use codeai.Query.Tokenized.{IsTokenized, tokenize-IsTokenized}
use codeai.Query.Ast.{Query}
use codeai.Query.Parser.State.{Parser, Outcome, new_parser}
use codeai.Query.Parser.Statements.{
  Parsed, parsed, not_lexed, lexer_out_of_fuel, with_tokens, parse_tokens, parse, parse_simple,
}
use codeai.Query.Parser.Filters.{parse_simple_filters}
use codeai.Query.Parser.Total.Statements.{parse_tokens-Ends}
use codeai.Query.Parser.Total.Filters.{Ends, parse_simple_filters-Ends}

-- A query, an error of the parser or an error of the lexer.
abbrev pub IsSettled : Parsed → Type 0
IsSettled (parsed m) = Ends m
IsSettled (not_lexed e) = Unit
IsSettled lexer_out_of_fuel = ⊥

with_tokens-IsSettled :
    (run : Parser → Outcome Query) (input : List ℕ) (out : Option (List Token × Option LexerError))
    → IsTokenized input 0 out
    → ((p : Parser) → Ends (run p))
    → IsSettled (with_tokens run out)
with_tokens-IsSettled run input none t h = absurd t
with_tokens-IsSettled run input (some (tokens, some e)) t h = tt
with_tokens-IsSettled run input (some (tokens, none)) t h = h (new_parser tokens)

-- On every text, Parse and ParseSimple end with a query, an error of the parser or an error of the
-- lexer: neither the lexer nor any loop of the parser runs out of fuel.
pub parse-IsSettled : (input : List ℕ) → IsSettled (parse input) × IsSettled (parse_simple input)
unfolding parse parse_simple
parse-IsSettled input =
    let t = tokenize-IsTokenized input in
    (
      with_tokens-IsSettled parse_tokens input (tokenize input) t parse_tokens-Ends,
      with_tokens-IsSettled parse_simple_filters input (tokenize input) t parse_simple_filters-Ends,
    )
