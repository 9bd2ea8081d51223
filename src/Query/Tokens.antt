-- ===== src/Query/Tokens.antt =====
-- internal/query/tokens.go: the types of tokens, the keywords and the classes of bytes. A text is the
-- list of its bytes.
use Prim.Native.Char.{code}
use codeai.Base.{
  ℕ, ◌+◌, ◌/◌, ◌%◌, Bool, true, false, ◌&&◌, ◌||◌, List, [], ◌∷◌, Option, none, some, leb, ltb,
  ◌==◌, if◌then◌else◌, String,
}

pub data TokenType : Type 0 where
  token_eof : TokenType
  token_error : TokenType
  token_select : TokenType
  token_count : TokenType
  token_sum : TokenType
  token_avg : TokenType
  token_min : TokenType
  token_max : TokenType
  token_update : TokenType
  token_delete : TokenType
  token_from : TokenType
  token_where : TokenType
  token_and : TokenType
  token_or : TokenType
  token_not : TokenType
  token_in : TokenType
  token_is : TokenType
  token_null : TokenType
  token_order : TokenType
  token_by : TokenType
  token_asc : TokenType
  token_desc : TokenType
  token_limit : TokenType
  token_offset : TokenType
  token_with : TokenType
  token_include : TokenType
  token_set : TokenType
  token_true : TokenType
  token_false : TokenType
  token_like : TokenType
  token_ilike : TokenType
  token_between : TokenType
  token_having : TokenType
  token_group : TokenType
  token_group_by : TokenType
  token_equals : TokenType
  token_not_equals : TokenType
  token_greater : TokenType
  token_greater_eq : TokenType
  token_less : TokenType
  token_less_eq : TokenType
  token_contains : TokenType
  token_starts_with : TokenType
  token_ends_with : TokenType
  token_ident : TokenType
  token_string : TokenType
  token_number : TokenType
  token_param : TokenType
  token_l_paren : TokenType
  token_r_paren : TokenType
  token_l_bracket : TokenType
  token_r_bracket : TokenType
  token_comma : TokenType
  token_dot : TokenType
  token_colon : TokenType
  token_tilde : TokenType

pub record Token : Type 0 where
  pub token_type : TokenType
  pub value : List ℕ
  pub pos : ℕ
  pub line : ℕ
  pub column : ℕ

-- The bytes of an ASCII text.
abbrev pub codes : String → List ℕ
codes String.[] = []
codes (String.◌∷◌ c s) = code c ∷ codes s

abbrev pub bytes_eq : List ℕ → List ℕ → Bool
bytes_eq [] [] = true
bytes_eq [] (y ∷ ys) = false
bytes_eq (x ∷ xs) [] = false
bytes_eq (x ∷ xs) (y ∷ ys) = x == y && bytes_eq xs ys

abbrev pub keywords : List (List ℕ × TokenType)
keywords =
    (codes "select", token_select)
    ∷ (codes "count", token_count)
    ∷ (codes "sum", token_sum)
    ∷ (codes "avg", token_avg)
    ∷ (codes "min", token_min)
    ∷ (codes "max", token_max)
    ∷ (codes "update", token_update)
    ∷ (codes "delete", token_delete)
    ∷ (codes "from", token_from)
    ∷ (codes "where", token_where)
    ∷ (codes "and", token_and)
    ∷ (codes "or", token_or)
    ∷ (codes "not", token_not)
    ∷ (codes "in", token_in)
    ∷ (codes "is", token_is)
    ∷ (codes "null", token_null)
    ∷ (codes "order", token_order)
    ∷ (codes "by", token_by)
    ∷ (codes "asc", token_asc)
    ∷ (codes "desc", token_desc)
    ∷ (codes "limit", token_limit)
    ∷ (codes "offset", token_offset)
    ∷ (codes "with", token_with)
    ∷ (codes "include", token_include)
    ∷ (codes "set", token_set)
    ∷ (codes "true", token_true)
    ∷ (codes "false", token_false)
    ∷ (codes "like", token_like)
    ∷ (codes "ilike", token_ilike)
    ∷ (codes "between", token_between)
    ∷ (codes "having", token_having)
    ∷ (codes "group", token_group)
    ∷ (codes "contains", token_contains)
    ∷ (codes "startswith", token_starts_with)
    ∷ (codes "endswith", token_ends_with)
    ∷ []

abbrev pub find_keyword : List ℕ → List (List ℕ × TokenType) → Option TokenType
find_keyword word [] = none
find_keyword word ((k, t) ∷ rest) = if bytes_eq k word then some t else find_keyword word rest

-- `strings.ToLower`, on the ASCII letters: no other byte of an identifier is part of a keyword.
unfoldable pub to_lower : ℕ → ℕ
to_lower ch = if leb b'A' ch && leb ch b'Z' then ch + 32 else ch

unfoldable pub is_digit : ℕ → Bool
is_digit ch = leb b'0' ch && leb ch b'9'

-- `unicode.IsLetter` of a byte, that is, of a code point of Latin-1.
unfoldable pub is_letter : ℕ → Bool
is_letter ch =
    (leb b'A' ch && leb ch b'Z')
    || (leb b'a' ch && leb ch b'z')
    || ch == 170
    || ch == 181
    || ch == 186
    || (leb 192 ch && leb ch 214)
    || (leb 216 ch && leb ch 246)
    || (leb 248 ch && leb ch 255)

unfoldable pub is_ident_start : ℕ → Bool
is_ident_start ch = is_letter ch || ch == b'_'

-- The only digits of Latin-1 are the ASCII ones.
unfoldable pub is_ident_char : ℕ → Bool
is_ident_char ch = is_letter ch || is_digit ch || ch == b'_'

-- The UTF-8 of a byte that is taken for a code point, as the format `%c` writes it.
abbrev pub utf8 : ℕ → List ℕ
utf8 ch = if ltb ch 128 then ch ∷ [] else (192 + ch / 64) ∷ (128 + ch % 64) ∷ []
