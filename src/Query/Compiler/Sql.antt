-- ===== src/Query/Compiler/Sql.antt =====
-- The SQL that internal/query/compiler.go writes: bytes and placeholders, which `render` puts into one
-- text; and the state of the compiler.
use codeai.Base.{ℕ, suc, Bool, true, false, List, [], ◌∷◌, ◌++◌, String}
use codeai.Query.Tokens.{codes}
use codeai.Query.Ast.{
  CompareOp, Value, text, integer, float, boolean, null, parameter, array, range, Values, nil, cons,
  EntityMeta,
}
use codeai.Query.Decimal.{decimal, signed_decimal}

pub data Piece : Type 0 where
  raw : List ℕ → Piece
  -- `$n`
  placeholder : ℕ → Piece

abbrev pub Sql : Type 0
Sql = List Piece

abbrev pub render : Sql → List ℕ
render [] = []
render (raw bytes ∷ sql) = bytes ++ render sql
render (placeholder n ∷ sql) = b'$' ∷ (decimal n ++ render sql)

abbrev pub words : String → Piece
words s = raw (codes s)

-- Whether the text is empty.
abbrev pub is_blank : Sql → Bool
is_blank [] = true
is_blank (raw [] ∷ sql) = is_blank sql
is_blank (raw (ch ∷ bytes) ∷ sql) = false
is_blank (placeholder n ∷ sql) = false

-- `strings.Join`.
unfoldable pub join : Piece → List Sql → Sql
join sep [] = []
join sep (sql ∷ []) = sql
join sep (sql ∷ next ∷ rest) = sql ++ sep ∷ join sep (next ∷ rest)

-- The entities, and what `fmt.Sprint` shows of a float64 and of a pointer in a list, which Go decides.
pub record SqlCompiler : Type 0 where
  pub entities : List (List ℕ × EntityMeta)
  pub show : Value → List ℕ

pub record Params : Type 0 where
  pub params : List Value
  pub param_idx : ℕ

abbrev pub no_params : Params
no_params = record { params = []; param_idx = 0 }

-- `c.paramIdx++; c.params = append(c.params, v)`
abbrev pub bind : Value → Params → Params
bind v s = record { params = s.params ++ v ∷ []; param_idx = suc s.param_idx }

abbrev pub latest : Params → Piece
latest s = placeholder s.param_idx

pub data CompileError : Type 0 where
  unknown_entity : List ℕ → CompileError
  array_required : CompareOp → CompileError
  range_required : CompileError
  unsupported_operator : CompareOp → CompileError
  no_text_search : CompileError

pub data Compiled {ℓ} (A : Type ℓ) : Type ℓ where
  compiled : A → Compiled A
  failed : CompileError → Compiled A

infixl 5 ◌>>=◌
abbrev pub ◌>>=◌ {ℓ κ} : {A : Type ℓ} {B : Type κ} → Compiled A → (A → Compiled B) → Compiled B
compiled a >>= f = f a
failed e >>= f = failed e

-- What `fmt.Sprint` prints inside of a list or a structure.
abbrev mutual
  pub sprint_inner : (Value → List ℕ) → Value → List ℕ
  sprint_inner show (text s) = s
  sprint_inner show (integer i) = signed_decimal i
  sprint_inner show (float f) = show (float f)
  sprint_inner show (boolean true) = codes "true"
  sprint_inner show (boolean false) = codes "false"
  sprint_inner show null = codes "<nil>"
  sprint_inner show (parameter s) = show (parameter s)
  sprint_inner show (array vs) = codes "[" ++ sprint_list show vs ++ codes "]"
  sprint_inner show (range low high) =
      codes "{" ++ sprint_inner show low ++ codes " " ++ sprint_inner show high ++ codes "}"

  pub sprint_list : (Value → List ℕ) → Values → List ℕ
  sprint_list show nil = []
  sprint_list show (cons v nil) = sprint_inner show v
  sprint_list show (cons v (cons w ws)) =
      sprint_inner show v ++ codes " " ++ sprint_list show (cons w ws)

unfoldable pub sprint : (Value → List ℕ) → Value → List ℕ
sprint show (parameter s) = codes "&{" ++ s ++ codes "}"
sprint show (text s) = s
sprint show (integer i) = signed_decimal i
sprint show (float f) = show (float f)
sprint show (boolean b) = sprint_inner show (boolean b)
sprint show null = codes "<nil>"
sprint show (array vs) = sprint_inner show (array vs)
sprint show (range low high) = sprint_inner show (range low high)
