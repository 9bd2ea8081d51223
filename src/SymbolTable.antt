-- ===== src/SymbolTable.antt =====
-- internal/validator/symbol_table.go: symbols in nested scopes. A chain of scopes is the list of
-- them, the current one first; the global one is the last. A symbol is in the scope that declares it,
-- so `UpdateType`, which writes through the pointer of `Lookup`, writes that entry.
pub mod Scopes
mod Tests
use codeai.Base.{ℕ, suc, Bool, true, false, String, List, [], ◌∷◌, Option, none, some, length}
use codeai.Base.Dict.{Dict, lookup, insert}

pub data SymbolKind : Type 0 where
  symbol_variable symbol_function symbol_parameter : SymbolKind

-- `Type` of internal/validator/type_checker.go.
pub data SymbolType : Type 0 where
  type_unknown type_string type_number type_bool type_array type_function type_void : SymbolType

pub record Symbol : Type 0 where
  pub name : String
  pub kind : SymbolKind
  pub symbol_type : SymbolType
  pub param_count : ℕ

abbrev pub Scope : Type 0
Scope = Dict Symbol

pub record SymbolTable : Type 0 where
  pub current : Scope
  pub parents : List Scope

-- "duplicate declaration 'NAME'".
pub record Duplicate : Type 0 where
  pub duplicate : String

-- A builtin function of one parameter. Its type is the zero value.
abbrev pub builtin : String → Symbol
builtin name = record {
  name = name;
  kind = symbol_function;
  symbol_type = type_unknown;
  param_count = 1;
}

unfoldable pub register_builtins : Scope → Scope
register_builtins symbols = insert "len" (builtin "len") (insert "print" (builtin "print") symbols)

unfoldable pub new_symbol_table : SymbolTable
new_symbol_table = record { current = register_builtins []; parents = [] }

unfoldable pub enter_scope : SymbolTable → SymbolTable
enter_scope st = record { current = []; parents = st.current ∷ st.parents }

unfoldable pub exit_scope : SymbolTable → SymbolTable
exit_scope st = elim st.parents [
  | [] ↦ st
  | parent ∷ parents ↦ record { current = parent; parents = parents }
]

-- What the three declarations share: a name is declared once in a scope.
unfoldable pub add_symbol : SymbolTable → Symbol → SymbolTable × Option Duplicate
add_symbol st sym = elim (lookup sym.name st.current) [
  | some old ↦ (st, some (record { duplicate = sym.name }))
  | none ↦ (record st { current = insert sym.name sym st.current }, none)
]

unfoldable pub declare_with_type :
    SymbolTable → String → SymbolKind → SymbolType → SymbolTable × Option Duplicate
declare_with_type st name kind typ =
    add_symbol st (record { name = name; kind = kind; symbol_type = typ; param_count = 0 })

unfoldable pub declare : SymbolTable → String → SymbolKind → SymbolTable × Option Duplicate
declare st name kind =
    add_symbol st (record { name = name; kind = kind; symbol_type = type_unknown; param_count = 0 })

unfoldable pub declare_function : SymbolTable → String → ℕ → SymbolTable × Option Duplicate
declare_function st name param_count = add_symbol st (record {
  name = name;
  kind = symbol_function;
  symbol_type = type_function;
  param_count = param_count;
})

-- The loop of `Lookup`, from a scope outwards.
unfoldable pub lookup_in : String → Scope → List Scope → Option Symbol
lookup_in name symbols [] = lookup name symbols
lookup_in name symbols (parent ∷ parents) =
    let outer = lookup_in name parent parents in
    elim (lookup name symbols) [ some sym ↦ some sym | none ↦ outer ]

unfoldable pub lookup_symbol : SymbolTable → String → Option Symbol
lookup_symbol st name = lookup_in name st.current st.parents

unfoldable pub lookup_local : SymbolTable → String → Option Symbol
lookup_local st name = lookup name st.current

-- The write of `UpdateType`, in the innermost scope that has the name.
unfoldable pub update_in : String → SymbolType → Scope → List Scope → Scope × List Scope
update_in name typ symbols [] = elim (lookup name symbols) [
  | none ↦ (symbols, [])
  | some sym ↦ (insert name (record sym { symbol_type = typ }) symbols, [])
]
update_in name typ symbols (parent ∷ parents) =
    let (parent', parents') = update_in name typ parent parents in
    elim (lookup name symbols) [
      | none ↦ (symbols, parent' ∷ parents')
      | some sym ↦ (insert name (record sym { symbol_type = typ }) symbols, parent ∷ parents)
    ]

unfoldable pub update_type : SymbolTable → String → SymbolType → SymbolTable
update_type st name typ =
    let (current', parents') = update_in name typ st.current st.parents in
    record { current = current'; parents = parents' }

unfoldable pub current_scope_depth : SymbolTable → ℕ
current_scope_depth st = suc (length st.parents)

-- The calls of a pass over a program: changes, and a nested scope that is entered and left.
pub data Pass : Type 0 where
  done : Pass
  declares : String → SymbolKind → Pass → Pass
  declares_with_type : String → SymbolKind → SymbolType → Pass → Pass
  declares_function : String → ℕ → Pass → Pass
  updates : String → SymbolType → Pass → Pass
  nested : Pass → Pass → Pass

unfoldable pub walk : Pass → SymbolTable → SymbolTable
walk done st = st
walk (declares name kind p) st = walk p (declare st name kind).0
walk (declares_with_type name kind typ p) st = walk p (declare_with_type st name kind typ).0
walk (declares_function name n p) st = walk p (declare_function st name n).0
walk (updates name typ p) st = walk p (update_type st name typ)
walk (nested inner p) st = walk p (exit_scope (walk inner (enter_scope st)))
