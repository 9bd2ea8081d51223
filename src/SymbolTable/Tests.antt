-- ===== src/SymbolTable/Tests.antt =====
-- The symbol table of internal/validator/symbol_table.go on a small program.
use codeai.Base.{◌≡◌, refl, none, some}
use codeai.Base.Dict.{lookup, insert}
use codeai.SymbolTable.{
  symbol_variable, type_number, Symbol, SymbolTable, new_symbol_table, register_builtins,
  enter_scope, exit_scope, add_symbol, declare, declare_function, lookup_in, lookup_symbol, Pass,
  done, declares, declares_function, updates, nested, walk, update_in, update_type,
}
use codeai.SymbolTable.Scopes.{LooksAlike, exit_scope-LooksAlike}

abbrev inner : Pass
inner = declares "x" symbol_variable (
    updates "y" type_number
      (nested (declares_function "f" 2 done) (declares "print" symbol_variable done)))

abbrev outside : SymbolTable
outside = (declare new_symbol_table "y" symbol_variable).0

abbrev y : Symbol
y = record { name = "y"; kind = symbol_variable; symbol_type = type_number; param_count = 0 }

-- The type that the inner scope gave to `y` stays, and its `x` is gone.
keeps_type :
    (lookup_symbol (exit_scope (walk inner (enter_scope outside))) "y" ≡ some y)
    × (lookup_symbol (exit_scope (walk inner (enter_scope outside))) "x" ≡ none)
unfolding walk declare add_symbol lookup_symbol lookup_in exit_scope enter_scope new_symbol_table
    register_builtins update_type update_in lookup insert declare_function
keeps_type = (refl, refl)

exit_scope-LooksAlike_example : LooksAlike outside (exit_scope (walk inner (enter_scope outside)))
exit_scope-LooksAlike_example = exit_scope-LooksAlike inner outside
