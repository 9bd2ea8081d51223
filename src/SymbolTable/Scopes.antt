-- ===== src/SymbolTable/Scopes.antt =====
-- Declarations, look-ups and nested scopes of internal/validator/symbol_table.go.
use codeai.Base.{
  ℕ, suc, ◌≡◌, refl, sym, ap, ◌∙◌, ◌⊎◌, inl, inr, String, List, [], ◌∷◌, Option, none, some,
  Option-cases, length, str_eq, str_eq_cases, if◌then◌else◌,
}
use codeai.Base.Dict.{lookup, insert, lookup-insert}
use codeai.SymbolTable.{
  SymbolKind, SymbolType, Symbol, Scope, SymbolTable, Duplicate, enter_scope, exit_scope,
  add_symbol, declare, declare_with_type, declare_function, lookup_in, lookup_symbol, update_in,
  update_type, current_scope_depth, Pass, done, declares, declares_with_type, declares_function,
  updates, nested, walk,
}

-- `err` and `st'` are what a declaration of `new` gives.
pub record IsAdded (st : SymbolTable) (new : Symbol) (st' : SymbolTable) : Type 0 where
  pub unknown : lookup new.name st.current ≡ none
  pub found :
      (name : String)
      → lookup_symbol st' name ≡ (if str_eq new.name name then some new else lookup_symbol st name)
  pub parents_eq : st'.parents ≡ st.parents

pub record IsRefused (st : SymbolTable) (new : Symbol) (st' : SymbolTable) (err : Option Duplicate)
    : Type 0 where
  pub known : (old : Symbol) × (lookup new.name st.current ≡ some old)
  pub unchanged : st' ≡ st
  pub named : err ≡ some (record { duplicate = new.name })

abbrev pub Declares : SymbolTable → Symbol → SymbolTable × Option Duplicate → Type 0
Declares st new (st', err) = (IsAdded st new st' × (err ≡ none)) ⊎ IsRefused st new st' err

lookup_in-insert :
    (k name : String) (new : Symbol) (symbols : Scope) (parents : List Scope)
    → lookup_in name (insert k new symbols) parents
      ≡ (if str_eq k name then some new else lookup_in name symbols parents)
unfolding lookup_in
lookup_in-insert k name new symbols [] = lookup-insert k name new symbols
lookup_in-insert k name new symbols (parent ∷ parents) = elim (str_eq_cases k name) [
  | inl (e, t) ↦ rw (lookup-insert k name new symbols, t, lookup_in) refl
  | inr (n, t) ↦ rw (lookup-insert k name new symbols, t, lookup_in) refl
]

-- A declaration is refused, naming the symbol and changing nothing, if the current scope has the
-- name. Otherwise it succeeds, the name then leads to the new symbol, over any outer one, and each
-- other name leads where it led before.
add_symbol-Declares : (st : SymbolTable) (new : Symbol) → Declares st new (add_symbol st new)
unfolding add_symbol lookup_symbol
add_symbol-Declares st new = elim (Option-cases (lookup new.name st.current)) [
  | inl e ↦
      rw (e, add_symbol)
        (inl (
          record {
            unknown = e;
            found = λ name. lookup_in-insert new.name name new st.current st.parents;
            parents_eq = refl;
          },
          refl,
        ))
  | inr (old, e) ↦
      rw (e, add_symbol) (inr (record { known = (old, e); unchanged = refl; named = refl }))
]

-- What stays of a symbol when its type changes.
abbrev pub outline : Option Symbol → Option (String × SymbolKind × ℕ)
outline none = none
outline (some sym) = some (sym.name, sym.kind, sym.param_count)

-- Scopes with the same names, kinds and parameter counts.
abbrev pub Agree : Scope → Scope → Type 0
Agree m m' = (name : String) → outline (lookup name m') ≡ outline (lookup name m)

abbrev AgreeAll : List Scope → List Scope → Type 0
AgreeAll [] [] = Unit
AgreeAll [] (m' ∷ ms') = ⊥
AgreeAll (m ∷ ms) [] = ⊥
AgreeAll (m ∷ ms) (m' ∷ ms') = Agree m m' × AgreeAll ms ms'

AgreeAll-refl : (ms : List Scope) → AgreeAll ms ms
AgreeAll-refl [] = tt
AgreeAll-refl (m ∷ ms) = ((λ name. refl), AgreeAll-refl ms)

AgreeAll-trans : (ms ns os : List Scope) → AgreeAll ms ns → AgreeAll ns os → AgreeAll ms os
AgreeAll-trans [] [] [] h k = tt
AgreeAll-trans [] [] (o ∷ os) h k = k
AgreeAll-trans [] (n ∷ ns) os h k = absurd h
AgreeAll-trans (m ∷ ms) [] os h k = absurd h
AgreeAll-trans (m ∷ ms) (n ∷ ns) [] h k = k
AgreeAll-trans (m ∷ ms) (n ∷ ns) (o ∷ os) h k =
    ((λ name. k.0 name ∙ h.0 name), AgreeAll-trans ms ns os h.1 k.1)

retyped-Agree :
    (name : String) (typ : SymbolType) (m : Scope) (old : Symbol)
    → lookup name m ≡ some old
    → Agree m (insert name (record old { symbol_type = typ }) m)
retyped-Agree name typ m old h j = elim (str_eq_cases name j) [
  | inl (e, t) ↦ rw (lookup-insert name j (record old { symbol_type = typ }) m, t, sym e, h) refl
  | inr (n, t) ↦ rw (lookup-insert name j (record old { symbol_type = typ }) m, t) refl
]

update_in-Agree :
    (name : String) (typ : SymbolType) (m : Scope) (ms : List Scope)
    → AgreeAll (m ∷ ms) ((update_in name typ m ms).0 ∷ (update_in name typ m ms).1)
unfolding update_in
update_in-Agree name typ m [] = elim (Option-cases (lookup name m)) [
  | inl e ↦ rw (e, update_in) ((λ j. refl), tt)
  | inr (old, e) ↦ rw (e, update_in) (retyped-Agree name typ m old e, tt)
]
update_in-Agree name typ m (p ∷ ps) = elim (Option-cases (lookup name m)) [
  | inl e ↦ rw (e, update_in) ((λ j. refl), update_in-Agree name typ p ps)
  | inr (old, e) ↦ rw (e, update_in) (retyped-Agree name typ m old e, AgreeAll-refl (p ∷ ps))
]

add_symbol-parents : (st : SymbolTable) (new : Symbol) → (add_symbol st new).0.parents ≡ st.parents
unfolding add_symbol
add_symbol-parents st new = elim (Option-cases (lookup new.name st.current)) [
  | inl e ↦ rw (e, add_symbol) refl
  | inr (old, e) ↦ rw (e, add_symbol) refl
]

AgreeAll-eq : (ms ms' : List Scope) → ms' ≡ ms → AgreeAll ms ms'
AgreeAll-eq ms ms' e = rw e (AgreeAll-refl ms)

exit_scope-Agree :
    (m : Scope) (ms : List Scope) (inside : Scope) (outer : List Scope)
    → AgreeAll (m ∷ ms) outer
    → let left = exit_scope (record { current = inside; parents = outer }) in
      AgreeAll (m ∷ ms) (left.current ∷ left.parents)
unfolding exit_scope
exit_scope-Agree m ms inside [] h = absurd h
exit_scope-Agree m ms inside (m' ∷ ms') h = h

walk-Agree : (p : Pass) (st : SymbolTable) → AgreeAll st.parents (walk p st).parents
unfolding walk declare declare_with_type declare_function update_type enter_scope
walk-Agree done st = AgreeAll-refl st.parents
walk-Agree (declares name kind p) st =
    AgreeAll-trans st.parents _ _ (AgreeAll-eq _ _ (add_symbol-parents st _))
      (walk-Agree p (declare st name kind).0)
walk-Agree (declares_with_type name kind typ p) st =
    AgreeAll-trans st.parents _ _ (AgreeAll-eq _ _ (add_symbol-parents st _))
      (walk-Agree p (declare_with_type st name kind typ).0)
walk-Agree (declares_function name n p) st =
    AgreeAll-trans st.parents _ _ (AgreeAll-eq _ _ (add_symbol-parents st _))
      (walk-Agree p (declare_function st name n).0)
walk-Agree (updates name typ p) st =
    AgreeAll-trans st.parents _ _ (update_in-Agree name typ st.current st.parents).1
      (walk-Agree p (update_type st name typ))
walk-Agree (nested inner p) st =
    let inside = walk inner (enter_scope st) in
    AgreeAll-trans st.parents _ _
      (exit_scope-Agree st.current st.parents inside.current inside.parents
        (walk-Agree inner (enter_scope st))).1
      (walk-Agree p (exit_scope inside))

lookup_in-Agree :
    (name : String) (m m' : Scope) (ms ms' : List Scope)
    → AgreeAll (m ∷ ms) (m' ∷ ms')
    → outline (lookup_in name m' ms') ≡ outline (lookup_in name m ms)
unfolding lookup_in
lookup_in-Agree name m m' [] [] h = h.0 name
lookup_in-Agree name m m' [] (n' ∷ ns') h = absurd h.1
lookup_in-Agree name m m' (n ∷ ns) [] h = absurd h.1
lookup_in-Agree name m m' (n ∷ ns) (n' ∷ ns') h =
    let ih = lookup_in-Agree name n n' ns ns' h.1 in
    go (lookup name m) (lookup name m') (lookup_in name n ns) (lookup_in name n' ns') (h.0 name) ih
  where
    go :
        (here here' outer outer' : Option Symbol)
        → outline here' ≡ outline here
        → outline outer' ≡ outline outer
        → outline (elim here' [ some x ↦ some x | none ↦ outer' ])
          ≡ outline (elim here [ some x ↦ some x | none ↦ outer ])
    go none none outer outer' e k = k
    go none (some b) outer outer' e k = cc e
    go (some a) none outer outer' e k = cc e
    go (some a) (some b) outer outer' e k = e

AgreeAll-length : (ms ms' : List Scope) → AgreeAll ms ms' → length ms' ≡ length ms
AgreeAll-length [] [] h = refl
AgreeAll-length [] (m' ∷ ms') h = absurd h
AgreeAll-length (m ∷ ms) [] h = absurd h
AgreeAll-length (m ∷ ms) (m' ∷ ms') h = ap suc (AgreeAll-length ms ms' h.1)

-- The same names are found, with the same kinds and parameter counts, at the same depth.
pub record LooksAlike (st st' : SymbolTable) : Type 0 where
  pub same_depth : current_scope_depth st' ≡ current_scope_depth st
  pub same_outlines :
      (name : String) → outline (lookup_symbol st' name) ≡ outline (lookup_symbol st name)

-- After a scope is entered and left, with any declarations, type updates and further scopes inside
-- it, the table is at the same depth and finds the same names as before, with the same kinds and
-- parameter counts.
pub exit_scope-LooksAlike :
    (inner : Pass) (st : SymbolTable) → LooksAlike st (exit_scope (walk inner (enter_scope st)))
unfolding lookup_symbol current_scope_depth enter_scope
exit_scope-LooksAlike inner st =
    let inside = walk inner (enter_scope st) in
    let left = exit_scope inside in
    let agree =
      exit_scope-Agree st.current st.parents inside.current inside.parents
        (walk-Agree inner (enter_scope st)) in
    record {
      same_depth = ap suc (AgreeAll-length st.parents left.parents agree.1);
      same_outlines =
          λ name. lookup_in-Agree name st.current left.current st.parents left.parents agree;
    }
