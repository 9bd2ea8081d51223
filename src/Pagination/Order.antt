-- ===== src/Pagination/Order.antt =====
-- The order of the rows that internal/pagination/paginator.go asks for: what ORDER BY says in SQL.
use codeai.Base.{◌≡◌, refl, ap, ◌⊎◌, List, [], ◌∷◌, All}
use codeai.Query.Ast.{Value, OrderClause, order_asc, order_desc}
use codeai.Query.Compiler.Names.{find}
use codeai.Pagination.Paginator.{Record, value_or_nil}

-- A list without one of its rows.
pub data Removes (r : Record) : List Record → List Record → Type 0 where
  here : {rows : List Record} → Removes r (r ∷ rows) rows
  there :
      {s : Record} {rows left : List Record} → Removes r rows left → Removes r (s ∷ rows) (s ∷ left)

-- The rows of a table in some order.
pub data Arranges : List Record → List Record → Type 0 where
  nothing : Arranges [] []
  next :
      {r : Record} {found rows left : List Record}
      → Removes r rows left
      → Arranges found left
      → Arranges (r ∷ found) rows

Removes-All :
    (P : Record → Type 0) {r : Record} {rows left : List Record}
    → Removes r rows left
    → P r
    → All P left
    → All P rows
Removes-All P here p a = (p, a)
Removes-All P (there h) p a = (a.0, Removes-All P h p a.1)

Removes-holds :
    (P : Record → Type 0) {r : Record} {rows left : List Record}
    → Removes r rows left
    → All P rows
    → P r × All P left
Removes-holds P here a = a
Removes-holds P (there h) a = let (p, rest) = Removes-holds P h a.1 in (p, (a.0, rest))

Arranges-All :
    (P : Record → Type 0) {found rows : List Record}
    → Arranges found rows
    → All P found
    → All P rows
Arranges-All P nothing a = tt
Arranges-All P (next h more) a = Removes-All P h a.0 (Arranges-All P more a.1)

-- `below` is what the database takes for less.
module _ (below : Value → Value → Type 0) where
  -- By one clause of ORDER BY.
  abbrev pub Goes : OrderClause → Value → Value → Type 0
  Goes o v w = elim o.direction [ order_asc ↦ below v w | order_desc ↦ below w v ]

  abbrev pub column_of : OrderClause → Record → Value
  column_of o r = value_or_nil (find o.field r)

  -- A row comes before another by ORDER BY. Without clauses no row comes before another.
  abbrev pub Precedes : List OrderClause → Record → Record → Type 0
  Precedes [] r s = ⊥
  Precedes (o ∷ os) r s =
      Goes o (column_of o r) (column_of o s) ⊎ ((column_of o r ≡ column_of o s) × Precedes os r s)

  -- What SQL promises of the rows that it finds: none comes behind a row that it precedes.
  abbrev pub Sorted : List OrderClause → List Record → Type 0
  Sorted os [] = Unit
  Sorted os (r ∷ rows) = All (λ s. Precedes os s r → ⊥) rows × Sorted os rows

  -- Rows in an order without ties.
  abbrev pub Ordered : List OrderClause → List Record → Type 0
  Ordered os [] = Unit
  Ordered os (r ∷ rows) = All (Precedes os r) rows × Ordered os rows

  Removes-Ordered :
      (os : List OrderClause) {r : Record} {rows left : List Record}
      → Removes r rows left
      → Ordered os rows
      → Ordered os left
  Removes-Ordered os here h = h.1
  Removes-Ordered os (there {s = s} more) h =
      ((Removes-holds (Precedes os s) more h.0).1, Removes-Ordered os more h.1)

  -- Without ties there is one order.
  pub Arranges-eq :
      (os : List OrderClause) (found rows : List Record)
      → Arranges found rows
      → Sorted os found
      → Ordered os rows
      → found ≡ rows
  Arranges-eq os [] _ nothing s o = refl
  Arranges-eq os (r ∷ found) _ (next here more) s o =
      ap (◌∷◌ r) (Arranges-eq os found _ more s.1 o.1)
  Arranges-eq os (r ∷ found) _ (next (there {s = first} h) more) s o = absurd (
      (Arranges-All (λ t. Precedes os t r → ⊥) more s.0).0
        (Removes-holds (Precedes os first) h o.0).0)
